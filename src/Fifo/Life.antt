-- ===== src/Fifo/Life.antt =====
-- source/comm_fifo.c: from the initialization of an end of a pipe to its un-initialization.
use libcomm.Prelude.{
  Bool, minus_one, not, if◌then◌else◌, ◌∙◌, ℕ, ℤ, ◌≡◌, ◌≢◌, refl, true, arith, List, is_negative,
  pos,
}
use libcomm.Os.{World, Os, OpenMode, ◌>>=◌, ◌>>◌, pure, call, open_file}
use libcomm.Memory.{is_live, FreshBlocks, FreshFiles}
use libcomm.Returns.{Returns, Returns-bind, Returns-mono, Returns-touch}
use libcomm.Handles.Make.{Acquired, Same-Acquired, Started, IsMaking, make-Initialized}
use libcomm.Handles.{Same, Unchanged, Freed, init-uninit-Unchanged}
use libcomm.Fifo.{
  Context, Heap, Act, save, new_context, make_fifo, open_fifo, close_fifo, start_reading, read_init,
  read_uninit, write_init, write_uninit,
}

abbrev pub fd_of : Heap → ℕ → ℤ
fd_of s p = (s p).fd

module _ (os : Os) where
  write_uninit-Freed :
      (p : ℕ) (w : World Heap)
      → p ≢ 0
      → is_live w.history p ≡ true
      → Returns (write_uninit os p w) (λ _ w'. Freed p (w.store p).fd w.history w'.history)
  unfolding write_uninit close_fifo
  write_uninit-Freed p w nz live = ground arith

  read_uninit-Freed :
      (p : ℕ) (w : World Heap)
      → p ≢ 0
      → is_live w.history p ≡ true
      → Returns (read_uninit os p w) (λ _ w'. Freed p (w.store p).fd w.history w'.history)
  unfolding read_uninit close_fifo
  read_uninit-Freed p w nz live = ground arith

  -- What `make_fifo` does: nothing to memory or descriptors.
  make_fifo-Same :
      (c : Context) (w : World Heap)
      → Returns (make_fifo os c w) (λ _ w'. Same w.history w'.history × (w'.store ≡ w.store))
  unfolding make_fifo
  make_fifo-Same c w = ground arith

  -- What follows `make_fifo`.
  abbrev opening : OpenMode → ℕ → Context → Bool → Act ℤ
  opening mode p c made = if not made then pure minus_one else (do
    f ← call os (open_file c.file_name mode)
    if is_negative f.value
        then pure minus_one
        else (do save p (record c { fd = f.value }); pure (pos 0)))

  opening-Acquired :
      (mode : OpenMode) (p : ℕ) (c : Context) (made : Bool) (w : World Heap)
      → FreshFiles os
      → is_live w.history p ≡ true
      → Returns (opening mode p c made w) (λ e w'. Acquired (w'.store p).fd e w.history w'.history)
  opening-Acquired mode p c made w files live = ground (arith, files w.history c.file_name mode)

  -- The attempt to open a pipe.
  open_fifo-Acquired :
      (mode : OpenMode) (p : ℕ) (w : World Heap)
      → FreshFiles os
      → is_live w.history p ≡ true
      → Returns (open_fifo os mode p w) (λ e w'. Acquired (w'.store p).fd e w.history w'.history)
  unfolding open_fifo
  open_fifo-Acquired mode p w files live =
      Returns-touch p (λ w0. (w0.store p, w0)) (λ c0. make_fifo os c0 >>= opening mode p c0) w
        (λ e w'. Acquired (w'.store p).fd e w.history w'.history) live
        (Returns-bind (make_fifo os c) (opening mode p c) w
          (λ _ w1. Same w.history w1.history × (w1.store ≡ w.store))
          (λ e w'. Acquired (w'.store p).fd e w.history w'.history) (make_fifo-Same c w) after)
    where
      c : Context
      c = w.store p

      after :
          (made : Bool) (w1 : World Heap)
          → Same w.history w1.history × (w1.store ≡ w.store)
          → Returns
              (opening mode p c made w1)
              (λ e w'. Acquired (w'.store p).fd e w.history w'.history)
      after made w1 (same, _) =
          Returns-mono (opening mode p c made w1)
            (λ e w'. Acquired (w'.store p).fd e w1.history w'.history)
            (λ e w'. Acquired (w'.store p).fd e w.history w'.history)
            (opening-Acquired mode p c made w1 files (same.0 p ∙ live))
            (λ e w'. Same-Acquired (w'.store p).fd e w.history w1.history w'.history same)

  start_reading-Started :
      (p : ℕ) (w : World Heap)
      → p ≢ 0
      → is_live w.history p ≡ true
      → Returns (start_reading os p w) (Started fd_of p w)
  unfolding start_reading close_fifo
  start_reading-Started p w nz live = ground arith

  abbrev set_up : List ℕ → ℤ → ℕ → ℕ → ℕ → ℕ → Act (Unit {0})
  set_up file_name make get_func close_func arg p =
      save p (new_context file_name make get_func close_func arg)

  making :
      (file_name : List ℕ) (make : ℤ) (get_func close_func arg : ℕ) (mode : OpenMode)
      (start : ℕ → Act ℕ)
      → FreshFiles os
      → ((p : ℕ) (w : World Heap)
          → p ≢ 0
          → is_live w.history p ≡ true
          → Returns (start p w) (Started fd_of p w))
      → IsMaking fd_of
          (λ _ _. Unit {0})
          (set_up file_name make get_func close_func arg)
          (open_fifo os mode)
          start
  making file_name make get_func close_func arg mode start files starts = record {
    sets = λ p w live. rw (live, Returns) (refl, tt);
    gets = λ p w live _. open_fifo-Acquired mode p w files live;
    starts = starts;
  }

  -- If malloc gives fresh blocks and open fresh descriptors, the reading end of a pipe that is
  -- initialized and then un-initialized meets no fault and leaves the same memory allocated, and
  -- the same descriptors open but for 0, whether or not the pipe could be made and opened.
  fifo_read_restores :
      (file_name : List ℕ) (make : ℤ) (get_func close_func arg : ℕ) (w : World Heap)
      → FreshBlocks os
      → FreshFiles os
      → Returns
          ((read_init os file_name make get_func close_func arg >>= read_uninit os) w)
          (λ _ w'. Unchanged w.history w'.history)
  unfolding read_init read_uninit
  fifo_read_restores file_name make get_func close_func arg w blocks files =
      init-uninit-Unchanged fd_of (read_init os file_name make get_func close_func arg)
        (read_uninit os) w
        (make-Initialized os blocks fd_of (λ _ _. Unit {0})
          (set_up file_name make get_func close_func arg) (open_fifo os OpenMode.read_only)
          (start_reading os)
          (making file_name make get_func close_func arg OpenMode.read_only (start_reading os) files
            start_reading-Started)
          w)
        (λ w1. refl) read_uninit-Freed

  -- If malloc gives fresh blocks and open fresh descriptors, the writing end of a pipe that is
  -- initialized and then un-initialized meets no fault and leaves the same memory allocated, and
  -- the same descriptors open but for 0, whether or not the pipe could be made and opened.
  fifo_write_restores :
      (file_name : List ℕ) (make : ℤ) (w : World Heap)
      → FreshBlocks os
      → FreshFiles os
      → Returns
          ((write_init os file_name make >>= write_uninit os) w)
          (λ _ w'. Unchanged w.history w'.history)
  unfolding write_init write_uninit
  fifo_write_restores file_name make w blocks files =
      init-uninit-Unchanged fd_of (write_init os file_name make) (write_uninit os) w
        (make-Initialized os blocks fd_of (λ _ _. Unit {0}) (set_up file_name make 0 0 0)
          (open_fifo os OpenMode.write_only) pure
          (making file_name make 0 0 0 OpenMode.write_only pure files
            (λ p w1 nz live. ((λ z. absurd (nz z)), λ _. (refl, ((λ r. refl), λ fd. refl), refl))))
          w)
        (λ w1. refl) write_uninit-Freed
