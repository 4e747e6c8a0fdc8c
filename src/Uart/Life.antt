-- ===== src/Uart/Life.antt =====
-- source/comm_uart.c: opening a device and closing it again.
use libcomm.Prelude.{
  ℕ, ℤ, ◌≡◌, ◌≢◌, refl, true, false, not, arith, List, ◌∷◌, ◌&&◌, is_negative, ◌==◌, Bool, ◌∙◌,
}
use native.Mathlib.Decide.{ℕ_discrete}
use libcomm.Os.{World, Os, OpenMode, malloc, open_file, ◌>>=◌}
use libcomm.Memory.{is_live, is_open, FreshBlocks, FreshFiles}
use libcomm.Returns.{Returns, Returns-mono}
use libcomm.Handles.{Unchanged, Opened, Freed, Initialized, init-uninit-Unchanged}
use libcomm.Uart.{Heap, new_context, start_receiving, open_dev, close_dev}

abbrev fd_of : Heap → ℕ → ℤ
fd_of s p = (s p).fd

module _ (os : Os) where
  -- The block that `malloc` gives, and whether the device cannot be opened.
  abbrev pub given : World Heap → ℕ
  given w = (os.reply w.history malloc).pointer

  abbrev pub refused : List ℕ → World Heap → Bool
  refused dev_name w =
      is_negative
        (os.reply ((malloc, os.reply w.history malloc) ∷ w.history)
          (open_file dev_name OpenMode.read_write)).value

  close_dev-Freed :
      (p : ℕ) (w : World Heap)
      → p ≢ 0
      → is_live w.history p ≡ true
      → Returns (close_dev os p w) (λ _ w'. Freed p (w.store p).fd w.history w'.history)
  unfolding close_dev
  close_dev-Freed p w nz live = ground arith

  -- If malloc gives fresh blocks and open fresh descriptors, uart_openDev meets no fault. A
  -- handle is a new block with a new descriptor. If it gives NULL, the same descriptors are open,
  -- no other block is allocated or freed, and the block that malloc gave is still allocated
  -- exactly if malloc did not fail and the device could not be opened. In any case it writes to
  -- no context but that in the block that malloc gave, and to none if malloc failed.
  pub open_dev_leaves :
      (dev_name : List ℕ) (recv_func arg : ℕ) (w : World Heap)
      → FreshBlocks os
      → FreshFiles os
      → Returns (open_dev os dev_name recv_func arg w) (λ q w'.
        (q ≢ 0 → Opened q (w'.store q).fd w.history w'.history)
        × (q ≡ 0
            → ((d : ℤ) → is_open w'.history d ≡ is_open w.history d)
              × ((r : ℕ) → r ≢ given w → is_live w'.history r ≡ is_live w.history r)
              × (is_live w'.history (given w) ≡ not (given w == 0) && refused dev_name w))
        × ((r : ℕ) → r ≢ given w → w'.store r ≡ w.store r)
        × (given w ≡ 0 → w'.store ≡ w.store))
  unfolding open_dev new_context start_receiving
  open_dev_leaves dev_name recv_func arg w blocks files = ground (
    arith,
    blocks w.history,
    files ((malloc, os.reply w.history malloc) ∷ w.history) dev_name OpenMode.read_write,
  )

  -- If malloc gives fresh blocks, open fresh descriptors, and the device can be opened, then
  -- opening it and closing it again meets no fault and leaves the same memory allocated, and the
  -- same descriptors open but for 0, whether or not the thread could be started.
  uart_open_close_restores :
      (dev_name : List ℕ) (recv_func arg : ℕ) (w : World Heap)
      → FreshBlocks os
      → FreshFiles os
      → refused dev_name w ≡ false
      → Returns
          ((open_dev os dev_name recv_func arg >>= close_dev os) w)
          (λ _ w'. Unchanged w.history w'.history)
  unfolding close_dev
  uart_open_close_restores dev_name recv_func arg w blocks files granted =
      init-uninit-Unchanged fd_of (open_dev os dev_name recv_func arg) (close_dev os) w
        (Returns-mono (open_dev os dev_name recv_func arg w) _ (Initialized fd_of w)
          (open_dev_leaves dev_name recv_func arg w blocks files)
          (λ q w' x. ((λ z. none_left w' (x.1 z)), x.0)))
        (λ w1. refl) close_dev-Freed
    where
      none_left :
          (w' : World Heap)
          → ((d : ℤ) → is_open w'.history d ≡ is_open w.history d)
            × ((r : ℕ) → r ≢ given w → is_live w'.history r ≡ is_live w.history r)
            × (is_live w'.history (given w) ≡ not (given w == 0) && refused dev_name w)
          → Unchanged w.history w'.history
      none_left w' (same_open, others, self) = (
        λ r. elim (ℕ_discrete r (given w)) [
          | yes e ↦ rw e (self ∙ ground (arith, granted, blocks w.history))
          | no ne ↦ others r ne
        ],
        λ d _. same_open d,
      )
