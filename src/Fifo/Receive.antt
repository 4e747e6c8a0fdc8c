-- ===== src/Fifo/Receive.antt =====
-- source/comm_fifo.c: one round of the thread that reads a pipe, and the thread as a whole.
use libcomm.Prelude.{
  ℕ, suc, ◌+◌, ◌≤◌, ◌≡◌, ◌≢◌, true, false, arith, ℤ, minus_one, is_positive, pos_part, eq_ℤ, Bool,
  List, [], ◌∷◌, length, ◌==◌, ◌&&◌, if◌then◌else◌,
}
use libcomm.Os.{
  World, Os, Call, Reply, History, read, get_callback, close_callback, thread_testcancel,
}
use libcomm.Memory.{is_live, is_open, ReadFits}
use libcomm.Returns.{Returns}
use libcomm.Threads.{Round, again, leave, cancelled, comm_buf_size, take-received, length-received}
use libcomm.Fifo.{Heap, deliver, close_reader, get_round}

-- The messages that `read` on `fd` gave, those that the callback `f` was handed, the newest first,
-- and the number of times that the callback `f` was told that the pipe is closed.
abbrev pub payload_after : Call → Reply → ℤ → List (List ℕ) → List (List ℕ)
payload_after (read s n) r fd older =
    if eq_ℤ s fd && is_positive r.value then r.payload ∷ older else older
payload_after _ r fd older = older

abbrev pub payloads : ℤ → History → List (List ℕ)
payloads fd [] = []
payloads fd ((c, r) ∷ h) = payload_after c r fd (payloads fd h)

abbrev pub handed_after : Call → ℕ → List (List ℕ) → List (List ℕ)
handed_after (get_callback g arg message) f older = if g == f then message ∷ older else older
handed_after _ f older = older

abbrev pub handed : ℕ → History → List (List ℕ)
handed f [] = []
handed f ((c, r) ∷ h) = handed_after c f (handed f h)

abbrev pub closing : Call → ℕ → ℕ
closing (close_callback g arg len) f = if g == f then 1 else 0
closing _ f = 0

abbrev pub closings : ℕ → History → ℕ
closings f [] = 0
closings f ((c, r) ∷ h) = closing c f + closings f h

-- What the thread of the reader at `p` relies on.
pub record Ready (p : ℕ) (w : World Heap) : Type 0 where
  pub alive : is_live w.history p ≡ true
  pub runs : (w.store p).running ≡ true
  pub get_set : (w.store p).p_get_func ≢ 0
  pub close_set : (w.store p).p_close_func ≢ 0
  pub buffer : length (w.store p).recv_msg ≡ suc comm_buf_size

abbrev pub is_leave : Round → Bool
is_leave again = false
is_leave leave = true
is_leave cancelled = false

-- Some rounds of the thread.
pub record RoundDone (p : ℕ) (w : World Heap) (o : Round) (w' : World Heap) : Type 0 where
  pub same_live : (r : ℕ) → is_live w'.history r ≡ is_live w.history r
  pub other_fds : (d : ℤ) → d ≢ (w.store p).fd → is_open w'.history d ≡ is_open w.history d
  pub others : (r : ℕ) → r ≢ p → w'.store r ≡ w.store r
  pub same_get : (w'.store p).p_get_func ≡ (w.store p).p_get_func
  pub same_close : (w'.store p).p_close_func ≡ (w.store p).p_close_func
  pub runs : o ≡ again → ((w'.store p).running ≡ true) × ((w'.store p).fd ≡ (w.store p).fd)
  pub shut : o ≡ leave → ((w'.store p).fd ≡ minus_one) × (is_open w'.history (w.store p).fd ≡ false)
  pub told :
      closings (w.store p).p_close_func w'.history
      ≡ (if is_leave o then 1 else 0) + closings (w.store p).p_close_func w.history
  pub buffer : length (w'.store p).recv_msg ≡ suc comm_buf_size
  pub hands :
      o ≢ cancelled
      → handed (w.store p).p_get_func w.history ≡ payloads (w.store p).fd w.history
      → handed (w.store p).p_get_func w'.history ≡ payloads (w.store p).fd w'.history

module _ (os : Os) (fits : ReadFits os) (p : ℕ) where
  deliver_outcome :
      (payload : List ℕ) (len : ℕ) (w : World Heap)
      → Ready p w
      → length payload ≡ len
      → len ≤ comm_buf_size
      → Returns (deliver os p payload len w) (λ o w'.
        (o ≢ leave)
        × ((r : ℕ) → is_live w'.history r ≡ is_live w.history r)
        × ((d : ℤ) → is_open w'.history d ≡ is_open w.history d)
        × ((r : ℕ) → r ≢ p → w'.store r ≡ w.store r)
        × ((w'.store p).fd ≡ (w.store p).fd)
        × ((w'.store p).p_get_func ≡ (w.store p).p_get_func)
        × ((w'.store p).p_close_func ≡ (w.store p).p_close_func)
        × ((w'.store p).running ≡ true)
        × (length (w'.store p).recv_msg ≡ suc comm_buf_size)
        × (closings (w.store p).p_close_func w'.history
            ≡ closings (w.store p).p_close_func w.history)
        × (payloads (w.store p).fd w'.history ≡ payloads (w.store p).fd w.history)
        × (o ≡ again
            → handed (w.store p).p_get_func w'.history
              ≡ payload ∷ handed (w.store p).p_get_func w.history))
  unfolding deliver
  deliver_outcome payload len w ready measured fit = ground (
    arith,
    ready.alive,
    ready.runs,
    ready.get_set,
    ready.buffer,
    measured,
    take-received payload (w.store p).recv_msg,
    length-received payload (w.store p).recv_msg,
  )

  close_reader-RoundDone :
      (len : ℤ) (w : World Heap) → Ready p w → Returns (close_reader os p len w) (RoundDone p w)
  unfolding close_reader
  close_reader-RoundDone len w ready = ground (arith, ready.alive, ready.close_set, ready.buffer)

  abbrev asked : World Heap → History
  asked w = (thread_testcancel, os.reply w.history thread_testcancel) ∷ w.history

  pub get_round-RoundDone :
      (w : World Heap) → Ready p w → Returns (get_round os p w) (RoundDone p w)
  unfolding get_round
  get_round-RoundDone w ready = ground (
    arith,
    ready.alive,
    ready.runs,
    ready.buffer,
    deliver_outcome r.payload (pos_part r.value) w1 ready1,
    close_reader-RoundDone r.value w1 ready1,
    fits (asked w) (w.store p).fd comm_buf_size (pos_part r.value),
  )
    where
      r : Reply
      r = os.reply (asked w) (read (w.store p).fd comm_buf_size)

      w1 : World Heap
      w1 = record w { history = (read (w.store p).fd comm_buf_size, r) ∷ asked w }

      ready1 : Ready p w1
      ready1 = record {
        alive = ready.alive;
        runs = ready.runs;
        get_set = ready.get_set;
        close_set = ready.close_set;
        buffer = ready.buffer;
      }
