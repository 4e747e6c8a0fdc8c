-- ===== src/Datagram/Receive.antt =====
-- source/comm_udp.c, source/comm_ipc_dgram.c and source/comm_raw.c: one round of the receiving thread.
use libcomm.Prelude.{
  ℕ, suc, ◌≤◌, ◌≡◌, ◌≢◌, subst, true, not, arith, ℤ, pos_part, eq_ℤ, Bool, List, [], ◌∷◌, length,
  take, ◌%◌, ◌^◌, ◌==◌, ◌&&◌, if◌then◌else◌,
}
use libcomm.Os.{
  World, Os, Address, Call, Reply, History, recvfrom, datagram_callback, thread_testcancel,
}
use libcomm.Memory.{is_live, is_open, RecvfromFits}
use libcomm.Returns.{Returns}
use libcomm.Threads.{
  Round, again, leave, cancelled, received, comm_buf_size, take-received, length-received,
}
use libcomm.Datagram.{Heap, Kind, deliver, recv_round}
use libcomm.Datagram.Laws.{Failing}

-- The messages that `recvfrom` on `fd` gave, and those that the callback `f` was handed, the
-- newest first.
abbrev pub payload_after : (ℤ → Bool) → Call → Reply → ℤ → List (List ℕ) → List (List ℕ)
payload_after fails (recvfrom s n) r fd older =
    if eq_ℤ s fd && not (fails r.value) then r.payload ∷ older else older
payload_after fails _ r fd older = older

abbrev pub payloads : (ℤ → Bool) → ℤ → History → List (List ℕ)
payloads fails fd [] = []
payloads fails fd ((c, r) ∷ h) = payload_after fails c r fd (payloads fails fd h)

abbrev pub handed_after : Call → ℕ → List (List ℕ) → List (List ℕ)
handed_after (datagram_callback g arg message source) f older =
    if g == f then message ∷ older else older
handed_after _ f older = older

abbrev pub handed : ℕ → History → List (List ℕ)
handed f [] = []
handed f ((c, r) ∷ h) = handed_after c f (handed f h)

-- What the thread of the endpoint at `p` relies on.
pub record Ready {Place : Type 0} (p : ℕ) (w : World (Heap Place)) : Type 0 where
  pub alive : is_live w.history p ≡ true
  pub runs : (w.store p).running ≡ true
  pub callback : (w.store p).p_recv_func ≢ 0
  pub buffer : length (w.store p).recv_msg ≡ suc comm_buf_size

-- Some rounds of the thread: nothing is allocated, freed, opened or closed; the buffer keeps its
-- size; and unless the thread is cancelled, what was received was handed over.
pub record RoundDone {Place : Type 0} (fails : ℤ → Bool) (p : ℕ) (w : World (Heap Place))
    (o : Round) (w' : World (Heap Place)) : Type 0 where
  pub same_live : (r : ℕ) → is_live w'.history r ≡ is_live w.history r
  pub same_open : (fd : ℤ) → is_open w'.history fd ≡ is_open w.history fd
  pub others : (r : ℕ) → r ≢ p → w'.store r ≡ w.store r
  pub same_fd : (w'.store p).fd ≡ (w.store p).fd
  pub same_func : (w'.store p).p_recv_func ≡ (w.store p).p_recv_func
  pub runs : o ≡ again → (w'.store p).running ≡ true
  pub buffer : length (w'.store p).recv_msg ≡ suc comm_buf_size
  pub hands :
      o ≢ cancelled
      → handed (w.store p).p_recv_func w.history ≡ payloads fails (w.store p).fd w.history
      → handed (w.store p).p_recv_func w'.history ≡ payloads fails (w.store p).fd w'.history

module _ {Place : Type 0} (os : Os) (fits : RecvfromFits os) (kind : Kind Place)
    (failing : Failing kind) (p : ℕ) where
  deliver_outcome :
      (payload : List ℕ) (len : ℕ) (source : Address) (w : World (Heap Place))
      → Ready p w
      → length payload ≡ len
      → len ≤ comm_buf_size
      → Returns (deliver os kind p payload len source w) (λ o w'.
        (o ≢ leave)
        × ((r : ℕ) → is_live w'.history r ≡ is_live w.history r)
        × ((fd : ℤ) → is_open w'.history fd ≡ is_open w.history fd)
        × ((r : ℕ) → r ≢ p → w'.store r ≡ w.store r)
        × ((w'.store p).fd ≡ (w.store p).fd)
        × ((w'.store p).p_recv_func ≡ (w.store p).p_recv_func)
        × ((w'.store p).running ≡ true)
        × (length (w'.store p).recv_msg ≡ suc comm_buf_size)
        × (payloads kind.fails (w.store p).fd w'.history
            ≡ payloads kind.fails (w.store p).fd w.history)
        × (o ≡ again
            → handed (w.store p).p_recv_func w'.history
              ≡ payload ∷ handed (w.store p).p_recv_func w.history))
  unfolding deliver
  deliver_outcome payload len source w ready measured fit = ground (
    arith,
    ready.alive,
    ready.runs,
    ready.callback,
    ready.buffer,
    length-received payload (w.store p).recv_msg (omega (arith, measured, ready.buffer)),
    subst (λ n. take (n % 2 ^ 16) (received payload (w.store p).recv_msg) ≡ payload) measured
        (take-received payload (w.store p).recv_msg (omega arith)),
  )

  abbrev asked : World (Heap Place) → History
  asked w = (thread_testcancel, os.reply w.history thread_testcancel) ∷ w.history

  pub recv_round-RoundDone :
      (w : World (Heap Place))
      → Ready p w
      → Returns (recv_round os kind p w) (RoundDone kind.fails p w)
  unfolding recv_round
  recv_round-RoundDone w ready = ground (
    arith,
    ready.alive,
    ready.runs,
    ready.buffer,
    deliver_outcome r.payload (pos_part r.value) r.source w1 ready1,
    fits (asked w) (w.store p).fd comm_buf_size (pos_part r.value),
    failing r.value,
  )
    where
      r : Reply
      r = os.reply (asked w) (recvfrom (w.store p).fd comm_buf_size)

      w1 : World (Heap Place)
      w1 = record w { history = (recvfrom (w.store p).fd comm_buf_size, r) ∷ asked w }

      ready1 : Ready p w1
      ready1 = record {
        alive = ready.alive;
        runs = ready.runs;
        callback = ready.callback;
        buffer = ready.buffer;
      }
