-- ===== src/TcpClient/Receive.antt =====
-- source/comm_tcp_client.c: what the receiving thread does with what it receives.
use libcomm.Prelude.{
  ℕ, suc, ◌≤◌, ◌≡◌, ◌≢◌, subst, true, false, arith, ℤ, minus_one, pos_part, List, [], ◌∷◌, length,
  take, ◌%◌, ◌^◌, ◌==◌, if◌then◌else◌,
}
use libcomm.Os.{
  World, Os, Call, Reply, History, recv, client_exit_callback, client_recv_callback,
  thread_testcancel,
}
use libcomm.Memory.{is_live, is_open, RecvFits}
use libcomm.Returns.{Returns}
use libcomm.Threads.{Round, again, leave, received, payloads, comm_buf_size, take-received}
use libcomm.TcpClient.{Heap, close_connection, deliver, recv_round}

-- The messages that the callback `f` was handed, the newest first.
abbrev pub handed_after : Call → ℕ → List (List ℕ) → List (List ℕ)
handed_after (client_recv_callback g arg message) f older =
    if g == f then message ∷ older else older
handed_after _ f older = older

abbrev pub handed : ℕ → History → List (List ℕ)
handed f [] = []
handed f ((c, r) ∷ h) = handed_after c f (handed f h)

-- How often the callback `f` was told that the connection is closed.
abbrev pub exit_after : Call → ℕ → ℕ → ℕ
exit_after (client_exit_callback g arg len) f n = if g == f then suc n else n
exit_after _ f n = n

abbrev pub exits : ℕ → History → ℕ
exits f [] = 0
exits f ((c, r) ∷ h) = exit_after c f (exits f h)

-- Rounds of the thread of the client at `p` that leave it connected.
pub record Connected (p : ℕ) (w w' : World Heap) : Type 0 where
  pub live : (r : ℕ) → is_live w'.history r ≡ is_live w.history r
  pub others : (r : ℕ) → r ≢ p → w'.store r ≡ w.store r
  pub same_fd : (w'.store p).fd ≡ (w.store p).fd
  pub same_recv : (w'.store p).p_client_recv_func ≡ (w.store p).p_client_recv_func
  pub same_exit : (w'.store p).p_client_exit_func ≡ (w.store p).p_client_exit_func
  pub runs : (w'.store p).running ≡ true
  pub no_exit :
      exits (w.store p).p_client_exit_func w'.history
      ≡ exits (w.store p).p_client_exit_func w.history
  pub hands :
      handed (w.store p).p_client_recv_func w.history ≡ payloads (w.store p).fd w.history
      → handed (w.store p).p_client_recv_func w'.history ≡ payloads (w.store p).fd w'.history

-- The connection is closed: so is the socket, and the application was told once.
pub record Closed (p : ℕ) (w w' : World Heap) : Type 0 where
  pub live : (r : ℕ) → is_live w'.history r ≡ is_live w.history r
  pub others : (r : ℕ) → r ≢ p → w'.store r ≡ w.store r
  pub no_fd : (w'.store p).fd ≡ minus_one
  pub closed : is_open w'.history (w.store p).fd ≡ false
  pub told :
      (w.store p).p_client_exit_func ≢ 0
      → exits (w.store p).p_client_exit_func w'.history
        ≡ suc (exits (w.store p).p_client_exit_func w.history)
  pub delivered :
      handed (w.store p).p_client_recv_func w.history ≡ payloads (w.store p).fd w.history
      → handed (w.store p).p_client_recv_func w'.history ≡ payloads (w.store p).fd w'.history

-- How a round ends, or some rounds. A cancelled thread has freed and allocated nothing.
pub record RoundDone (p : ℕ) (w : World Heap) (o : Round) (w' : World Heap) : Type 0 where
  pub goes_on : o ≡ again → Connected p w w'
  pub ends : o ≡ leave → Closed p w w'
  pub steady : (r : ℕ) → is_live w'.history r ≡ is_live w.history r

-- What the thread relies on: the client is allocated, is running and has a receive callback.
pub record Ready (p : ℕ) (w : World Heap) : Type 0 where
  pub alive : is_live w.history p ≡ true
  pub runs : (w.store p).running ≡ true
  pub callback : (w.store p).p_client_recv_func ≢ 0

module _ (os : Os) (fits : RecvFits os) (p : ℕ) where
  close_connection_outcome :
      (len : ℤ) (w : World Heap)
      → is_live w.history p ≡ true
      → Returns (close_connection os p len w) (λ o w'. (o ≡ leave) × Closed p w w')
  unfolding close_connection
  close_connection_outcome len w live = ground arith

  deliver_outcome :
      (payload : List ℕ) (len : ℕ) (w : World Heap)
      → Ready p w
      → length payload ≡ len
      → len ≤ comm_buf_size
      → Returns (deliver os p payload len w) (λ o w'.
        (o ≢ leave)
        × ((r : ℕ) → is_live w'.history r ≡ is_live w.history r)
        × (o ≡ again
            → ((r : ℕ) → r ≢ p → w'.store r ≡ w.store r)
              × ((w'.store p).fd ≡ (w.store p).fd)
              × ((w'.store p).p_client_recv_func ≡ (w.store p).p_client_recv_func)
              × ((w'.store p).p_client_exit_func ≡ (w.store p).p_client_exit_func)
              × ((w'.store p).running ≡ true)
              × (exits (w.store p).p_client_exit_func w'.history
                  ≡ exits (w.store p).p_client_exit_func w.history)
              × (handed (w.store p).p_client_recv_func w'.history
                  ≡ payload ∷ handed (w.store p).p_client_recv_func w.history)
              × (payloads (w.store p).fd w'.history ≡ payloads (w.store p).fd w.history)))
  unfolding deliver
  deliver_outcome payload len w ready measured fit = ground (
    arith,
    ready.alive,
    ready.runs,
    ready.callback,
    subst (λ n. take (n % 2 ^ 16) (received payload (w.store p).recv_msg) ≡ payload) measured
        (take-received payload (w.store p).recv_msg (omega arith)),
  )

  abbrev asked : World Heap → History
  asked w = (thread_testcancel, os.reply w.history thread_testcancel) ∷ w.history

  pub recv_round-RoundDone :
      (w : World Heap) → Ready p w → Returns (recv_round os p w) (RoundDone p w)
  unfolding recv_round
  recv_round-RoundDone w ready = ground (
    arith,
    ready.alive,
    ready.runs,
    ready.callback,
    close_connection_outcome r.value w1 ready.alive,
    deliver_outcome r.payload (pos_part r.value) w1 ready1,
    fits (asked w) (w.store p).fd comm_buf_size (pos_part r.value),
  )
    where
      r : Reply
      r = os.reply (asked w) (recv (w.store p).fd comm_buf_size)

      w1 : World Heap
      w1 = record w { history = (recv (w.store p).fd comm_buf_size, r) ∷ asked w }

      ready1 : Ready p w1
      ready1 = record { alive = ready.alive; runs = ready.runs; callback = ready.callback }
