-- ===== src/TcpServer/Receive.antt =====
-- source/comm_tcp_server.c: the thread that receives from a client.
use libcomm.Prelude.{
  ℕ, ◌≤◌, ◌≡◌, ◌≢◌, subst, true, false, arith, ℤ, minus_one, is_positive, pos_part, List, [], ◌∷◌,
  length, take, ◌%◌, ◌^◌, ◌==◌, ◌&&◌, if◌then◌else◌,
}
use libcomm.Os.{World, Os, Call, Reply, History, recv, recv_callback, thread_testcancel}
use libcomm.Memory.{is_live, is_open, RecvFits}
use libcomm.Returns.{Returns}
use libcomm.TcpServer.{Heap, comm_buf_size}
pub use libcomm.Threads.{payloads}
use libcomm.Threads.{take-received}
use libcomm.TcpServer.Tasks.{
  Round, again, leave, cancelled, close_connection, deliver, recv_round, received,
}

-- Nothing is allocated or freed, and no context changes.
pub record Steady (w w' : World Heap) : Type 0 where
  pub live : (r : ℕ) → is_live w'.history r ≡ is_live w.history r
  pub contexts : w'.store.contexts ≡ w.store.contexts
  pub servers : (r : ℕ) → (w'.store.users r).p_server ≡ (w.store.users r).p_server

-- A round of the thread of the user at `q`.
pub record RoundDone (q : ℕ) (w : World Heap) (o : Round) (w' : World Heap) : Type 0 where
  pub steady : Steady w w'
  pub others : (r : ℕ) → r ≢ q → w'.store.users r ≡ w.store.users r
  pub goes_on : o ≡ again → (w'.store.users q).fd ≡ (w.store.users q).fd
  pub ends :
      o ≡ leave
      → is_positive (w.store.users q).fd ≡ true
      → ((w'.store.users q).fd ≡ minus_one) × (is_open w'.history (w.store.users q).fd ≡ false)

-- The messages that the callback `f` was handed for the user at `q`, the newest first.
abbrev pub handed_after : Call → ℕ → ℕ → List (List ℕ) → List (List ℕ)
handed_after (recv_callback g arg r message) f q older =
    if g == f && r == q then message ∷ older else older
handed_after _ f q older = older

abbrev pub handed : ℕ → ℕ → History → List (List ℕ)
handed f q [] = []
handed f q ((c, r) ∷ h) = handed_after c f q (handed f q h)

module _ (os : Os) (p q : ℕ) where
  close_connection_outcome :
      (w : World Heap)
      → is_live w.history q ≡ true
      → (w.store.users q).p_server ≡ p
      → is_live w.history p ≡ true
      → Returns (close_connection os q w) (RoundDone q w)
  unfolding close_connection
  close_connection_outcome w live_q mine live_p = ground arith

  deliver_outcome :
      (payload : List ℕ) (len : ℕ) (w : World Heap)
      → is_live w.history q ≡ true
      → (w.store.users q).p_server ≡ p
      → is_live w.history p ≡ true
      → Returns (deliver os q payload len w) (RoundDone q w)
  unfolding deliver
  deliver_outcome payload len w live_q mine live_p = ground arith

  -- The history and the world after `recv` in a round from `w`.
  abbrev asked : World Heap → History
  asked w = (thread_testcancel, os.reply w.history thread_testcancel) ∷ w.history

  abbrev answer : World Heap → Reply
  answer w = os.reply (asked w) (recv (w.store.users q).fd comm_buf_size)

  abbrev answered : World Heap → World Heap
  answered w = record w { history = (recv (w.store.users q).fd comm_buf_size, answer w) ∷ asked w }

  pub recv_round_outcome :
      (w : World Heap)
      → is_live w.history q ≡ true
      → (w.store.users q).p_server ≡ p
      → is_live w.history p ≡ true
      → Returns (recv_round os q w) (RoundDone q w)
  unfolding recv_round
  recv_round_outcome w live_q mine live_p = ground (
    arith,
    close_connection_outcome (answered w) live_q mine live_p,
    deliver_outcome (answer w).payload (pos_part (answer w).value) (answered w) live_q mine live_p,
  )

  close_connection_hands :
      (f : ℕ) (fd : ℤ) (w : World Heap)
      → is_live w.history q ≡ true
      → (w.store.users q).p_server ≡ p
      → is_live w.history p ≡ true
      → Returns (close_connection os q w) (λ o w'.
        (handed f q w'.history ≡ handed f q w.history)
        × (payloads fd w'.history ≡ payloads fd w.history))
  unfolding close_connection
  close_connection_hands f fd w live_q mine live_p = ground arith

  deliver_hands :
      (fd : ℤ) (payload : List ℕ) (len : ℕ) (w : World Heap)
      → is_live w.history q ≡ true
      → (w.store.users q).p_server ≡ p
      → is_live w.history p ≡ true
      → (w.store.contexts p).p_server_recv_func ≢ 0
      → length payload ≡ len
      → len ≤ comm_buf_size
      → Returns (deliver os q payload len w) (λ o w'.
        o ≢ cancelled
        → (handed (w.store.contexts p).p_server_recv_func q w'.history
            ≡ payload ∷ handed (w.store.contexts p).p_server_recv_func q w.history)
          × (payloads fd w'.history ≡ payloads fd w.history))
  unfolding deliver
  deliver_hands fd payload len w live_q mine live_p callback measured fits = ground (
    arith,
    subst (λ n. take (n % 2 ^ 16) (received payload (w.store.users q).recv_msg) ≡ payload) measured
        (take-received payload (w.store.users q).recv_msg (omega arith)),
  )

  -- A round that is not cancelled keeps what was handed over equal to what was received.
  pub recv_round_hands :
      (w : World Heap)
      → RecvFits os
      → is_live w.history q ≡ true
      → (w.store.users q).p_server ≡ p
      → is_live w.history p ≡ true
      → (w.store.contexts p).p_server_recv_func ≢ 0
      → let f = (w.store.contexts p).p_server_recv_func in
        let fd = (w.store.users q).fd in
        Returns (recv_round os q w) (λ o w'.
          o ≢ cancelled
          → handed f q w.history ≡ payloads fd w.history
          → handed f q w'.history ≡ payloads fd w'.history)
  unfolding recv_round
  recv_round_hands w fits live_q mine live_p callback = ground (
    arith,
    close_connection_hands (w.store.contexts p).p_server_recv_func (w.store.users q).fd (answered w)
        live_q mine live_p,
    deliver_hands (w.store.users q).fd (answer w).payload (pos_part (answer w).value) (answered w)
        live_q mine live_p callback,
    fits (asked w) (w.store.users q).fd comm_buf_size (pos_part (answer w).value),
  )
