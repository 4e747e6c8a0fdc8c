-- ===== src/TcpServer/RecvEnd.antt =====
-- source/comm_tcp_server.c: how the receiving thread ends.
use libcomm.Prelude.{ℕ, ◌≡◌, ◌≢◌, refl, ap, sym, ◌∙◌, true, false, arith, ℤ, minus_one, is_positive}
use libcomm.Os.{World, Os, pure, ◌>>=◌}
use libcomm.Memory.{is_live, is_open, update, RecvFits}
use libcomm.Returns.{Returns, Returns-both, Returns-bind, Returns-touch}
use libcomm.TcpServer.{Context, Heap, remove_user, drop_user, disconnect_client}
use libcomm.TcpServer.Tasks.{
  Round, again, leave, cancelled, Ending, exited, recv_loop, end_recv, recv_task,
}
use libcomm.TcpServer.Invariant.{slot, IsSound, IsValid, Alike-IsSound}
use libcomm.TcpServer.Disconnect.{Dropped, disconnect_client-IsValid}
use libcomm.TcpServer.Receive.{Steady, handed, payloads}
use libcomm.TcpServer.RecvTask.{Ready, Done, recv_loop-Done}

-- The invariant speaks of nothing that a round of the thread changes.
Steady-IsValid : {p : ℕ} {w w' : World Heap} → Steady w w' → IsValid p w → IsValid p w'
Steady-IsValid {p} {w} {w'} s v = record { sound = sound; counted = rw same v.counted }
  where
    same : w'.store.contexts p ≡ w.store.contexts p
    same = ap (λ (cs : ℕ → Context). cs p) s.contexts

    sound : IsSound p w'
    sound = Alike-IsSound v.sound (record {
      live = s.live;
      slots = ap (λ (c : Context). c.p_user) same;
      room = ap (λ (c : Context). c.max_user_num) same;
      servers = s.servers;
    })

-- What disconnecting leaves alone: the messages, and the sockets if the user's is closed already.
abbrev pub Quiet : ℕ → World Heap → World Heap → Type 0
Quiet q w w' =
    ((f r : ℕ) → handed f r w'.history ≡ handed f r w.history)
    × ((fd : ℤ) → payloads fd w'.history ≡ payloads fd w.history)
    × (is_positive (w.store.users q).fd ≡ false
        → (fd : ℤ) → is_open w'.history fd ≡ is_open w.history fd)

drop_user-Quiet :
    (os : Os) (q : ℕ) (w : World Heap)
    → is_live w.history q ≡ true
    → Returns (drop_user os q w) (λ _ w'. Quiet q w w')
unfolding drop_user
drop_user-Quiet os q w live = ground arith

pub disconnect_client-Quiet :
    (os : Os) (p q : ℕ) (w : World Heap)
    → q ≢ 0
    → is_live w.history p ≡ true
    → is_live w.history q ≡ true
    → Returns (disconnect_client os p q w) (λ _ w'. Quiet q w w')
unfolding disconnect_client
disconnect_client-Quiet os p q w nz live_p live_q = ground (arith, drop_user-Quiet os q w1 live_q)
  where
    w1 : World Heap
    w1 = record w {
      store = record w.store {
        contexts = update w.store.contexts p (remove_user (w.store.contexts p) q);
      };
    }

-- The end of the thread of a user: its memory is freed, its slot is free again, its socket is
-- closed, and the application was handed what was received.
pub record Gone (p q : ℕ) (w w' : World Heap) : Type 0 where
  pub freed : is_live w'.history q ≡ false
  pub removed : (j : ℕ) → slot (w'.store.contexts p) j ≢ q
  pub closed : is_open w'.history (w.store.users q).fd ≡ false
  pub delivered :
      let f = (w.store.contexts p).p_server_recv_func in
      let fd = (w.store.users q).fd in
      handed f q w.history ≡ payloads fd w.history → handed f q w'.history ≡ payloads fd w'.history

module _ (os : Os) (fits : RecvFits os) (p q : ℕ) (w : World Heap) (v : IsValid p w)
    (ready : Ready p q w) (nz : q ≢ 0) (apart : q ≢ p)
    (connected : is_positive (w.store.users q).fd ≡ true) where
  abbrev Ended : Ending → World Heap → Type 0
  Ended e w' = IsValid p w' × (e ≡ exited → Gone p q w w')

  abbrev Disconnected : World Heap → World Heap → Type 0
  Disconnected w1 w' =
      (IsValid p w' × Dropped p q w1 w' × ((j : ℕ) → slot (w'.store.contexts p) j ≢ q))
      × Quiet q w1 w'

  end_recv_outcome :
      (o : Round) (w1 : World Heap) → Done os fits p q w o w1 → Returns (end_recv os p q o w1) Ended
  unfolding end_recv
  end_recv_outcome again w1 (d, h) = (Steady-IsValid d.steady v, λ e. cc)
  end_recv_outcome cancelled w1 (d, h) = (Steady-IsValid d.steady v, λ e. cc)
  end_recv_outcome leave w1 (d, h) =
      Returns-bind (disconnect_client os p q) (λ _. pure exited) w1 (λ _. Disconnected w1) Ended
        (Returns-both (disconnect_client os p q w1) _ (λ _. Quiet q w1) (λ _. Disconnected w1)
          (disconnect_client-IsValid os p q w1 (Steady-IsValid d.steady v) nz apart user_live)
          (disconnect_client-Quiet os p q w1 nz server_live user_live) (λ _ w' x y. (x, y)))
        (λ _ w' x. (x.0.0, λ _. gone w' x.0 x.1))
    where
      user_live : is_live w1.history q ≡ true
      user_live = d.steady.live q ∙ ready.user_live

      server_live : is_live w1.history p ≡ true
      server_live = d.steady.live p ∙ ready.server_live

      shut : ((w1.store.users q).fd ≡ minus_one) × (is_open w1.history (w.store.users q).fd ≡ false)
      shut = d.ends refl connected

      gone :
          (w' : World Heap)
          → IsValid p w' × Dropped p q w1 w' × ((j : ℕ) → slot (w'.store.contexts p) j ≢ q)
          → Quiet q w1 w'
          → Gone p q w w'
      gone w' (valid, dropped, removed) (same_handed, same_payloads, same_open) = record {
        freed = dropped.freed;
        removed = removed;
        closed = same_open (ap is_positive shut.0) (w.store.users q).fd ∙ shut.1;
        delivered =
            λ m. same_handed _ q ∙ (h (λ c. cc) m ∙ sym (same_payloads (w.store.users q).fd));
      }

  -- The receiving thread of a connected user at q of a valid server at p, where q is not NULL and
  -- not p, the server has a receive callback, and recv writes as many bytes as it says, meets no
  -- fault for any number of rounds. However it ends, the server stays valid. If it leaves its
  -- loop, the user is freed, no slot of the table holds it, its socket is closed, and the
  -- messages handed to the application are those received if they were before.
  pub recv_task_outcome : (fuel : ℕ) → Returns (recv_task os fuel q w) Ended
  unfolding recv_task
  recv_task_outcome fuel =
      Returns-touch q (λ w1. (w1.store.users q, w1))
        (λ u w2. (recv_loop os fuel q >>= end_recv os u.p_server q) w2) w Ended ready.user_live
        (rw ready.mine (
          Returns-bind (recv_loop os fuel q) (end_recv os p q) w (Done os fits p q w) Ended
            (recv_loop-Done os fits p q fuel w ready) end_recv_outcome))
