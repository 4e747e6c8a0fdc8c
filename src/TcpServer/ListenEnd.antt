-- ===== src/TcpServer/ListenEnd.antt =====
-- source/comm_tcp_server.c: how the thread that accepts clients starts and ends.
use libcomm.Prelude.{
  ℕ, ◌≡◌, ◌≢◌, refl, ap, ◌⊎◌, inl, inr, true, false, arith, ℤ, minus_one, ◌∷◌, ◌*◌,
}
use libcomm.Os.{World, Os, Reply, close, listen, ◌>>=◌}
use libcomm.Memory.{is_live, is_open, update, FreshBlocks}
use libcomm.Returns.{Returns, Returns-bind}
use libcomm.TcpServer.{Context, User, Heap, tcp_user_num}
use libcomm.TcpServer.Tasks.{
  Round, again, leave, cancelled, Ending, exited, stopped, listen_loop, end_listen, listen_task,
}
use libcomm.TcpServer.Invariant.{Alike-IsSound, slot, IsValid, Same-IsValid}
use libcomm.TcpServer.Listen.{Holds}
use libcomm.TcpServer.ListenTask.{Covered, Kept, loop-Kept}

-- The server's table and users are as they were.
Restless-IsValid :
    {p : ℕ} {w w' : World Heap}
    → IsValid p w
    → ((r : ℕ) → is_live w'.history r ≡ is_live w.history r)
    → w'.store.users ≡ w.store.users
    → (w'.store.contexts p).p_user ≡ (w.store.contexts p).p_user
    → (w'.store.contexts p).max_user_num ≡ (w.store.contexts p).max_user_num
    → (w'.store.contexts p).user_num ≡ (w.store.contexts p).user_num
    → IsValid p w'
Restless-IsValid {p} {w} {w'} v live users slots room num = record {
  sound = Alike-IsSound v.sound (record {
    live = live;
    slots = slots;
    room = room;
    servers = λ r. ap (λ (us : ℕ → User). (us r).p_server) users;
  });
  counted = rw (num, slots, room) v.counted;
}

module _ (os : Os) (fresh : FreshBlocks os) (p : ℕ) (w : World Heap) (v : IsValid p w) where
  abbrev Listened : Ending → World Heap → Type 0
  Listened e w' = IsValid p w' × (e ≢ stopped → Covered p w w')

  end_listen-Kept :
      (o : Round) (w1 : World Heap)
      → Kept os fresh p w o w1
      → Returns (end_listen os p o w1) Listened
  unfolding end_listen
  end_listen-Kept again w1 (v1, k) = (v1, λ _. k (λ c. cc))
  end_listen-Kept cancelled w1 (v1, k) = (v1, λ h. absurd (h refl))
  end_listen-Kept leave w1 (v1, k) = ground (arith, v1.alive, ended)
    where
      c : Context
      c = record (w1.store.contexts p) { running = false }

      w2 : World Heap
      w2 = record w1 { store = record w1.store { contexts = update w1.store.contexts p c } }

      self : w2.store.contexts p ≡ c
      self = ground arith

      at : (j : ℕ) → slot (w2.store.contexts p) j ≡ slot (w1.store.contexts p) j
      at j = ap (λ (k : Context). slot k j) self

      covered :
          (fd : ℤ)
          → (is_open w.history fd ≡ true) ⊎ Holds p w1 fd
          → (is_open w.history fd ≡ true) ⊎ Holds p w2 fd
      covered fd (inl h) = inl h
      covered fd (inr (j, nz, e)) = inr (j, rw (at j) nz, rw (at j) e)

      ended : Listened exited w2
      ended = (
        Restless-IsValid v1 (λ r. refl) refl (ap (λ (k : Context). k.p_user) self)
            (ap (λ (k : Context). k.max_user_num) self) (ap (λ (k : Context). k.user_num) self),
        λ _ fd h. covered fd (k (λ c. cc) fd h),
      )

  -- If malloc gives fresh blocks, the listening thread of a valid server meets no fault and keeps
  -- the server valid, for any number of rounds and however it ends. Unless it is cancelled, a
  -- descriptor that is open afterwards was open before, or is that of a user in the table: a
  -- client that is refused has its connection closed.
  pub listen_task_outcome : (fuel : ℕ) → Returns (listen_task os fuel p w) Listened
  unfolding listen_task
  listen_task_outcome fuel = ground (arith, v.alive, looped, failed)
    where
      c : Context
      c = w.store.contexts p

      r : Reply
      r = os.reply w.history (listen c.fd (tcp_user_num * 2))

      w1 : World Heap
      w1 = record w { history = (listen c.fd (tcp_user_num * 2), r) ∷ w.history }

      looped : Returns ((listen_loop os fuel p >>= end_listen os p) w1) Listened
      looped =
          Returns-bind (listen_loop os fuel p) (end_listen os p) w1 (Kept os fresh p w) Listened
            (loop-Kept os fresh p w fuel w1 (Same-IsValid v (λ r. (refl, λ _. refl, λ _. refl)))
              (λ fd h. inl h))
            end_listen-Kept

      failed : Listened exited (record w1 {
        history = (close c.fd, os.reply w1.history (close c.fd)) ∷ w1.history;
        store = record w.store {
          contexts = update w.store.contexts p (record c { fd = minus_one });
        };
      })
      failed = (
        Restless-IsValid v (λ r. refl) refl (ground arith) (ground arith) (ground arith),
        λ _ fd h. inl (ground arith),
      )
