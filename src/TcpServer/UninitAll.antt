-- ===== src/TcpServer/UninitAll.antt =====
-- source/comm_tcp_server.c: un-initializing a server frees all that it held, and nothing else.
use libcomm.Prelude.{ℕ, ◌∷◌, ◌≡◌, ◌≢◌, refl, ap, sym, subst, ◌∙◌, true, false, arith, is_positive}
use libcomm.Os.{World, Os, ◌>>=◌, thread_cancel}
use libcomm.Memory.{is_live, is_open, update}
use libcomm.Returns.{Returns, Returns-mono, Returns-bind}
use libcomm.TcpServer.{Context, Heap, Act, uninit_server}
use libcomm.TcpServer.Api.{disconnect_from, free_server, server_uninit}
use libcomm.TcpServer.Invariant.{slot, limit, IsSound, IsValid, Alike-IsSound}
use libcomm.TcpServer.Uninit.{Cleared, disconnect_from_outcome}

-- All that the server at `p` held is given back, and nothing else.
abbrev pub Freed : ℕ → World Heap → World Heap → Type 0
Freed p w w' =
    (is_live w'.history p ≡ false)
    × ((j : ℕ)
        → slot (w.store.contexts p) j ≢ 0
        → is_live w'.history (slot (w.store.contexts p) j) ≡ false)
    × ((r : ℕ)
        → r ≢ p
        → ((j : ℕ) → slot (w.store.contexts p) j ≢ r)
        → is_live w'.history r ≡ is_live w.history r)
    × (is_positive (w.store.contexts p).fd ≡ true
        → is_open w'.history (w.store.contexts p).fd ≡ false)

-- The result of freeing a server whose users are gone.
abbrev pub Emptied : ℕ → World Heap → World Heap → Type 0
Emptied p w w' =
    (is_live w'.history p ≡ false)
    × ((r : ℕ) → r ≢ p → is_live w'.history r ≡ is_live w.history r)
    × (is_positive (w.store.contexts p).fd ≡ true
        → is_open w'.history (w.store.contexts p).fd ≡ false)

module _ (os : Os) (p : ℕ) (w : World Heap) where
  -- The world once the listening thread is cancelled.
  abbrev pub stopped : World Heap
  stopped =
      let c = w.store.contexts p in
      record {
        history = (thread_cancel c.thread, os.reply w.history (thread_cancel c.thread)) ∷ w.history;
        store = record w.store {
          contexts = update w.store.contexts p (record c { running = false; user_num = 0 });
        };
      }

  -- The users are disconnected, and the server is then freed by `free`.
  pub disconnect-Freed :
      (free : ℕ → Act (Unit {0}))
      → ((w2 : World Heap)
          → is_live w2.history p ≡ true
          → Returns (free p w2) (λ _ w'. Emptied p w2 w'))
      → IsValid p w
      → Returns
          ((disconnect_from os p (limit (w.store.contexts p)) 0 >>= λ _. free p) stopped)
          (λ _ w'. Freed p w w')
  disconnect-Freed free frees v =
      Returns-bind (disconnect_from os p (limit c) 0) (λ _. free p) stopped
        (λ _ w2. Cleared p 0 stopped w2) (λ _ w'. Freed p w w')
        (disconnect_from_outcome os p (limit c) 0 stopped sound
          (omega (arith, ap (λ (k : Context). limit k) self)))
        (λ _ w2 d.
          Returns-mono (free p w2) (λ _ w'. Emptied p w2 w') (λ _ w'. Freed p w w')
            (frees w2 d.sound.alive) (λ _ w'. freed w2 w' d))
    where
      c : Context
      c = w.store.contexts p

      self : stopped.store.contexts p ≡ record c { running = false; user_num = 0 }
      self = ground arith

      at : (i : ℕ) → slot (stopped.store.contexts p) i ≡ slot c i
      at i = ap (λ (k : Context). slot k i) self

      sound : IsSound p stopped
      sound = Alike-IsSound v.sound (record {
        live = λ r. refl;
        slots = ap (λ (k : Context). k.p_user) self;
        room = ap (λ (k : Context). k.max_user_num) self;
        servers = λ r. refl;
      })

      freed : (w2 w' : World Heap) → Cleared p 0 stopped w2 → Emptied p w2 w' → Freed p w w'
      freed w2 w' d (gone, others, closed) = (
        gone,
        λ j h.
            others (slot c j) (v.users_apart j h)
            ∙ subst (λ q. is_live w2.history q ≡ false) (at j)
                (d.freed j (omega arith) (λ z. h (sym (at j) ∙ z))),
        λ r h k. others r h ∙ d.others r (λ j _ e. k j (sym (at j) ∙ e)),
        subst (λ fd. is_positive fd ≡ true → is_open w'.history fd ≡ false)
            (d.same_fd ∙ ap (λ (k : Context). k.fd) self) closed,
      )

free_server-Emptied :
    (os : Os) (p : ℕ) (w : World Heap)
    → is_live w.history p ≡ true
    → Returns (free_server os p w) (λ _ w'. Emptied p w w')
unfolding free_server uninit_server
free_server-Emptied os p w live = ground arith

-- Un-initializing a valid server at p, which is not NULL, meets no fault. It frees the server and
-- each user in its table, and no other memory; and it closes the listening socket if its number
-- is positive.
pub server_uninit_frees :
    (os : Os) (p : ℕ) (w : World Heap)
    → IsValid p w
    → p ≢ 0
    → Returns (server_uninit os p w) (λ _ w'. Freed p w w')
unfolding server_uninit
server_uninit_frees os p w v nz =
    ground (arith, v.alive, disconnect-Freed os p w (free_server os) (free_server-Emptied os p) v)
