-- ===== src/TcpServer/Apart.antt =====
-- source/comm_tcp_server.c: un-initializing one server leaves the other servers as they are.
use libcomm.Prelude.{
  ℕ, zero, suc, ◌≡◌, ◌≢◌, refl, sym, ap, subst, ◌∙◌, arith, false, not, pos_part, is_positive,
  get_or, ◌==◌, minus_one,
}
use libcomm.Os.{World, Os, ◌>>=◌, ◌>>◌, when, perform, close, thread_cancel, thread_join}
use libcomm.Memory.{is_live, update, release}
use libcomm.Returns.{Returns, Returns-mono}
use libcomm.Kept.{Kept, Kept-bind, Kept-when, Kept-touch, Returns-all-Kept}
use libcomm.TcpServer.{
  Context, Heap, Act, load_context, save_context, remove_user, drop_user, disconnect_client,
  uninit_server,
}
use libcomm.TcpServer.Api.{disconnect_from, free_server, server_uninit}
use libcomm.TcpServer.Invariant.{slot, limit, IsTable, IsValid}
use libcomm.TcpServer.Table.{occupied}
use libcomm.TcpServer.UninitAll.{Freed, server_uninit_frees}

-- What the invariant of the server at `r` reads of the contexts and of the user at `u`.
abbrev seen : ℕ → ℕ → Heap → Context × ℕ
seen r u s = (s.contexts r, (s.users u).p_server)

module _ (os : Os) (p r u : ℕ) (other : r ≢ p) (v : Context × ℕ) where
  save_context-Kept : (c : Context) → Kept (seen r u) v (save_context p c)
  save_context-Kept c =
      Kept-touch (seen r u) v p _
        (λ w. ap (λ k. (k, (w.store.users u).p_server)) (away w.store.contexts))
    where
      away : (f : ℕ → Context) → update f p c r ≡ f r
      away f = ground (arith, other)

  load_context-Kept : Kept (seen r u) v (load_context p)
  load_context-Kept = Kept-touch (seen r u) v p _ (λ w. refl)

  release-Kept : (q : ℕ) → Kept (seen r u) v (release os q)
  release-Kept q w e = ground (arith, e)

  drop_user-Kept : (q : ℕ) → Kept (seen r u) v (drop_user os q)
  unfolding drop_user
  drop_user-Kept q w e = ground (arith, e, ap {B = Context × ℕ} (λ k. (w.store.contexts r, k)) same)
    where
      same :
          (update w.store.users q (record (w.store.users q) { fd = minus_one }) u).p_server
          ≡ (w.store.users u).p_server
      same = ground arith

  disconnect_client-Kept : (q : ℕ) → Kept (seen r u) v (disconnect_client os p q)
  unfolding disconnect_client
  disconnect_client-Kept q =
      Kept-when (seen r u) v (not (q == 0))
        (load_context p >>= λ c. save_context p (remove_user c q) >> drop_user os q)
        (Kept-bind (seen r u) v (load_context p)
          (λ c. save_context p (remove_user c q) >> drop_user os q) load_context-Kept
          (λ c.
            Kept-bind (seen r u) v (save_context p (remove_user c q)) (λ _. drop_user os q)
              (save_context-Kept (remove_user c q)) (λ _. drop_user-Kept q)))

  disconnect_from-Kept : (n i : ℕ) → Kept (seen r u) v (disconnect_from os p n i)
  unfolding disconnect_from
  disconnect_from-Kept zero i = λ w e. e
  disconnect_from-Kept (suc n) i =
      Kept-bind (seen r u) v (load_context p)
        (λ c. disconnect_client os p (get_or c.p_user i 0) >> disconnect_from os p n (suc i))
        load_context-Kept
        (λ c.
          Kept-bind (seen r u) v (disconnect_client os p (get_or c.p_user i 0))
            (λ _. disconnect_from os p n (suc i)) (disconnect_client-Kept (get_or c.p_user i 0))
            (λ _. disconnect_from-Kept n (suc i)))

  uninit_server-Kept : Kept (seen r u) v (uninit_server os p)
  unfolding uninit_server
  uninit_server-Kept = Kept-bind (seen r u) v (load_context p) closing load_context-Kept (λ c.
      Kept-when (seen r u) v (is_positive c.fd) (shut c) (
        Kept-bind (seen r u) v (perform os (close c.fd))
          (λ _. save_context p (record c { fd = minus_one })) (λ w e. e)
          (λ _. save_context-Kept (record c { fd = minus_one }))))
    where
      shut : Context → Act (Unit {0})
      shut c = perform os (close c.fd) >> save_context p (record c { fd = minus_one })

      closing : Context → Act (Unit {0})
      closing c = when (is_positive c.fd) (shut c)

  free_server-Kept : Kept (seen r u) v (free_server os p)
  unfolding free_server
  free_server-Kept =
      Kept-bind (seen r u) v (uninit_server os p) (λ _. load_context p >>= freeing)
        uninit_server-Kept
        (λ _. Kept-bind (seen r u) v (load_context p) freeing load_context-Kept (λ c.
          Kept-bind (seen r u) v (perform os (thread_join c.thread)) (λ _. release os p) (λ w e. e)
            (λ _. release-Kept p)))
    where
      freeing : Context → Act (Unit {0})
      freeing c = perform os (thread_join c.thread) >> release os p

  server_uninit-Kept : Kept (seen r u) v (server_uninit os p)
  unfolding server_uninit
  server_uninit-Kept = Kept-when (seen r u) v (not (p == 0)) (load_context p >>= stopping) (
      Kept-bind (seen r u) v (load_context p) stopping load_context-Kept (λ c.
        Kept-bind (seen r u) v (perform os (thread_cancel c.thread)) (λ _. saving c) (λ w e. e)
          (λ _.
            Kept-bind (seen r u) v (save_context p (record c { running = false; user_num = 0 }))
              (λ _. emptying c) (save_context-Kept (record c { running = false; user_num = 0 }))
              (λ _.
                Kept-bind (seen r u) v (disconnect_from os p (pos_part c.max_user_num) 0)
                  (λ _. free_server os p) (disconnect_from-Kept (pos_part c.max_user_num) 0)
                  (λ _. free_server-Kept)))))
    where
      emptying : Context → Act (Unit {0})
      emptying c = disconnect_from os p (pos_part c.max_user_num) 0 >> free_server os p

      saving : Context → Act (Unit {0})
      saving c = save_context p (record c { running = false; user_num = 0 }) >> emptying c

      stopping : Context → Act (Unit {0})
      stopping c = perform os (thread_cancel c.thread) >> saving c

module _ (os : Os) (p r : ℕ) (w : World Heap) where
  -- Un-initializing a valid server at p meets no fault, leaves the context of another valid
  -- server at r as it is, and keeps that server valid: its users stay allocated and point back to
  -- it. It is assumed that p is not NULL, and that no slot of either table holds the other
  -- server.
  pub server_uninit-IsValid :
      IsValid p w
      → IsValid r w
      → p ≢ 0
      → r ≢ p
      → ((i : ℕ) → slot (w.store.contexts p) i ≢ r)
      → ((j : ℕ) → slot (w.store.contexts r) j ≢ p)
      → Returns
          (server_uninit os p w)
          (λ _ w'. IsValid r w' × ((w'.store.contexts r) ≡ w.store.contexts r))
  server_uninit-IsValid v u nz other no_user no_server =
      Returns-mono (server_uninit os p w) _ _
        (Returns-all-Kept (seen r) (λ k. seen r k w.store) (server_uninit os p w)
          (λ _ w'. Freed p w w') (server_uninit_frees os p w v nz)
          (λ k. server_uninit-Kept os p r k other (seen r k w.store) w refl))
        (λ _ w' (freed, same). (still w' freed same, ap (λ k. k.0) (same 0)))
    where
      -- The two servers have no user in common.
      disjoint :
          (i j : ℕ)
          → slot (w.store.contexts r) j ≢ 0
          → slot (w.store.contexts p) i ≢ slot (w.store.contexts r) j
      disjoint i j n e = other (
          sym (u.users_mine j n)
          ∙ (ap (λ k. (w.store.users k).p_server) (sym e) ∙ v.users_mine i (λ z. n (sym e ∙ z))))

      still :
          (w' : World Heap)
          → Freed p w w'
          → ((k : ℕ) → seen r k w'.store ≡ seen r k w.store)
          → IsValid r w'
      still w' freed same = record {
        sound = record {
          alive = freed.2 r other no_user ∙ u.alive;
          table = subst (λ c. IsTable c) (sym context) u.table;
          users_live = λ i h.
              ap (is_live w'.history) (at i)
              ∙ (freed.2 (slot (w.store.contexts r) i) (no_server i) (λ j. disjoint j i (used i h))
                  ∙ u.users_live i (used i h));
          users_apart = λ i h z. u.users_apart i (used i h) (sym (at i) ∙ z);
          users_mine = λ i h.
              ap (λ k. (w'.store.users k).p_server) (at i)
              ∙ (ap (λ k. k.1) (same (slot (w.store.contexts r) i)) ∙ u.users_mine i (used i h));
        };
        counted =
            ap (λ (c : Context). c.user_num) context
            ∙ (u.counted ∙ sym (ap (λ (c : Context). occupied (limit c) c.p_user) context));
      }
        where
          context : w'.store.contexts r ≡ w.store.contexts r
          context = ap (λ k. k.0) (same 0)

          at : (i : ℕ) → slot (w'.store.contexts r) i ≡ slot (w.store.contexts r) i
          at i = ap (λ (c : Context). slot c i) context

          used : (i : ℕ) → slot (w'.store.contexts r) i ≢ 0 → slot (w.store.contexts r) i ≢ 0
          used i h z = h (at i ∙ z)
