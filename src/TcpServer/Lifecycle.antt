-- ===== src/TcpServer/Lifecycle.antt =====
-- source/comm_tcp_server.c: a server from `comm_tcpIpv4ServerInit` to `comm_tcpIpv4ServerUninit`.
use libcomm.Prelude.{get_or-replicate, ℕ, ℤ, ◌≡◌, ◌≢◌, refl, sym, ◌∙◌, arith, zero, suc, false}
use native.Mathlib.Decide.{ℕ_discrete}
use libcomm.Os.{World, Os, Family, ◌>>=◌}
use libcomm.Memory.{is_live-null, is_live, FreshBlocks, FreshSockets}
use libcomm.Returns.{Returns, Returns-bind, Returns-mono, Returns-both}
use libcomm.TcpServer.{Heap, tcp_user_num}
use libcomm.TcpServer.Api.{new_context, server_init, server_uninit}
use libcomm.TcpServer.Invariant.{slot, IsValid}
use libcomm.TcpServer.Init.{Listening, started, init_others, server_init-IsValid}
use libcomm.TcpServer.UninitAll.{Freed, server_uninit_frees}

-- What a start leaves behind: nothing, or one new server without users.
abbrev pub Fresh : World Heap → ℕ → World Heap → Type 0
Fresh w p w' =
    (p ≡ 0 → (r : ℕ) → is_live w'.history r ≡ is_live w.history r)
    × (p ≢ 0
        → IsValid p w'
          × (is_live w.history p ≡ false)
          × ((r : ℕ) → r ≢ p → is_live w'.history r ≡ is_live w.history r)
          × ((j : ℕ) → slot (w'.store.contexts p) j ≡ 0))

module _ (os : Os) (blocks : FreshBlocks os) (sockets : FreshSockets os) where
  pub init-Fresh :
      (family : Family) (port : ℕ) (n : ℤ) (acpt exit recv arg : ℕ) (w : World Heap)
      → Returns (server_init os family port n acpt exit recv arg w) (Fresh w)
  unfolding new_context
  init-Fresh family port n acpt exit recv arg w =
      Returns-both (server_init os family port n acpt exit recv arg w) _ _ (Fresh w)
        (server_init-IsValid os blocks sockets family port n acpt exit recv arg w)
        (Returns-both (server_init os family port n acpt exit recv arg w) _ _
          (λ p w'.
            (p ≢ 0
              → (is_live w.history p ≡ false)
                × Listening (new_context family port n acpt exit recv arg) p w w')
            × ((r : ℕ) → r ≢ p → is_live w'.history r ≡ is_live w.history r))
          (started os blocks sockets family port n acpt exit recv arg w)
          (init_others os blocks sockets family port n acpt exit recv arg w) (λ p w' x y. (x, y)))
        (λ p w' x y. (
          (λ z. (x.0 z).0),
          λ nz. (
            (x.1 nz).0,
            (y.0 nz).0,
            y.1,
            λ j. rw (y.0 nz).1.1 (get_or-replicate tcp_user_num j 0),
          ),
        ))

  pub uninit_restores :
      (w : World Heap) (p : ℕ) (w1 : World Heap)
      → Fresh w p w1
      → Returns
          (server_uninit os p w1)
          (λ _ w'. (r : ℕ) → is_live w'.history r ≡ is_live w.history r)
  unfolding server_uninit
  uninit_restores w zero w1 (same, _) = ground (arith, same refl)
  uninit_restores w (suc p) w1 (_, started) =
      Returns-mono (server_uninit os (suc p) w1) (λ _ w'. Freed (suc p) w1 w') _
        (server_uninit_frees os (suc p) w1 (started nz).0 nz) (λ _ w'. restored w')
    where
      nz : suc p ≢ 0
      nz z = omega (arith, z)

      restored :
          (w' : World Heap)
          → Freed (suc p) w1 w'
          → (r : ℕ) → is_live w'.history r ≡ is_live w.history r
      restored w' f zero = is_live-null w'.history ∙ sym (is_live-null w.history)
      restored w' f (suc r) = elim (ℕ_discrete (suc r) (suc p)) [
        | yes e ↦ rw e (f.0 ∙ sym (started nz).1)
        | no ne ↦
            f.2 (suc r) ne (λ j e. ground (arith, (started nz).3 j, e)) ∙ (started nz).2 (suc r) ne
      ]

  -- If malloc gives fresh blocks and socket fresh descriptors, a server that is initialized and
  -- then un-initialized meets no fault and leaves the same memory allocated as before, whether or
  -- not it could be started.
  init_uninit_frees :
      (family : Family) (port : ℕ) (max_user_num : ℤ) (acpt exit recv arg : ℕ) (w : World Heap)
      → Returns
          ((server_init os family port max_user_num acpt exit recv arg >>= server_uninit os) w)
          (λ _ w'. (r : ℕ) → is_live w'.history r ≡ is_live w.history r)
  init_uninit_frees family port n acpt exit recv arg w =
      Returns-bind (server_init os family port n acpt exit recv arg) (server_uninit os) w (Fresh w)
        _ (init-Fresh family port n acpt exit recv arg w) (uninit_restores w)
