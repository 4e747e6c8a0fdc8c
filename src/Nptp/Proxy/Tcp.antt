-- ===== src/Nptp/Proxy/Tcp.antt =====
-- application/nptp_proxy.c: launching the TCP server of a mapping, and ceasing it.
use libcomm.Prelude.{
  ℕ, ◌≡◌, ◌≢◌, ◌⊎◌, inl, inr, refl, subst, ap, ◌∙◌, arith, ℤ, pos, minus_one, true, false, ◌==◌,
  if◌then◌else◌,
}
use native.Mathlib.Decide.{ℕ_discrete}
use libcomm.Os.{World, Os, Family, pure, ◌>>◌}
use libcomm.Memory.{is_live, FreshBlocks, FreshSockets}
use libcomm.Returns.{Returns, Returns-bind}
use libcomm.Zoom.{view, restore, Returns-zoom}
use libcomm.TcpServer
use libcomm.TcpServer.Api.{server_init, server_uninit}
use libcomm.TcpServer.Lifecycle.{Fresh, init-Fresh, uninit_restores}
use libcomm.Nptp.{State, Act, modify, on_servers}
use libcomm.Nptp.Proxy.{tcp_acpt_func, tcp_exit_func, tcp_recv_func, launch_tcp, cease_tcp}

-- The library's servers in the memory of the proxy.
abbrev pub servers : World State → World TcpServer.Heap
servers = view (λ s. s.servers) (λ t s. record s { servers = t })

-- What an attempt to launch leaves, with its result.
abbrev pub Launched : ℕ → World State → ℤ → World State → Type 0
Launched q w e w' =
    (is_live w'.history q ≡ true)
    × ((h : ℕ) × Fresh (servers w) h (servers w')
        × ((w'.store.mappings q).tcp_server_handle ≡ h)
        × (((h ≡ 0) × (e ≡ minus_one)) ⊎ ((h ≢ 0) × (e ≡ pos 0))))

-- What is left once the server is ceased.
abbrev pub Ceased : ℕ → World State → World State → Type 0
Ceased q w w' =
    ((r : ℕ) → is_live w'.history r ≡ is_live w.history r)
    × ((w'.store.mappings q).tcp_server_handle ≡ 0)
    × ((w'.store.mappings q).tcp_connect ≡ false)
    × ((w'.store.mappings q).p_tcp_user ≡ 0)

module _ (os : Os) (blocks : FreshBlocks os) (sockets : FreshSockets os) (q : ℕ) (w : World State)
    (live : is_live w.history q ≡ true) where
  stays : (h : ℕ) (t : World TcpServer.Heap) → Fresh (servers w) h t → is_live t.history q ≡ true
  stays h t (kept, made) = elim (ℕ_discrete h 0) [
    | yes z ↦ kept z q ∙ live
    | no nz ↦
        (made nz).2 q (λ e. ground (arith, (made nz).1, ap (λ r. is_live w.history r) e, live))
        ∙ live
  ]

  pub launch_tcp-Launched : Returns (launch_tcp os q w) (Launched q w)
  unfolding launch_tcp
  launch_tcp-Launched =
      rw (live, Returns)
        (Returns-bind (on_servers initializing) finishing w
          (λ h w'. (t : World TcpServer.Heap) × Fresh (servers w) h t × (w' ≡ after t))
          (Launched q w)
          (Returns-zoom (λ s. s.servers) (λ t s. record s { servers = t }) initializing w
            (Fresh (servers w)) _
            (init-Fresh os blocks sockets Family.inet (w.store.mappings q).tcp_port (pos 1)
              tcp_acpt_func tcp_exit_func tcp_recv_func q (servers w))
            (λ h t fresh. (t, fresh, refl)))
          (λ h w' (t, fresh, e). rw e (finished h t fresh)))
    where
      initializing : TcpServer.Act ℕ
      initializing =
          server_init os Family.inet (w.store.mappings q).tcp_port (pos 1) tcp_acpt_func
            tcp_exit_func tcp_recv_func q

      finishing : ℕ → Act ℤ
      finishing h =
          if h == 0
          then (do modify q (λ m'. record m' { tcp_server_handle = 0 }); pure minus_one)
          else (do modify q (λ m'. record m' { tcp_server_handle = h }); pure (pos 0))

      after : World TcpServer.Heap → World State
      after = restore (λ s. s.servers) (λ t s. record s { servers = t }) w

      finished :
          (h : ℕ) (t : World TcpServer.Heap)
          → Fresh (servers w) h t
          → Returns (finishing h (after t)) (Launched q w)
      finished h t fresh = elim (ℕ_discrete h 0) [
        | yes z ↦
            rw (z, stays h t fresh, Returns)
              (
                stays h t fresh,
                (0, subst (λ k. Fresh (servers w) k t) z fresh, ground arith, inl (refl, refl)),
              )
        | no nz ↦
            let other : (h == 0) ≡ false = ground arith in
            rw (other, stays h t fresh, Returns)
              (stays h t fresh, (h, fresh, ground arith, inr (nz, refl)))
      ]

  pub cease_tcp-Ceased :
      (e : ℤ) (w1 : World State) → Launched q w e w1 → Returns (cease_tcp os q w1) (λ _. Ceased q w)
  unfolding cease_tcp
  cease_tcp-Ceased e w1 (l, (h, fresh, handle, _)) =
      rw (l, Returns)
        (Returns-bind (on_servers (server_uninit os (w1.store.mappings q).tcp_server_handle)) _ w1
          (λ _ w'. (r : ℕ) → is_live w'.history r ≡ is_live w.history r) _
          (Returns-zoom (λ s. s.servers) (λ t s. record s { servers = t })
            (server_uninit os (w1.store.mappings q).tcp_server_handle) w1
            (λ _ t. (r : ℕ) → is_live t.history r ≡ is_live w.history r) _
            (rw handle (uninit_restores os blocks sockets (servers w) h (servers w1) fresh))
            (λ _ t same. same))
          (λ _ w' same.
            rw (same q ∙ live, Returns) (same, ground arith, ground arith, ground arith)))

  -- If malloc gives fresh blocks and socket fresh descriptors, launching the TCP server of an
  -- allocated mapping and ceasing it meets no fault, whether or not it could be launched. It
  -- leaves the same memory allocated, and the mapping has no server, no user and is not
  -- connected.
  tcp_restores : Returns ((launch_tcp os q >> cease_tcp os q) w) (λ _. Ceased q w)
  tcp_restores =
      Returns-bind (launch_tcp os q) (λ _. cease_tcp os q) w (Launched q w) _ launch_tcp-Launched
        cease_tcp-Ceased
