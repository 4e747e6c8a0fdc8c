-- ===== src/Nptp/Proxy/Pipe.antt =====
-- application/nptp_proxy.c: connecting a mapping to its named pipe, and disconnecting it.
use libcomm.Prelude.{
  ℕ, ◌<◌, ◌≡◌, ◌≢◌, ◌⊎◌, inl, inr, refl, sym, subst, ap, ◌∙◌, arith, ℤ, pos, minus_one, true, false,
  length, ◌==◌, if◌then◌else◌,
}
use native.Mathlib.Decide.{ℕ_discrete}
use libcomm.Os.{World, Os, pure, ◌>>◌}
use libcomm.Memory.{is_live, update, update_self, FreshBlocks, FreshSockets}
use libcomm.Returns.{Returns, Returns-bind, Returns-mono, Returns-touch}
use libcomm.Zoom.{restore, Returns-zoom}
use libcomm.TcpClient
use libcomm.TcpClient.Open.{Restored, Opened, Shut, Unchanged, Held-Shut}
use libcomm.IpcStreamClient
use libcomm.IpcStreamClient.{sun_path_size, path_size}
use libcomm.IpcStreamClient.Open.{client_init_opens, client_uninit_outcome}
use libcomm.Nptp.{State, Act, modify, on_clients}
use libcomm.Nptp.Proxy.{
  ipc_recv_func, ipc_exit_func, client_path, server_path, connect_pipe, open_ipc, connect_ipc,
  disconnect_ipc,
}
use libcomm.Nptp.Proxy.Connect.{length-client_path-le, clients, Joined, Parted, connect_pipe-Joined}

-- What an attempt to connect leaves, with its result.
abbrev pub Tried : ℕ → World State → ℤ → World State → Type 0
Tried q w e w' =
    (is_live w'.history q ≡ true)
    × (((e ≡ minus_one) × Parted q w w') ⊎ ((e ≡ pos 0) × (h : ℕ) × Joined q h w w'))

module _ (os : Os) (blocks : FreshBlocks os) (sockets : FreshSockets os) (q : ℕ) (w : World State)
    (live : is_live w.history q ≡ true)
    (short : length (server_path (w.store.mappings q)) < sun_path_size) where
  Started : ℕ → World TcpClient.Heap → Type 0
  Started h t =
      (h ≡ 0 → Restored (clients w) t)
      × (h ≢ 0 → Opened ipc_recv_func ipc_exit_func h (clients w) t)

  stays : (h : ℕ) (t : World TcpClient.Heap) → Started h t → is_live t.history q ≡ true
  unfolding Started
  stays h t (kept, opened) = elim (ℕ_discrete h 0) [
    | yes z ↦ (kept z).0 q ∙ live
    | no nz ↦
        (opened nz).2 q (λ e. ground (arith, (opened nz).0, ap (λ r. is_live w.history r) e, live))
        ∙ live
  ]

  pub open_ipc-Tried : Returns (open_ipc os q w) (Tried q w)
  unfolding open_ipc Started
  open_ipc-Tried =
      rw (live, Returns)
        (Returns-bind (on_clients initializing) finishing w
          (λ h w'.
            (t : World TcpClient.Heap) × Started h t
            × (w' ≡ restore (λ s. s.clients) (λ t s. record s { clients = t }) w t))
          (Tried q w)
          (Returns-zoom (λ s. s.clients) (λ t s. record s { clients = t }) initializing w Started _
            (client_init_opens os blocks sockets (client_path index) ipc_recv_func ipc_exit_func q
              (clients w) (length-client_path-le index))
            (λ h t started. (t, started, refl)))
          (λ h w' (t, started, e). rw e (finished h t started)))
    where
      index : ℕ
      index = (w.store.mappings q).index

      initializing : TcpClient.Act ℕ
      initializing =
          IpcStreamClient.client_init os (client_path index) ipc_recv_func ipc_exit_func q

      finishing : ℕ → Act ℤ
      finishing h =
          if h == 0
          then (do modify q (λ m'. record m' { ipc_stream_handle = 0 }); pure minus_one)
          else (do modify q (λ m'. record m' { ipc_stream_handle = h }); connect_pipe os q h)

      after : World TcpClient.Heap → World State
      after = restore (λ s. s.clients) (λ t s. record s { clients = t }) w

      -- The handle is written to the mapping.
      noted : ℕ → World State → World State
      noted h v = record v {
        store = record v.store {
          mappings =
              update v.store.mappings q (record (v.store.mappings q) { ipc_stream_handle = h });
        };
      }

      written :
          (h : ℕ)
          → update w.store.mappings q (record (w.store.mappings q) { ipc_stream_handle = h }) q
            ≡ record (w.store.mappings q) { ipc_stream_handle = h }
      written h =
          update_self w.store.mappings q (record (w.store.mappings q) { ipc_stream_handle = h })

      finished :
          (h : ℕ) (t : World TcpClient.Heap)
          → Started h t
          → Returns (finishing h (after t)) (Tried q w)
      finished h t started = elim (ℕ_discrete h 0) [
        | yes z ↦
            rw (z, stays h t started, Returns)
              (stays h t started, inl (refl, (started.0 z, ground arith)))
        | no nz ↦
            let other : (h == 0) ≡ false = ground arith in
            let o : Opened ipc_recv_func ipc_exit_func h (clients w) t = started.1 nz in
            rw other (
              Returns-touch q (λ v. (tt, noted h v)) (λ _. connect_pipe os q h) (after t)
                (Tried q w) (stays h t started)
                (Returns-mono (connect_pipe os q h (noted h (after t))) _ _
                  (connect_pipe-Joined os q h w (noted h (after t)) nz (stays h t started)
                    (o.0, o.1, o.2, o.3, o.4, o.5, o.6) o.7
                    (ap (λ m. m.ipc_stream_handle) (written h))
                    (subst (λ m. length (server_path m) < sun_path_size) (sym (written h)) short))
                  (λ e w' (z, l, j). (l, inr (z, h, j)))))
      ]

-- What is left once a mapping is disconnected.
abbrev pub Disconnected : ℕ → World State → World State → Type 0
Disconnected q w w' =
    Unchanged (clients w) (clients w')
    × ((w'.store.mappings q).ipc_stream_handle ≡ 0)
    × ((w'.store.mappings q).pipe_connect ≡ false)

module _ (os : Os) (q : ℕ) (w : World State) (live : is_live w.history q ≡ true) where
  -- What un-initializing the client of the mapping leaves.
  Closed : World State → World State → Type 0
  Closed w1 w' = (is_live w'.history q ≡ true) × Unchanged (clients w) (clients w')

  untouched :
      (v : World TcpClient.Heap) → Returns (IpcStreamClient.client_uninit os 0 v) (λ _ v'. v' ≡ v)
  unfolding IpcStreamClient.client_uninit
  untouched v = refl

  close_client :
      (e : ℤ) (w1 : World State)
      → Tried q w e w1
      → Returns
          (on_clients (IpcStreamClient.client_uninit os (w1.store.mappings q).ipc_stream_handle) w1)
          (λ _. Closed w1)
  unfolding Closed
  close_client e w1 (l, inl (_, (same, none_held))) =
      Returns-zoom (λ s. s.clients) (λ t s. record s { clients = t })
        (IpcStreamClient.client_uninit os (w1.store.mappings q).ipc_stream_handle) w1
        (λ _ t. t ≡ clients w1) _ (rw none_held (untouched (clients w1)))
        (λ _ t e'. rw e' (l, (same.0, λ fd _. same.1 fd)))
  close_client e w1 (l, inr (_, h, (nz, held, handle))) =
      Returns-zoom (λ s. s.clients) (λ t s. record s { clients = t })
        (IpcStreamClient.client_uninit os (w1.store.mappings q).ipc_stream_handle) w1
        (λ _. Shut h (clients w1)) _ (rw handle (client_uninit_outcome os h (clients w1) nz held.1))
        (λ _ t shut. (
          shut.1 q (λ e'. ground (arith, held.0, ap (λ r. is_live w.history r) e', live)) ∙ l,
          Held-Shut (clients w) h (clients w1) t held shut,
        ))

  pub disconnect_ipc-Disconnected :
      (e : ℤ) (w1 : World State)
      → Tried q w e w1
      → Returns (disconnect_ipc os q w1) (λ _. Disconnected q w)
  unfolding disconnect_ipc Closed
  disconnect_ipc-Disconnected e w1 tried =
      rw (tried.0, Returns)
        (Returns-bind
          (on_clients (IpcStreamClient.client_uninit os (w1.store.mappings q).ipc_stream_handle)) _
          w1 (λ _. Closed w1) _ (close_client e w1 tried)
          (λ _ w' (l, same). rw (l, Returns) (same, ground arith, ground arith)))

module _ (os : Os) (blocks : FreshBlocks os) (sockets : FreshSockets os) (q : ℕ)
    (w : World State) where
  pub connect_ipc-Tried :
      is_live w.history q ≡ true
      → (w.store.mappings q).ipc_stream_handle ≡ 0
      → length (server_path (w.store.mappings q)) < sun_path_size
      → Returns (connect_ipc os q w) (Tried q w)
  unfolding connect_ipc
  connect_ipc-Tried live alone short =
      rw (live, alone, Returns) (open_ipc-Tried os blocks sockets q w live short)

  -- If malloc gives fresh blocks, socket fresh descriptors, and the path of the named pipe is
  -- shorter than sun_path, then connecting an allocated mapping that has no client to its pipe
  -- and disconnecting it meets no fault, whether or not there is such a pipe and it could be
  -- connected. It leaves the same memory allocated, and the same descriptors open but for 0, and
  -- the mapping has no client and is not connected.
  pub pipe_restores :
      is_live w.history q ≡ true
      → (w.store.mappings q).ipc_stream_handle ≡ 0
      → length (server_path (w.store.mappings q)) < sun_path_size
      → Returns ((connect_ipc os q >> disconnect_ipc os q) w) (λ _. Disconnected q w)
  pipe_restores live alone short =
      Returns-bind (connect_ipc os q) (λ _. disconnect_ipc os q) w (Tried q w) _
        (connect_ipc-Tried live alone short) (disconnect_ipc-Disconnected os q w live)
