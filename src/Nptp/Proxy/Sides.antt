-- ===== src/Nptp/Proxy/Sides.antt =====
-- application/nptp_proxy.c: what connecting a mapping and launching its server leave as it is.
use libcomm.Prelude.{
  ℕ, ◌≡◌, refl, ap, ◌∙◌, ℤ, pos, minus_one, is_zero, Bool, false, List, length, ltb, ◌==◌, not,
  if◌then◌else◌,
}
use libcomm.Os.{Os, Reply, Family, pure, fault, access, call, when, ◌>>=◌, ◌>>◌}
use libcomm.Memory.{update, update_self}
use libcomm.Kept.{Kept, Kept-bind, Kept-if, Kept-when, Kept-touch, Kept-zoom}
use libcomm.TcpServer
use libcomm.TcpClient
use libcomm.TcpServer.Api.{server_init, server_uninit}
use libcomm.IpcStreamClient
use libcomm.IpcStreamClient.{path_size, copy_path}
use libcomm.Nptp.{State, Mapping, Act, modify, load, on_clients, on_servers}
use libcomm.Nptp.Proxy.{
  client_path, server_path, connect_ipc, open_ipc, connect_pipe, disconnect_ipc, launch_tcp,
  cease_tcp, ipc_recv_func, ipc_exit_func, tcp_acpt_func, tcp_exit_func, tcp_recv_func,
}

-- What the server of the mapping at `q` is made of, with the table.
abbrev pub server_side : ℕ → State → TcpServer.Heap × List ℕ × ℕ × ℕ
server_side q s = (s.servers, s.p_mapping, s.mapping_num, (s.mappings q).tcp_server_handle)

module _ {V : Type 0} (f : State → V) (v : V) (q : ℕ) where
  Kept-modify :
      (g : Mapping → Mapping)
      → ((s : State) → f (record s { mappings = update s.mappings q (g (s.mappings q)) }) ≡ f s)
      → Kept f v (modify q g)
  Kept-modify g h = Kept-touch f v q _ (λ w. h w.store)

  Kept-load : Kept f v (load q)
  Kept-load = Kept-touch f v q _ (λ w. refl)

module _ (os : Os) (q : ℕ) (v : TcpServer.Heap × List ℕ × ℕ × ℕ) where
  client_field :
      (g : Mapping → Mapping)
      → ((m : Mapping) → (g m).tcp_server_handle ≡ m.tcp_server_handle)
      → Kept (server_side q) v (modify q g)
  client_field g same = Kept-modify (server_side q) v q g (λ s.
      ap (λ h. (s.servers, s.p_mapping, s.mapping_num, h))
        (ap (λ m. m.tcp_server_handle) (update_self s.mappings q (g (s.mappings q)))
          ∙ same (s.mappings q)))

  on_clients-Kept : {A : Type 0} (m : TcpClient.Act A) → Kept (server_side q) v (on_clients m)
  on_clients-Kept m = Kept-zoom (server_side q) v _ _ m (λ t s. refl)

  connect_pipe-Kept : (h : ℕ) → Kept (server_side q) v (connect_pipe os q h)
  unfolding connect_pipe
  connect_pipe-Kept h =
      Kept-bind (server_side q) v (load q) at (Kept-load (server_side q) v q) (λ m.
        Kept-bind (server_side q) v (copy_path path_size (server_path m)) (λ _. asked m)
          (Kept-if (server_side q) v (ltb (length (server_path m)) path_size) (pure tt) fault
            (λ w e. e) (λ w e. tt))
          (λ _.
            Kept-bind (server_side q) v (call os (access (server_path m))) (answered m) (λ w e. e)
              (λ a.
                Kept-bind (server_side q) v (when (is_zero a.value) (connected m))
                  (λ _. pure (pos 0))
                  (Kept-when (server_side q) v (is_zero a.value) (connected m) (
                    Kept-bind (server_side q) v
                      (on_clients (IpcStreamClient.client_connect os h (server_path m))) noted
                      (on_clients-Kept (IpcStreamClient.client_connect os h (server_path m)))
                      (λ e.
                        client_field (λ m'. record m' { pipe_connect = is_zero e }) (λ m'. refl))))
                  (λ _ w e. e))))
    where
      noted : ℤ → Act (Unit {0})
      noted e = modify q (λ m'. record m' { pipe_connect = is_zero e })

      connected : Mapping → Act (Unit {0})
      connected m = on_clients (IpcStreamClient.client_connect os h (server_path m)) >>= noted

      answered : Mapping → Reply → Act ℤ
      answered m a = when (is_zero a.value) (connected m) >> pure (pos 0)

      asked : Mapping → Act ℤ
      asked m = call os (access (server_path m)) >>= answered m

      at : Mapping → Act ℤ
      at m = copy_path path_size (server_path m) >> asked m

  open_ipc-Kept : Kept (server_side q) v (open_ipc os q)
  unfolding open_ipc
  open_ipc-Kept =
      Kept-bind (server_side q) v (load q) (λ m. on_clients (made m) >>= finishing)
        (Kept-load (server_side q) v q)
        (λ m.
          Kept-bind (server_side q) v (on_clients (made m)) finishing (on_clients-Kept (made m))
            (λ h.
              Kept-if (server_side q) v (h == 0) (noted 0 >> pure minus_one)
                (noted h >> connect_pipe os q h)
                (Kept-bind (server_side q) v (noted 0) (λ _. pure minus_one) (noted-Kept 0)
                  (λ _ w e. e))
                (Kept-bind (server_side q) v (noted h) (λ _. connect_pipe os q h) (noted-Kept h)
                  (λ _. connect_pipe-Kept h))))
    where
      made : Mapping → TcpClient.Act ℕ
      made m = IpcStreamClient.client_init os (client_path m.index) ipc_recv_func ipc_exit_func q

      noted : ℕ → Act (Unit {0})
      noted h = modify q (λ m'. record m' { ipc_stream_handle = h })

      noted-Kept : (h : ℕ) → Kept (server_side q) v (noted h)
      noted-Kept h = client_field (λ m'. record m' { ipc_stream_handle = h }) (λ m'. refl)

      finishing : ℕ → Act ℤ
      finishing h = if h == 0 then noted 0 >> pure minus_one else (noted h >> connect_pipe os q h)

  closed-Kept :
      (m : Mapping)
      → Kept (server_side q) v (on_clients (IpcStreamClient.client_uninit os m.ipc_stream_handle))
  closed-Kept m = on_clients-Kept (IpcStreamClient.client_uninit os m.ipc_stream_handle)

  pub connect_ipc-Kept : Kept (server_side q) v (connect_ipc os q)
  unfolding connect_ipc
  connect_ipc-Kept =
      Kept-bind (server_side q) v (load q) (λ m. dropped m >> open_ipc os q)
        (Kept-load (server_side q) v q)
        (λ m.
          Kept-bind (server_side q) v (dropped m) (λ _. open_ipc os q)
            (Kept-when (server_side q) v (not (m.ipc_stream_handle == 0)) _ (closed-Kept m))
            (λ _. open_ipc-Kept))
    where
      dropped : Mapping → Act (Unit {0})
      dropped m =
          when (not (m.ipc_stream_handle == 0))
            (on_clients (IpcStreamClient.client_uninit os m.ipc_stream_handle))

  pub disconnect_ipc-Kept : Kept (server_side q) v (disconnect_ipc os q)
  unfolding disconnect_ipc
  disconnect_ipc-Kept =
      Kept-bind (server_side q) v (load q)
        (λ m. on_clients (IpcStreamClient.client_uninit os m.ipc_stream_handle) >> cleared)
        (Kept-load (server_side q) v q)
        (λ m.
          Kept-bind (server_side q) v
            (on_clients (IpcStreamClient.client_uninit os m.ipc_stream_handle)) (λ _. cleared)
            (closed-Kept m)
            (λ _.
              client_field (λ m'. record m' { ipc_stream_handle = 0; pipe_connect = false })
                (λ m'. refl)))
    where
      cleared : Act (Unit {0})
      cleared = modify q (λ m'. record m' { ipc_stream_handle = 0; pipe_connect = false })

-- What the client of a mapping is made of, and the table.
abbrev pub client_part : Mapping → ℕ × Bool × List ℕ
client_part m = (m.ipc_stream_handle, m.pipe_connect, server_path m)

abbrev pub client_side : ℕ → State → List ℕ × ℕ × (ℕ × Bool × List ℕ)
client_side q s = (s.p_mapping, s.mapping_num, client_part (s.mappings q))

module _ (os : Os) (q : ℕ) (v : List ℕ × ℕ × (ℕ × Bool × List ℕ)) where
  server_field :
      (g : Mapping → Mapping)
      → ((m : Mapping) → client_part (g m) ≡ client_part m)
      → Kept (client_side q) v (modify q g)
  server_field g same = Kept-modify (client_side q) v q g (λ s.
      ap (λ r. (s.p_mapping, s.mapping_num, r))
        (ap client_part (update_self s.mappings q (g (s.mappings q))) ∙ same (s.mappings q)))

  on_servers-Kept : {A : Type 0} (m : TcpServer.Act A) → Kept (client_side q) v (on_servers m)
  on_servers-Kept m = Kept-zoom (client_side q) v _ _ m (λ t s. refl)

  pub launch_tcp-Kept : Kept (client_side q) v (launch_tcp os q)
  unfolding launch_tcp
  launch_tcp-Kept =
      Kept-bind (client_side q) v (load q) (λ m. on_servers (made m) >>= finishing)
        (Kept-load (client_side q) v q)
        (λ m.
          Kept-bind (client_side q) v (on_servers (made m)) finishing (on_servers-Kept (made m))
            (λ h.
              Kept-if (client_side q) v (h == 0) (noted 0 >> pure minus_one)
                (noted h >> pure (pos 0))
                (Kept-bind (client_side q) v (noted 0) (λ _. pure minus_one) (noted-Kept 0)
                  (λ _ w e. e))
                (Kept-bind (client_side q) v (noted h) (λ _. pure (pos 0)) (noted-Kept h)
                  (λ _ w e. e))))
    where
      made : Mapping → TcpServer.Act ℕ
      made m =
          server_init os Family.inet m.tcp_port (pos 1) tcp_acpt_func tcp_exit_func tcp_recv_func q

      noted : ℕ → Act (Unit {0})
      noted h = modify q (λ m'. record m' { tcp_server_handle = h })

      noted-Kept : (h : ℕ) → Kept (client_side q) v (noted h)
      noted-Kept h = server_field (λ m'. record m' { tcp_server_handle = h }) (λ m'. refl)

      finishing : ℕ → Act ℤ
      finishing h = if h == 0 then noted 0 >> pure minus_one else (noted h >> pure (pos 0))

  pub cease_tcp-Kept : Kept (client_side q) v (cease_tcp os q)
  unfolding cease_tcp
  cease_tcp-Kept =
      Kept-bind (client_side q) v (load q)
        (λ m. on_servers (server_uninit os m.tcp_server_handle) >> cleared)
        (Kept-load (client_side q) v q)
        (λ m.
          Kept-bind (client_side q) v (on_servers (server_uninit os m.tcp_server_handle))
            (λ _. cleared) (on_servers-Kept (server_uninit os m.tcp_server_handle))
            (λ _.
              server_field
                (λ m'. record m' { tcp_server_handle = 0; tcp_connect = false; p_tcp_user = 0 })
                (λ m'. refl)))
    where
      cleared : Act (Unit {0})
      cleared =
          modify q (λ m'. record m' { tcp_server_handle = 0; tcp_connect = false; p_tcp_user = 0 })
