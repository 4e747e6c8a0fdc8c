-- ===== src/Nptp/Proxy/Forward.antt =====
-- application/nptp_proxy.c: what is received on one side of a mapping is sent on the other.
use libcomm.Prelude.{ℕ, ℤ, ◌≡◌, ◌≢◌, arith, is_negative, true, false, List, ◌∷◌, some, take}
use libcomm.Os.{World, Os, send}
use libcomm.Memory.{is_live}
use libcomm.Zoom.{zoom}
use libcomm.TcpClient.Api.{client_send}
use libcomm.TcpServer.Api.{server_send}
use libcomm.Nptp.{State}
use libcomm.Nptp.Proxy.{on_tcp_recv, on_ipc_recv}

-- A mapping at `q` with a client of its pipe and a user of its TCP port, both with a socket.
pub record IsLinked (q : ℕ) (w : World State) : Type 0 where
  pub live : is_live w.history q ≡ true
  pub has_client : (w.store.mappings q).ipc_stream_handle ≢ 0
  pub client_live : is_live w.history (w.store.mappings q).ipc_stream_handle ≡ true
  pub client_open : is_negative (w.store.clients (w.store.mappings q).ipc_stream_handle).fd ≡ false
  pub has_user : (w.store.mappings q).p_tcp_user ≢ 0
  pub user_live : is_live w.history (w.store.mappings q).p_tcp_user ≡ true
  pub user_open : is_negative (w.store.servers.users (w.store.mappings q).p_tcp_user).fd ≡ false

abbrev pub after_send : Os → ℤ → List ℕ → World State → World State
after_send os fd bytes w = record w {
  history = (send fd bytes, os.reply w.history (send fd bytes)) ∷ w.history;
}

-- On a mapping with a client of its pipe and a user of its TCP port, all three allocated and both
-- with a descriptor, data of a size that is not 0 that is received from the user is sent once on
-- the descriptor of the client, data received from the pipe is sent once on that of the user, as
-- the first size bytes, and nothing else changes.
pub forwards :
    (os : Os) (q user : ℕ) (bytes : List ℕ) (size : ℕ) (w : World State)
    → IsLinked q w
    → size ≢ 0
    → (on_tcp_recv os q user bytes size w
        ≡ some (
          tt,
          after_send os
              (w.store.clients (w.store.mappings q).ipc_stream_handle).fd
              (take size bytes)
              w,
        ))
      × (on_ipc_recv os q bytes size w
          ≡ some (
            tt,
            after_send os
                (w.store.servers.users (w.store.mappings q).p_tcp_user).fd
                (take size bytes)
                w,
          ))
unfolding on_tcp_recv on_ipc_recv zoom client_send server_send
forwards os q user bytes size w l some_size = (
  ground (arith, l.live, l.has_client, l.client_live, l.client_open),
  ground (arith, l.live, l.has_user, l.user_live, l.user_open),
)
