-- ===== src/Nptp/Proxy.antt =====
-- application/nptp_proxy.c: a mapping's TCP server and its client of the named pipe, and the callbacks
-- that carry data from one to the other.
pub mod Connect
pub mod Pipe
pub mod Reconnect
pub mod Sides
pub mod Life
pub mod Tcp
pub mod Overflow
pub mod Forward
use libcomm.Prelude.{
  ℕ, zero, suc, ℤ, pos, minus_one, is_zero, true, false, not, List, [], ◌∷◌, ◌++◌, some, ◌==◌,
  if◌then◌else◌,
}
use libcomm.Os.{Family, Os, pure, skip, ◌>>=◌, ◌>>◌, when, call, access}
use libcomm.IpcStreamClient
use libcomm.IpcStreamClient.{copy_path, path_size}
use libcomm.TcpServer.Api.{server_init, server_uninit, server_send}
use libcomm.Log.{unsigned_text}
use libcomm.Nptp.{Mapping, Act, on_servers, on_clients, load, modify, globals, slot}

-- The functions that are handed to the library, by number.
abbrev pub tcp_acpt_func : ℕ
tcp_acpt_func = 1

abbrev pub tcp_exit_func : ℕ
tcp_exit_func = 2

abbrev pub tcp_recv_func : ℕ
tcp_recv_func = 3

abbrev pub ipc_recv_func : ℕ
ipc_recv_func = 4

abbrev pub ipc_exit_func : ℕ
ipc_exit_func = 5

-- IPC_STREAM_FILE_PATH, "./nptp_serv_stream.sock".
abbrev pub ipc_stream_file_path : List ℕ
ipc_stream_file_path =
    b'.' ∷ b'/' ∷ b'n' ∷ b'p' ∷ b't' ∷ b'p' ∷ b'_' ∷ b's' ∷ b'e' ∷ b'r' ∷ b'v' ∷ b'_' ∷ b's' ∷ b't'
    ∷ b'r' ∷ b'e' ∷ b'a' ∷ b'm' ∷ b'.' ∷ b's' ∷ b'o' ∷ b'c' ∷ b'k' ∷ []

-- `clientPath` and `serverPath`.
abbrev pub client_path : ℕ → List ℕ
client_path index = ipc_stream_file_path ++ unsigned_text index

abbrev pub server_path : Mapping → List ℕ
server_path m = m.pipe_path ++ b'/' ∷ m.pipe_name

-- `tcpIpv4AcptFunc`, `tcpIpv4ExitFunc` and `ipcStreamExitFunc` on the mapping at `q`.
unfoldable pub on_tcp_accept : ℕ → ℕ → Act (Unit {0})
on_tcp_accept q user = modify q (λ m. record m { tcp_connect = true; p_tcp_user = user })

unfoldable pub on_tcp_exit : ℕ → ℕ → Act (Unit {0})
on_tcp_exit q user = modify q (λ m. record m { tcp_connect = false; p_tcp_user = 0 })

unfoldable pub on_ipc_exit : ℕ → ℤ → Act (Unit {0})
on_ipc_exit q code = modify q (λ m. record m { pipe_connect = false })

module _ (os : Os) where
  -- `tcpIpv4RecvFunc`: to the named pipe.
  unfoldable pub on_tcp_recv : ℕ → ℕ → List ℕ → ℕ → Act (Unit {0})
  on_tcp_recv q user bytes size = do
    m ← load q
    on_clients (IpcStreamClient.client_send os m.ipc_stream_handle (some bytes) size)
    skip

  -- `ipcStreamRecvFunc`: to the TCP client, if there is one.
  unfoldable pub on_ipc_recv : ℕ → List ℕ → ℕ → Act (Unit {0})
  on_ipc_recv q bytes size = do
    m ← load q
    when (not (m.p_tcp_user == 0))
        (do on_servers (server_send os m.p_tcp_user (some bytes) size); skip)

  unfoldable pub launch_tcp : ℕ → Act ℤ
  launch_tcp q = do
    m ← load q
    h ←
        on_servers (
          server_init os Family.inet m.tcp_port (pos 1) tcp_acpt_func tcp_exit_func tcp_recv_func q)
    if h == 0
        then (do modify q (λ m'. record m' { tcp_server_handle = 0 }); pure minus_one)
        else (do modify q (λ m'. record m' { tcp_server_handle = h }); pure (pos 0))

  unfoldable pub cease_tcp : ℕ → Act (Unit {0})
  cease_tcp q = do
    m ← load q
    on_servers (server_uninit os m.tcp_server_handle)
    modify q (λ m'. record m' { tcp_server_handle = 0; tcp_connect = false; p_tcp_user = 0 })

  -- The end of `proxy_connectIpc`, with the handle `h`: `sprintf` past the end of `serverPath` is
  -- a fault.
  unfoldable pub connect_pipe : ℕ → ℕ → Act ℤ
  connect_pipe q h = do
    m ← load q
    copy_path path_size (server_path m)
    a ← call os (access (server_path m))
    when (is_zero a.value) (do
      e ← on_clients (IpcStreamClient.client_connect os h (server_path m))
      modify q (λ m'. record m' { pipe_connect = is_zero e }))
    pure (pos 0)

  -- `proxy_connectIpc` once an earlier client is gone.
  unfoldable pub open_ipc : ℕ → Act ℤ
  open_ipc q = do
    m ← load q
    h ←
        on_clients
          (IpcStreamClient.client_init os (client_path m.index) ipc_recv_func ipc_exit_func q)
    if h == 0
        then (do modify q (λ m'. record m' { ipc_stream_handle = 0 }); pure minus_one)
        else (do modify q (λ m'. record m' { ipc_stream_handle = h }); connect_pipe q h)

  unfoldable pub connect_ipc : ℕ → Act ℤ
  connect_ipc q = do
    m ← load q
    when (not (m.ipc_stream_handle == 0))
        (on_clients (IpcStreamClient.client_uninit os m.ipc_stream_handle))
    open_ipc q

  unfoldable pub disconnect_ipc : ℕ → Act (Unit {0})
  disconnect_ipc q = do
    m ← load q
    on_clients (IpcStreamClient.client_uninit os m.ipc_stream_handle)
    modify q (λ m'. record m' { ipc_stream_handle = 0; pipe_connect = false })

  -- The loops of `proxy_init` and `proxy_uninit`, for the `n` rounds from `i` on.
  unfoldable pub init_from : ℕ → ℕ → Act ℤ
  init_from zero i = pure (pos 0)
  init_from (suc n) i = do
    s ← globals
    let rest = init_from n (suc i)
    let q = slot s i
    if q == 0 then rest else (do
      t ← launch_tcp q
      if not (is_zero t)
          then pure minus_one
          else (do e ← connect_ipc q; if not (is_zero e) then pure minus_one else rest))

  unfoldable pub proxy_init : Act ℤ
  proxy_init = do s ← globals; init_from s.mapping_num 0

  unfoldable pub uninit_from : ℕ → ℕ → Act (Unit {0})
  uninit_from zero i = skip
  uninit_from (suc n) i = do
    s ← globals
    let q = slot s i
    when (not (q == 0)) (do disconnect_ipc q; cease_tcp q)
    uninit_from n (suc i)

  unfoldable pub proxy_uninit : Act (Unit {0})
  proxy_uninit = do s ← globals; uninit_from s.mapping_num 0
