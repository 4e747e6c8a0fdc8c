-- ===== src/IpcStreamClient.antt =====
-- source/comm_ipc_stream.c: the client half. Its state is that of a TCP client with paths in place
-- of IP addresses, and its receiving thread and its send have the same code.
pub mod Open
use libcomm.Prelude.{
  ◌+◌, ℕ, ℤ, pos, minus_one, is_negative, is_positive, is_zero, false, not, List, [], Option, take,
  length, ltb, ◌==◌, if◌then◌else◌, replicate, true,
}
use libcomm.Os.{
  Address, Family, SocketType, Os, M, pure, fault, ◌>>=◌, ◌>>◌, when, call, perform, malloc, socket,
  bind, close, connect, thread_cancel, unlink,
}
use libcomm.Memory.{release}
use libcomm.Threads.{Ending, comm_buf_size}
use libcomm.TcpClient
use libcomm.TcpClient.{Act, load, save}
use libcomm.TcpClient.Api

abbrev pub Context : Type 0
Context = TcpClient.Context

abbrev pub unix_address : List ℕ → Address
unix_address path = record { family = Family.unix; host = 0; port = 0; path = path }

-- The sizes of `sun_path`, which is 108 on Linux, and of `localPath` and `remotePath`. `strcpy` past the end is a fault.
abbrev pub sun_path_size : ℕ
sun_path_size = 108

abbrev pub path_size : ℕ
path_size = 256

abbrev pub copy_path : {S : Type 0} → ℕ → List ℕ → M S (Unit {0})
copy_path size path = if ltb (length path) size then pure tt else fault

-- `memset` to zero, then the fields that the initialization sets.
unfoldable pub new_context : List ℕ → ℕ → ℕ → ℕ → TcpClient.Context
new_context file_name recv_func exit_func arg = record {
  remote_addr = unix_address [];
  local_addr = unix_address (take 255 file_name);
  fd = minus_one;
  p_client_recv_func = recv_func;
  p_client_exit_func = exit_func;
  p_client_arg = arg;
  thread = 0;
  running = false;
  recv_msg = replicate (comm_buf_size + 1) 0;
}

module _ (os : Os) where
  -- unlink, socket and bind: 0, or -1 with nothing kept open.
  unfoldable pub init_client : ℕ → Act ℤ
  init_client p = do
    c ← load p
    perform os (unlink c.local_addr.path)
    s ← call os (socket Family.unix SocketType.stream)
    if is_negative s.value then pure minus_one else (do
      copy_path sun_path_size c.local_addr.path
      b ← call os (bind s.value c.local_addr)
      if is_negative b.value
          then (do perform os (close s.value); pure minus_one)
          else (do save p (record c { fd = s.value }); pure (pos 0)))

  unfoldable pub uninit_client : ℕ → Act (Unit {0})
  uninit_client p = do
    c ← load p
    when (is_positive c.fd) (do perform os (close c.fd); save p (record c { fd = minus_one }))
    perform os (unlink c.local_addr.path)

  -- `_ipcStreamClientRecvTask`, for at most `fuel` rounds.
  abbrev pub recv_task : ℕ → ℕ → Act Ending
  recv_task = TcpClient.recv_task os

  -- A handle, or 0.
  unfoldable pub client_init : List ℕ → ℕ → ℕ → ℕ → Act ℕ
  client_init file_name recv_func exit_func arg = do
    m ← call os malloc
    if m.pointer == 0 then pure 0 else (do
      let p = m.pointer
      save p (new_context file_name recv_func exit_func arg)
      e ← init_client p
      if not (is_zero e) then (do release os p; pure 0) else pure p)

  unfoldable pub client_uninit : ℕ → Act (Unit {0})
  client_uninit p = when (not (p == 0)) (do
    c ← load p
    when c.running (do perform os (thread_cancel c.thread); save p (record c { running = false }))
    uninit_client p
    release os p)

  unfoldable pub client_connect : ℕ → List ℕ → Act ℤ
  client_connect p file_name = if p == 0 then pure minus_one else (do
    c ← load p
    if is_negative c.fd then pure minus_one else (do
      copy_path path_size file_name
      save p (record c { remote_addr = unix_address file_name })
      copy_path sun_path_size file_name
      e ← call os (connect c.fd (unix_address file_name))
      if is_negative e.value then pure minus_one else Api.start_receiving os p))

  abbrev pub client_send : ℕ → Option (List ℕ) → ℕ → Act ℤ
  client_send = Api.client_send os
