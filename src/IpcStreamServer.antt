-- ===== src/IpcStreamServer.antt =====
-- source/comm_ipc_stream.c: the server half. Its context and its users are those of a TCP server with
-- paths in place of IP addresses, and what removes a user, sends, and counts has the same code.
pub mod Tasks
pub mod Api
pub mod Accept
pub mod Spin
pub mod Uninit
use libcomm.Prelude.{
  ℕ, suc, ◌+◌, ℤ, pos, minus_one, pos_part, is_negative, is_positive, is_zero, geb_ℤ, not, List, [],
  Option, none, some, ◌==◌, if◌then◌else◌, set, take, replicate,
}
use libcomm.Os.{
  Address, Family, SocketType, Task, Detach, Os, pure, ◌>>=◌, ◌>>◌, when, call, perform, malloc,
  socket, bind, close, unlink, thread_create, acpt_callback,
}
use libcomm.Memory.{release}
use libcomm.IpcStreamClient.{copy_path, sun_path_size, path_size, unix_address}
use libcomm.TcpServer
use libcomm.TcpServer.{Act, load_context, save_context, save_user, free_slot, new_user}

abbrev pub Context : Type 0
Context = TcpServer.Context

-- `tIpcUser`, whose `fileName` is the path of its address.
abbrev pub User : Type 0
User = TcpServer.User

-- IPC_USER_NUM.
abbrev pub ipc_user_num : ℕ
ipc_user_num = 32

module _ (os : Os) where
  -- unlink, socket and bind: 0, or -1 with nothing kept open.
  unfoldable pub init_server : ℕ → Act ℤ
  init_server p = do
    c ← load_context p
    perform os (unlink c.local_addr.path)
    s ← call os (socket Family.unix SocketType.stream)
    if is_negative s.value then pure minus_one else (do
      copy_path sun_path_size c.local_addr.path
      b ← call os (bind s.value c.local_addr)
      if is_negative b.value
          then (do perform os (close s.value); pure minus_one)
          else (do save_context p (record c { fd = s.value }); pure (pos 0)))

  unfoldable pub uninit_server : ℕ → Act (Unit {0})
  uninit_server p = do
    c ← load_context p
    when (is_positive c.fd)
        (do perform os (close c.fd); save_context p (record c { fd = minus_one }))
    perform os (unlink c.local_addr.path)

  -- The body of the loop of `_ipcStreamAcceptClient` at the free slot `i`.
  unfoldable pub fill_slot : ℕ → List ℕ → ℤ → ℕ → Act ℕ
  fill_slot p file_name fd i = do
    m ← call os malloc
    if m.pointer == 0 then pure 0 else (do
      let q = m.pointer
      let u : User = new_user p (unix_address file_name) fd
      copy_path path_size file_name
      save_user q u
      t ← call os (thread_create Detach.detached (Task.ipc_recv_task q))
      if not (is_zero t.value) then (do release os q; pure 0) else (do
        save_user q (record u { thread = t.pointer })
        c ← load_context p
        when (not (c.p_server_acpt_func == 0))
            (perform os (acpt_callback c.p_server_acpt_func c.p_server_arg q))
        save_context p (record c { p_user = set c.p_user i q; user_num = suc c.user_num })
        pure q))

  -- What follows the search of the table: NULL if "user memory was exhausted".
  unfoldable pub take_slot : ℕ → List ℕ → ℤ → Option ℕ → Act ℕ
  take_slot p file_name fd none = pure 0
  take_slot p file_name fd (some i) = fill_slot p file_name fd i

  -- A pointer to the new user, or NULL.
  unfoldable pub accept_client : ℕ → List ℕ → ℤ → Act ℕ
  accept_client p file_name fd = do
    c ← load_context p
    if geb_ℤ c.user_num c.max_user_num
        then pure 0
        else take_slot p file_name fd (free_slot (pos_part c.max_user_num) c.p_user)

  -- `_ipcStreamDisconnectClient`.
  abbrev pub disconnect_client : ℕ → ℕ → Act (Unit {0})
  disconnect_client = TcpServer.disconnect_client os
