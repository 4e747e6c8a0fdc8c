-- ===== src/IpcStreamServer/Api.antt =====
-- source/comm_ipc_stream.c: the functions of include/comm_if.h for a server.
use libcomm.Prelude.{
  ℕ, ℤ, minus_one, pos_part, is_zero, true, false, not, List, Option, take, replicate, ◌==◌,
  if◌then◌else◌,
}
use libcomm.Os.{
  Os, Detach, Task, pure, ◌>>=◌, ◌>>◌, when, call, perform, malloc, thread_create, thread_cancel,
  thread_join,
}
use libcomm.Memory.{release}
use libcomm.IpcStreamClient.{unix_address}
use libcomm.TcpServer.{Act, load_context, save_context}
use libcomm.TcpServer.Api as TcpApi
use libcomm.TcpServer.Api.{disconnect_from}
use libcomm.IpcStreamServer.{Context, ipc_user_num, init_server, uninit_server}

-- `strncpy` of at most 255 bytes; IPC_USER_NUM is TCP_USER_NUM.
unfoldable pub new_context : List ℕ → ℤ → ℕ → ℕ → ℕ → ℕ → Context
new_context file_name max_user_num acpt exit recv arg = record {
  local_addr = unix_address (take 255 file_name);
  fd = minus_one;
  p_user = replicate ipc_user_num 0;
  user_num = 0;
  max_user_num = TcpApi.user_limit max_user_num;
  p_server_acpt_func = acpt;
  p_server_exit_func = exit;
  p_server_recv_func = recv;
  p_server_arg = arg;
  thread = 0;
  running = false;
}

module _ (os : Os) where
  -- The end of `comm_ipcStreamInitServer`, from `running = 1`.
  unfoldable pub start_listening : ℕ → Act ℕ
  start_listening p = do
    c ← load_context p
    save_context p (record c { running = true })
    t ← call os (thread_create Detach.joinable (Task.ipc_listen_task p))
    if not (is_zero t.value)
        then (do uninit_server os p; release os p; pure 0)
        else (do save_context p (record c { running = true; thread = t.pointer }); pure p)

  -- A handle, or 0.
  unfoldable pub server_init : List ℕ → ℤ → ℕ → ℕ → ℕ → ℕ → Act ℕ
  server_init file_name max_user_num acpt exit recv arg = do
    m ← call os malloc
    if m.pointer == 0 then pure 0 else (do
      let p = m.pointer
      save_context p (new_context file_name max_user_num acpt exit recv arg)
      e ← init_server os p
      if not (is_zero e) then (do release os p; pure 0) else start_listening p)

  -- The end of `comm_ipcStreamUninitServer`, past its loop.
  unfoldable pub free_server : ℕ → Act (Unit {0})
  free_server p = do
    uninit_server os p
    c ← load_context p
    perform os (thread_join c.thread)
    release os p

  unfoldable pub server_uninit : ℕ → Act (Unit {0})
  server_uninit p = when (not (p == 0)) (do
    c ← load_context p
    perform os (thread_cancel c.thread)
    save_context p (record c { running = false; user_num = 0 })
    disconnect_from os p (pos_part c.max_user_num) 0
    free_server p)

  -- The code of a TCP server.
  abbrev pub server_send : ℕ → Option (List ℕ) → ℕ → Act ℤ
  server_send = TcpApi.server_send os

  abbrev pub server_send_all : ℕ → Option (List ℕ) → ℕ → Act (Unit {0})
  server_send_all = TcpApi.server_send_all os

abbrev pub client_num : ℕ → Act ℕ
client_num = TcpApi.client_num
