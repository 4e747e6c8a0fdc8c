-- ===== src/TcpServer/Api.antt =====
-- source/comm_tcp_server.c: the functions of include/comm_if.h. A handle is a pointer to a
-- context; `pData` is NULL (`none`) or points to the bytes listed; `size` is below 2 ^ 16.
use libcomm.Prelude.{
  [], ℕ, zero, suc, ℤ, pos, minus_one, pos_part, is_negative, is_positive, is_zero, gtb_ℤ, true,
  false, ◌||◌, not, List, Option, none, some, take, get_or, replicate, ◌==◌, if◌then◌else◌,
}
use libcomm.Os.{
  Os, Family, Detach, Task, pure, ◌>>=◌, ◌>>◌, skip, when, call, perform, malloc, send,
  thread_create, thread_cancel, thread_join,
}
use libcomm.Memory.{release}
use libcomm.TcpServer.{
  Context, Act, load_context, save_context, load_user, tcp_user_num, init_server, uninit_server,
  disconnect_client,
}

-- "user number": 0 and what is above TCP_USER_NUM stand for TCP_USER_NUM.
unfoldable pub user_limit : ℤ → ℤ
user_limit n = if is_zero n || gtb_ℤ n tcp_user_num then pos tcp_user_num else n

-- INADDR_ANY and `in6addr_any` are the address 0.
unfoldable pub new_context : Family → ℕ → ℤ → ℕ → ℕ → ℕ → ℕ → Context
new_context family port max_user_num acpt exit recv arg = record {
  local_addr = record { family = family; host = 0; port = port; path = [] };
  fd = minus_one;
  p_user = replicate tcp_user_num 0;
  user_num = 0;
  max_user_num = user_limit max_user_num;
  p_server_acpt_func = acpt;
  p_server_exit_func = exit;
  p_server_recv_func = recv;
  p_server_arg = arg;
  thread = 0;
  running = false;
}

module _ (os : Os) where
  -- The end of `comm_tcpIpv4ServerInit`, from `running = 1`.
  unfoldable pub start_listening : ℕ → Act ℕ
  start_listening p = do
    c ← load_context p
    save_context p (record c { running = true })
    t ← call os (thread_create Detach.joinable (Task.listen_task p))
    if not (is_zero t.value)
        then (do uninit_server os p; release os p; pure 0)
        else (do save_context p (record c { running = true; thread = t.pointer }); pure p)

  -- A handle, or 0.
  unfoldable pub server_init : Family → ℕ → ℤ → ℕ → ℕ → ℕ → ℕ → Act ℕ
  server_init family port max_user_num acpt exit recv arg = do
    m ← call os malloc
    if m.pointer == 0 then pure 0 else (do
      let p = m.pointer
      save_context p (new_context family port max_user_num acpt exit recv arg)
      e ← init_server os family p
      if not (is_zero e) then (do release os p; pure 0) else start_listening p)

  -- The loop of `comm_tcpIpv4ServerUninit`, for the `n` rounds from `i` on.
  unfoldable pub disconnect_from : ℕ → ℕ → ℕ → Act (Unit {0})
  disconnect_from p zero i = skip
  disconnect_from p (suc n) i = do
    c ← load_context p
    disconnect_client os p (get_or c.p_user i 0)
    disconnect_from p n (suc i)

  -- The end of `comm_tcpIpv4ServerUninit`, past its loop.
  unfoldable pub free_server : ℕ → Act (Unit {0})
  free_server p = do
    uninit_server os p
    c ← load_context p
    perform os (thread_join c.thread)
    release os p

  unfoldable pub server_uninit : ℕ → Act (Unit {0})
  server_uninit p = when (not (p == 0)) (do
    c ← load_context p
    perform os (thread_cancel c.thread)
    save_context p (record c { running = false; user_num = 0 })
    disconnect_from p (pos_part c.max_user_num) 0
    free_server p)

  unfoldable pub server_send : ℕ → Option (List ℕ) → ℕ → Act ℤ
  server_send q p_data size = if q == 0 then pure minus_one else (do
    u ← load_user q
    if is_negative u.fd then pure minus_one else elim p_data [
      | none ↦ pure minus_one
      | some bytes ↦
          if size == 0
          then pure minus_one
          else (do r ← call os (send u.fd (take size bytes)); pure r.value)
    ])

  -- The loop of `comm_tcpIpv4ServerSendAllClient`, for the `n` rounds from `i` on.
  unfoldable pub send_from : ℕ → List ℕ → ℕ → ℕ → Act (Unit {0})
  send_from p bytes zero i = skip
  send_from p bytes (suc n) i = do
    c ← load_context p
    let q = get_or c.p_user i 0
    when (not (q == 0)) (do u ← load_user q; when (is_positive u.fd) (perform os (send u.fd bytes)))
    send_from p bytes n (suc i)

  unfoldable pub server_send_all : ℕ → Option (List ℕ) → ℕ → Act (Unit {0})
  server_send_all p p_data size = do
    c ← load_context p
    if c.user_num == 0 then skip else elim p_data [
      | none ↦ skip
      | some bytes ↦
          if size == 0 then skip else send_from p (take size bytes) (pos_part c.max_user_num) 0
    ]

unfoldable pub client_num : ℕ → Act ℕ
client_num p = do c ← load_context p; pure c.user_num
