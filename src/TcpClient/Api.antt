-- ===== src/TcpClient/Api.antt =====
-- source/comm_tcp_client.c: the functions of include/comm_if.h. A handle is a pointer to a
-- context; `pData` is NULL (`none`) or points to the bytes listed; `size` is below 2 ^ 16.
use libcomm.Prelude.{
  [], ℕ, ℤ, pos, minus_one, is_negative, is_zero, true, false, not, List, Option, none, some, take,
  ◌==◌, if◌then◌else◌,
}
use libcomm.Os.{
  Os, Address, Family, Detach, Task, pure, ◌>>=◌, ◌>>◌, when, call, perform, malloc, connect, send,
  thread_create, thread_cancel,
}
use libcomm.Memory.{release}
use libcomm.TcpClient.{Act, load, save, new_context, init_client, uninit_client}

module _ (os : Os) where
  -- A handle, or 0.
  unfoldable pub client_init : Family → ℕ → ℕ → ℕ → ℕ → Act ℕ
  client_init family port recv_func exit_func arg = do
    m ← call os malloc
    if m.pointer == 0 then pure 0 else (do
      let p = m.pointer
      save p (new_context family port recv_func exit_func arg)
      e ← init_client os family p
      if not (is_zero e) then (do release os p; pure 0) else pure p)

  unfoldable pub client_uninit : ℕ → Act (Unit {0})
  client_uninit p = when (not (p == 0)) (do
    c ← load p
    when c.running (do perform os (thread_cancel c.thread); save p (record c { running = false }))
    uninit_client os p
    release os p)

  -- The end of `comm_tcpIpv4ClientConnect`, from `running = 1`.
  unfoldable pub start_receiving : ℕ → Act ℤ
  start_receiving p = do
    c ← load p
    save p (record c { running = true })
    t ← call os (thread_create Detach.detached (Task.client_recv_task p))
    if not (is_zero t.value)
        then (do save p (record c { running = false }); pure minus_one)
        else (do save p (record c { running = true; thread = t.pointer }); pure (pos 0))

  -- `resolve` is `inet_addr` or `inet_pton`: the number of an address written as a string.
  unfoldable pub client_connect : (Family → List ℕ → ℕ) → Family → ℕ → List ℕ → ℕ → Act ℤ
  client_connect resolve family p address port = if p == 0 then pure minus_one else (do
    c ← load p
    if is_negative c.fd then pure minus_one else (do
      let remote : Address = record {
        family = family;
        host = resolve family address;
        port = port;
        path = [];
      }
      save p (record c { remote_addr = remote })
      e ← call os (connect c.fd remote)
      if is_negative e.value then pure minus_one else start_receiving p))

  unfoldable pub client_send : ℕ → Option (List ℕ) → ℕ → Act ℤ
  client_send p p_data size = if p == 0 then pure minus_one else (do
    c ← load p
    if is_negative c.fd then pure minus_one else elim p_data [
      | none ↦ pure minus_one
      | some bytes ↦
          if size == 0
          then pure minus_one
          else (do r ← call os (send c.fd (take size bytes)); pure r.value)
    ])
