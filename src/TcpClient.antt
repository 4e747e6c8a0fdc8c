-- ===== src/TcpClient.antt =====
-- source/comm_tcp_client.c: a client's state, its socket and its receiving thread.
-- The IPv4 and the IPv6 half differ in the address family alone, which is an argument here;
-- `Ipv6` instantiates it. Log output is left out: it changes none of this state.
pub mod Ipv6
pub mod Receive
pub mod RecvTask
pub mod Termination
pub mod Open
pub mod Api
use libcomm.Prelude.{
  [], ℕ, zero, suc, ◌+◌, ◌%◌, ◌^◌, ℤ, pos, minus_one, pos_part, is_negative, is_positive, is_zero,
  Bool, true, false, not, List, Option, none, some, ◌==◌, if◌then◌else◌, replicate, take,
}
use libcomm.Os.{
  Address, Family, SocketType, Task, Detach, Os, M, pure, ◌>>=◌, ◌>>◌, when, call, perform, malloc,
  socket, set_reuse_addr, bind, close, connect, recv, send, thread_create, thread_cancel,
  thread_testcancel, client_exit_callback, client_recv_callback, is_cancelled,
}
use libcomm.Memory.{touch, release, update}
use libcomm.Threads.{
  comm_buf_size, Round, again, leave, cancelled, Ending, exited, stopped, running, proceed,
  received,
}

-- A callback that is NULL is 0.
pub record Context : Type 0 where
  pub remote_addr : Address
  pub local_addr : Address
  pub fd : ℤ
  pub p_client_recv_func : ℕ
  pub p_client_exit_func : ℕ
  pub p_client_arg : ℕ
  pub thread : ℕ
  pub running : Bool
  pub recv_msg : List ℕ

-- The contexts in memory, by their pointers.
abbrev pub Heap : Type 0
Heap = ℕ → Context

abbrev pub Act : Type 0 → Type 0
Act A = M Heap A

abbrev pub load : ℕ → Act Context
load p = touch p (λ w. (w.store p, w))

abbrev pub save : ℕ → Context → Act (Unit {0})
save p c = touch p (λ w. (tt, record w { store = update w.store p c }))

-- `memset` to zero, then the fields that the initialization sets.
unfoldable pub new_context : Family → ℕ → ℕ → ℕ → ℕ → Context
new_context family port recv_func exit_func arg = record {
  remote_addr = record { family = family; host = 0; port = 0; path = [] };
  local_addr = record { family = family; host = 0; port = port; path = [] };
  fd = minus_one;
  p_client_recv_func = recv_func;
  p_client_exit_func = exit_func;
  p_client_arg = arg;
  thread = 0;
  running = false;
  recv_msg = replicate (comm_buf_size + 1) 0;
}

module _ (os : Os) where
  -- socket, setsockopt and bind: 0, or -1 with nothing kept open.
  unfoldable pub init_client : Family → ℕ → Act ℤ
  init_client family p = do
    s ← call os (socket family SocketType.stream)
    if is_negative s.value then pure minus_one else (do
      perform os (set_reuse_addr s.value)
      c ← load p
      b ← call os (bind s.value c.local_addr)
      if is_negative b.value
          then (do perform os (close s.value); pure minus_one)
          else (do save p (record c { fd = s.value }); pure (pos 0)))

  unfoldable pub uninit_client : ℕ → Act (Unit {0})
  uninit_client p = do
    c ← load p
    when (is_positive c.fd) (do perform os (close c.fd); save p (record c { fd = minus_one }))

  -- The branch `len <= 0` of the receiving loop.
  unfoldable pub close_connection : ℕ → ℤ → Act Round
  close_connection p len = do
    c ← load p
    perform os (close c.fd)
    save p (record c { fd = minus_one })
    when (not (c.p_client_exit_func == 0))
        (perform os (client_exit_callback c.p_client_exit_func c.p_client_arg len))
    pure leave

  -- The rest of a round: the application is given the first `len` bytes of the buffer, where
  -- `len` is passed as an `unsigned short`.
  unfoldable pub deliver : ℕ → List ℕ → ℕ → Act Round
  deliver p payload len = do
    c ← load p
    save p (record c { recv_msg = received payload c.recv_msg })
    t ← call os thread_testcancel
    if is_cancelled t then pure cancelled else (do
      when (not (c.p_client_recv_func == 0)) (
          perform os (
            client_recv_callback c.p_client_recv_func c.p_client_arg
              (take (len % 2 ^ 16) (received payload c.recv_msg))))
      pure again)

  -- One round of `while ( pContext->running )`.
  unfoldable pub recv_round : ℕ → Act Round
  recv_round p = do
    c ← load p
    if c.running
        then (do
          t ← call os thread_testcancel
          if is_cancelled t then pure cancelled else (do
            r ← call os (recv c.fd comm_buf_size)
            if is_positive r.value
                then deliver p r.payload (pos_part r.value)
                else close_connection p r.value))
        else pure leave

  unfoldable pub recv_loop : ℕ → ℕ → Act Round
  recv_loop zero p = pure again
  recv_loop (suc fuel) p = recv_round p >>= proceed (recv_loop fuel p)

  -- What follows the receiving loop.
  unfoldable pub end_recv : ℕ → Round → Act Ending
  end_recv p again = pure running
  end_recv p cancelled = pure stopped
  end_recv p leave = do c ← load p; save p (record c { running = false }); pure exited

  -- `_tcpIpv4ClientRecvTask`, for at most `fuel` rounds.
  unfoldable pub recv_task : ℕ → ℕ → Act Ending
  recv_task fuel p = do o ← recv_loop fuel p; end_recv p o
