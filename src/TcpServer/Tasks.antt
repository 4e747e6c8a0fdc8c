-- ===== src/TcpServer/Tasks.antt =====
-- source/comm_tcp_server.c: the thread functions. A thread ends when its loop does, or at a
-- cancellation point; a cancelled `recv` or `accept` counts as the `pthread_testcancel` before it.
use libcomm.Prelude.{
  ℕ, zero, suc, ◌*◌, ◌%◌, ◌^◌, minus_one, pos_part, is_negative, is_positive, false, not, List,
  take, ◌==◌, if◌then◌else◌,
}
use libcomm.Os.{
  Os, pure, ◌>>=◌, ◌>>◌, when, call, perform, recv, listen, accept, close, thread_testcancel,
  exit_callback, recv_callback, is_cancelled,
}
pub use libcomm.Threads.{
  Round, again, leave, cancelled, Ending, exited, stopped, running, proceed, received,
}
use libcomm.TcpServer.{
  Act, load_context, save_context, load_user, save_user, comm_buf_size, tcp_user_num, accept_client,
  disconnect_client,
}

module _ (os : Os) where
  -- The branch `len <= 0` of the receiving loop.
  unfoldable pub close_connection : ℕ → Act Round
  close_connection q = do
    u ← load_user q
    perform os (close u.fd)
    save_user q (record u { fd = minus_one })
    c ← load_context u.p_server
    when (not (c.p_server_exit_func == 0))
        (perform os (exit_callback c.p_server_exit_func c.p_server_arg q))
    pure leave

  -- The rest of a round: the application is given the first `len` bytes of the buffer, where
  -- `len` is passed as an `unsigned short`.
  unfoldable pub deliver : ℕ → List ℕ → ℕ → Act Round
  deliver q payload len = do
    u ← load_user q
    save_user q (record u { recv_msg = received payload u.recv_msg })
    t ← call os thread_testcancel
    if is_cancelled t then pure cancelled else (do
      c ← load_context u.p_server
      when (not (c.p_server_recv_func == 0)) (
          perform os (
            recv_callback c.p_server_recv_func c.p_server_arg q
              (take (len % 2 ^ 16) (received payload u.recv_msg))))
      pure again)

  -- One round of `while (pUser->fd > 0)`.
  unfoldable pub recv_round : ℕ → Act Round
  recv_round q = do
    u ← load_user q
    if is_positive u.fd
        then (do
          t ← call os thread_testcancel
          if is_cancelled t then pure cancelled else (do
            r ← call os (recv u.fd comm_buf_size)
            if is_positive r.value
                then deliver q r.payload (pos_part r.value)
                else close_connection q))
        else pure leave

  unfoldable pub recv_loop : ℕ → ℕ → Act Round
  recv_loop zero q = pure again
  recv_loop (suc fuel) q = recv_round q >>= proceed (recv_loop fuel q)

  -- What follows the receiving loop.
  unfoldable pub end_recv : ℕ → ℕ → Round → Act Ending
  end_recv p q again = pure running
  end_recv p q cancelled = pure stopped
  end_recv p q leave = do disconnect_client os p q; pure exited

  -- `_tcpIpv4ServerRecvTask`, for at most `fuel` rounds.
  unfoldable pub recv_task : ℕ → ℕ → Act Ending
  recv_task fuel q = do u ← load_user q; o ← recv_loop fuel q; end_recv u.p_server q o

  -- One round of `while (pContext->running)`.
  unfoldable pub listen_round : ℕ → Act Round
  listen_round p = do
    c ← load_context p
    if c.running
        then (do
          t ← call os thread_testcancel
          if is_cancelled t then pure cancelled else (do
            r ← call os (accept c.fd)
            if is_negative r.value then pure leave else (do
              t' ← call os thread_testcancel
              if is_cancelled t' then pure cancelled else (do
                q ← accept_client os p r.source r.value
                when (q == 0) (perform os (close r.value))
                pure again))))
        else pure leave

  unfoldable pub listen_loop : ℕ → ℕ → Act Round
  listen_loop zero p = pure again
  listen_loop (suc fuel) p = listen_round p >>= proceed (listen_loop fuel p)

  -- What follows the listening loop.
  unfoldable pub end_listen : ℕ → Round → Act Ending
  end_listen p again = pure running
  end_listen p cancelled = pure stopped
  end_listen p leave = do
    c ← load_context p
    save_context p (record c { running = false })
    pure exited

  -- `_tcpIpv4ServerListenTask`, for at most `fuel` rounds.
  unfoldable pub listen_task : ℕ → ℕ → Act Ending
  listen_task fuel p = do
    c ← load_context p
    l ← call os (listen c.fd (tcp_user_num * 2))
    if is_negative l.value
        then (do perform os (close c.fd); save_context p (record c { fd = minus_one }); pure exited)
        else (do o ← listen_loop fuel p; end_listen p o)
