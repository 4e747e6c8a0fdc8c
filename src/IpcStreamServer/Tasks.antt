-- ===== src/IpcStreamServer/Tasks.antt =====
-- source/comm_ipc_stream.c: the thread functions of a server. The receiving thread goes on when
-- `recv` gives 0, unlike that of a TCP server.
use libcomm.Prelude.{
  ℕ, ◌*◌, minus_one, pos_part, is_negative, is_positive, false, ◌==◌, if◌then◌else◌,
}
use libcomm.Os.{
  Os, pure, ◌>>=◌, ◌>>◌, when, call, perform, recv, listen, accept, close, thread_testcancel,
  is_cancelled,
}
use libcomm.Threads.{
  Round, again, leave, cancelled, Ending, exited, stopped, running, loop, comm_buf_size,
}
use libcomm.TcpServer.{Act, load_context, save_context, load_user}
use libcomm.TcpServer.Tasks as TcpTasks
use libcomm.IpcStreamServer.{ipc_user_num, accept_client, disconnect_client}

module _ (os : Os) where
  -- The branch `len < 0` and the rest of a round have the code of a TCP server.
  abbrev pub close_connection : ℕ → Act Round
  close_connection = TcpTasks.close_connection os

  -- One round of `while (pUser->fd > 0)`.
  unfoldable pub recv_round : ℕ → Act Round
  recv_round q = do
    u ← load_user q
    if is_positive u.fd
        then (do
          t ← call os thread_testcancel
          if is_cancelled t then pure cancelled else (do
            r ← call os (recv u.fd comm_buf_size)
            if is_negative r.value
                then close_connection q
                else TcpTasks.deliver os q r.payload (pos_part r.value)))
        else pure leave

  -- What follows the receiving loop.
  unfoldable pub end_recv : ℕ → ℕ → Round → Act Ending
  end_recv p q again = pure running
  end_recv p q cancelled = pure stopped
  end_recv p q leave = do disconnect_client os p q; pure exited

  -- `_ipcStreamServerRecvTask`, for at most `fuel` rounds.
  unfoldable pub recv_task : ℕ → ℕ → Act Ending
  recv_task fuel q = do u ← load_user q; o ← loop (recv_round q) fuel; end_recv u.p_server q o

  -- One round of `while ( pContext->running )`.
  unfoldable pub listen_round : ℕ → Act Round
  listen_round p = do
    c ← load_context p
    if c.running
        then (do
          t ← call os thread_testcancel
          if is_cancelled t then pure cancelled else (do
            r ← call os (accept c.fd)
            if is_negative r.value then pure leave else (do
              t' ← call os thread_testcancel
              if is_cancelled t' then pure cancelled else (do
                q ← accept_client os p r.source.path r.value
                when (q == 0) (perform os (close r.value))
                pure again))))
        else pure leave

  -- What follows the listening loop.
  unfoldable pub end_listen : ℕ → Round → Act Ending
  end_listen p again = pure running
  end_listen p cancelled = pure stopped
  end_listen p leave = do
    c ← load_context p
    save_context p (record c { running = false })
    pure exited

  -- `_ipcStreamServerListenTask`, for at most `fuel` rounds.
  unfoldable pub listen_task : ℕ → ℕ → Act Ending
  listen_task fuel p = do
    c ← load_context p
    l ← call os (listen c.fd (ipc_user_num * 2))
    if is_negative l.value
        then (do perform os (close c.fd); save_context p (record c { fd = minus_one }); pure exited)
        else (do o ← loop (listen_round p) fuel; end_listen p o)
