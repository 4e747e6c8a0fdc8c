-- ===== src/Datagram.antt =====
-- What source/comm_udp.c, source/comm_ipc_dgram.c and source/comm_raw.c have in common: a context
-- with a socket, a thread that receives if there is a callback, and a call that receives if there
-- is none. What differs between the three is a `Kind`. Log output is left out.
pub mod Laws
pub mod Life
pub mod Init
pub mod Receive
pub mod RecvTask
pub mod Poll
use libcomm.Prelude.{
  ℕ, zero, suc, ◌+◌, ◌%◌, ◌^◌, ℤ, minus_one, pos_part, is_negative, is_zero, Bool, true, false, not,
  List, Option, none, some, take, replicate, ◌==◌, if◌then◌else◌,
}
use libcomm.Os.{
  Address, Task, Detach, Os, M, pure, ◌>>=◌, ◌>>◌, when, call, perform, malloc, recvfrom,
  datagram_callback, thread_create, thread_cancel, thread_join, thread_testcancel, is_cancelled,
}
use libcomm.Memory.{touch, release, update}
use libcomm.Threads.{
  Round, again, leave, cancelled, Ending, exited, stopped, running, loop, received, comm_buf_size,
}

-- `place` is what the endpoint is bound to: its address or its network interface.
pub record Context (Place : Type 0) : Type 0 where
  pub place : Place
  pub fd : ℤ
  pub p_recv_func : ℕ
  pub p_arg : ℕ
  pub thread : ℕ
  pub running : Bool
  pub recv_msg : List ℕ

-- The contexts in memory, by their pointers.
abbrev pub Heap : Type 0 → Type 0
Heap Place = ℕ → Context Place

abbrev pub Act : Type 0 → Type 0 → Type 0
Act Place A = M (Heap Place) A

-- `open_socket` gives 0, or -1 with nothing kept open; `stop` is what comes before `close_socket`
-- when the endpoint is un-initialized; `fails` is the test of what `recvfrom` gives; and `sender`
-- is what the callback is told of the source.
pub record Kind (Place : Type 0) : Type 0 where
  pub open_socket : ℕ → Act Place ℤ
  pub stop : ℕ → Act Place (Unit {0})
  pub close_socket : ℕ → Act Place (Unit {0})
  pub fails : ℤ → Bool
  pub sender : Address → Option Address

module _ {Place : Type 0} where
  abbrev pub load : ℕ → Act Place (Context Place)
  load p = touch p (λ w. (w.store p, w))

  abbrev pub save : ℕ → Context Place → Act Place (Unit {0})
  save p c = touch p (λ w. (tt, record w { store = update w.store p c }))

  -- `memset` to zero, then the fields that the initialization sets.
  unfoldable pub new_context : Place → ℕ → ℕ → Context Place
  new_context place recv_func arg = record {
    place = place;
    fd = minus_one;
    p_recv_func = recv_func;
    p_arg = arg;
    thread = 0;
    running = false;
    recv_msg = replicate (comm_buf_size + 1) 0;
  }

module _ {Place : Type 0} (os : Os) (kind : Kind Place) where
  open kind use {open_socket, stop, close_socket, fails, sender}

  -- What follows a `recvfrom` that does not fail. `len` is passed as an `unsigned short`.
  unfoldable pub deliver : ℕ → List ℕ → ℕ → Address → Act Place Round
  deliver p payload len source = do
    c ← load p
    save p (record c { recv_msg = received payload c.recv_msg })
    t ← call os thread_testcancel
    if is_cancelled t then pure cancelled else (do
      when (not (c.p_recv_func == 0)) (
          perform os (
            datagram_callback c.p_recv_func c.p_arg
              (take (len % 2 ^ 16) (received payload c.recv_msg)) (sender source)))
      pure again)

  -- One round of `while ( pContext->running )`.
  unfoldable pub recv_round : ℕ → Act Place Round
  recv_round p = do
    c ← load p
    if c.running
        then (do
          t ← call os thread_testcancel
          if is_cancelled t then pure cancelled else (do
            r ← call os (recvfrom c.fd comm_buf_size)
            if fails r.value then pure leave else deliver p r.payload (pos_part r.value) r.source))
        else pure leave

  unfoldable pub recv_loop : ℕ → ℕ → Act Place Round
  recv_loop fuel p = loop (recv_round p) fuel

  -- What follows the receiving loop.
  unfoldable pub end_recv : ℕ → Round → Act Place Ending
  end_recv p again = pure running
  end_recv p cancelled = pure stopped
  end_recv p leave = do c ← load p; save p (record c { running = false }); pure exited

  -- The thread function, for at most `fuel` rounds.
  unfoldable pub recv_task : ℕ → ℕ → Act Place Ending
  recv_task fuel p = do o ← recv_loop fuel p; end_recv p o

  -- The end of the initialization, past the socket. There is no thread if there is no callback.
  unfoldable pub start_receiving : ℕ → Act Place ℕ
  start_receiving p = do
    c ← load p
    if c.p_recv_func == 0 then pure p else (do
      save p (record c { running = true })
      t ← call os (thread_create Detach.joinable (Task.datagram_recv_task p))
      if not (is_zero t.value)
          then (do close_socket p; release os p; pure 0)
          else (do save p (record c { running = true; thread = t.pointer }); pure p))

  -- A handle, or 0.
  unfoldable pub init : Place → ℕ → ℕ → Act Place ℕ
  init place recv_func arg = do
    m ← call os malloc
    if m.pointer == 0 then pure 0 else (do
      let p = m.pointer
      save p (new_context place recv_func arg)
      e ← open_socket p
      if not (is_zero e) then (do release os p; pure 0) else start_receiving p)

  -- The end of the un-initialization, past the socket.
  unfoldable pub free_endpoint : ℕ → Act Place (Unit {0})
  free_endpoint p = do
    c ← load p
    when (not (c.p_recv_func == 0)) (perform os (thread_join c.thread))
    release os p

  -- The start of the un-initialization, to `running = 0`.
  unfoldable pub cancel_receiving : ℕ → Act Place (Unit {0})
  cancel_receiving p = do
    c ← load p
    when (not (c.p_recv_func == 0)) (perform os (thread_cancel c.thread))
    save p (record c { running = false })

  unfoldable pub uninit : ℕ → Act Place (Unit {0})
  uninit p = when (not (p == 0)) (do cancel_receiving p; stop p; close_socket p; free_endpoint p)

  -- The receiving call: its result, and what it leaves in the buffer `pData` (`none` for NULL).
  unfoldable pub receive : ℕ → Option (List ℕ) → ℕ → Act Place (ℤ × Option (List ℕ))
  receive p p_data size = if p == 0 then pure (minus_one, p_data) else (do
    c ← load p
    if is_negative c.fd
        then pure (minus_one, p_data)
        else if not (c.p_recv_func == 0)
        then pure (minus_one, p_data)
        else elim p_data [
          | none ↦ pure (minus_one, none)
          | some buffer ↦ if size == 0 then pure (minus_one, some buffer) else (do
            r ← call os (recvfrom c.fd size)
            pure (r.value, some (if fails r.value then buffer else received r.payload buffer)))
        ])
