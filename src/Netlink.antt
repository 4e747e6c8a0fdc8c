-- ===== src/Netlink.antt =====
-- source/comm_netlink.c: a netlink socket, with the two buffers that it sends from and receives into.
-- `msg_name` points to a variable of a function that has returned, so where a message goes is left
-- out. Log output is left out.
pub mod Init
pub mod Send
pub mod RecvTask
use libcomm.Prelude.{
  ℕ, ◌+◌, ◌%◌, ◌^◌, ℤ, pos, minus_one, pos_part, is_negative, is_positive, is_zero, Bool, true,
  false, not, [], ◌∷◌, List, Option, none, some, take, leb, length, ◌&&◌, ◌==◌, if◌then◌else◌,
}
use libcomm.Os.{
  Address, Family, SocketType, Task, Detach, Os, NlHeader, M, pure, fault, ◌>>=◌, ◌>>◌, when, call,
  perform, malloc, socket, bind, close, getpid, recvmsg, sendmsg, netlink_callback, close_callback,
  thread_create, thread_cancel, thread_join, thread_testcancel, is_cancelled,
}
use libcomm.Memory.{touch, release, update}
use libcomm.Threads.{
  Round, again, leave, cancelled, Ending, exited, stopped, running, loop, received, comm_buf_size,
}

pub record Context : Type 0 where
  pub local_addr : Address
  pub fd : ℤ
  pub p_recv_func : ℕ
  pub p_exit_func : ℕ
  pub p_arg : ℕ
  pub thread : ℕ
  pub running : Bool
  pub p_send_nl_hdr : ℕ
  pub p_recv_nl_hdr : ℕ

-- A message: its header and the bytes of its payload that are set.
pub record Message : Type 0 where
  pub header : NlHeader
  pub payload : List ℕ

-- The contexts and the messages in memory, by their pointers.
pub record Heap : Type 0 where
  pub contexts : ℕ → Context
  pub messages : ℕ → Message

abbrev pub Act : Type 0 → Type 0
Act A = M Heap A

abbrev pub load : ℕ → Act Context
load p = touch p (λ w. (w.store.contexts p, w))

abbrev pub save : ℕ → Context → Act (Unit {0})
save p c =
    touch p
      (λ w. (tt, record w { store = record w.store { contexts = update w.store.contexts p c } }))

abbrev pub load_message : ℕ → Act Message
load_message p = touch p (λ w. (w.store.messages p, w))

abbrev pub save_message : ℕ → Message → Act (Unit {0})
save_message p m =
    touch p
      (λ w. (tt, record w { store = record w.store { messages = update w.store.messages p m } }))

-- NLMSG_SPACE(COMM_BUF_SIZE), which is that of COMM_BUF_SIZE + 1 too, and the payload in it.
abbrev pub message_size : ℕ
message_size = 8208

abbrev pub payload_size : ℕ
payload_size = 8192

abbrev pub new_message : ℕ → List ℕ → Message
new_message pid payload = record {
  header = record {
    nlmsg_len = message_size;
    nlmsg_type = 0;
    nlmsg_flags = 0;
    nlmsg_seq = 0;
    nlmsg_pid = pid;
  };
  payload = payload;
}

-- `memset` to zero, then the fields that `comm_netlinkInit` sets.
unfoldable pub new_context : ℕ → ℕ → ℕ → ℕ → Context
new_context pid recv_func exit_func arg = record {
  local_addr = record { family = Family.netlink; host = pid; port = 0; path = [] };
  fd = minus_one;
  p_recv_func = recv_func;
  p_exit_func = exit_func;
  p_arg = arg;
  thread = 0;
  running = false;
  p_send_nl_hdr = 0;
  p_recv_nl_hdr = 0;
}

module _ (os : Os) where
  -- From the allocation of the buffer to receive into, where `s` is the buffer to send from.
  unfoldable pub init_receive : ℕ → ℤ → ℕ → Act ℤ
  init_receive p fd s = do
    m ← call os malloc
    if m.pointer == 0 then (do release os s; perform os (close fd); pure minus_one) else (do
      save_message m.pointer (new_message 0 [])
      c ← load p
      save p (record c { fd = fd; p_send_nl_hdr = s; p_recv_nl_hdr = m.pointer })
      pure (pos 0))

  -- From the allocation of the buffer to send from.
  unfoldable pub init_buffers : ℕ → ℤ → Act ℤ
  init_buffers p fd = do
    m ← call os malloc
    if m.pointer == 0 then (do perform os (close fd); pure minus_one) else (do
      i ← call os getpid
      save_message m.pointer (new_message i.pointer (0 ∷ []))
      init_receive p fd m.pointer)

  -- 0, or -1 with nothing kept open or allocated.
  unfoldable pub init_netlink : ℕ → Act ℤ
  init_netlink p = do
    s ← call os (socket Family.netlink SocketType.raw)
    if is_negative s.value then pure minus_one else (do
      c ← load p
      b ← call os (bind s.value c.local_addr)
      if is_negative b.value
          then (do perform os (close s.value); pure minus_one)
          else init_buffers p s.value)

  unfoldable pub uninit_netlink : ℕ → Act (Unit {0})
  uninit_netlink p = do
    c ← load p
    when (is_positive c.fd) (do perform os (close c.fd); save p (record c { fd = minus_one }))
    when (not (c.p_send_nl_hdr == 0))
        (do release os c.p_send_nl_hdr; d ← load p; save p (record d { p_send_nl_hdr = 0 }))
    when (not (c.p_recv_nl_hdr == 0))
        (do release os c.p_recv_nl_hdr; d ← load p; save p (record d { p_recv_nl_hdr = 0 }))

  -- The branch `len <= 0` of the receiving loop.
  unfoldable pub close_netlink : ℕ → ℤ → Act Round
  close_netlink p len = do
    c ← load p
    perform os (close c.fd)
    save p (record c { fd = minus_one })
    when (not (c.p_exit_func == 0)) (perform os (close_callback c.p_exit_func c.p_arg len))
    pure leave

  -- The rest of a round: the callback is given as many bytes as the header says, as an
  -- `unsigned short`, and of those the call records the ones that are set in the buffer.
  unfoldable pub deliver : ℕ → NlHeader → List ℕ → Act Round
  deliver p header payload = do
    c ← load p
    m ← load_message c.p_recv_nl_hdr
    let buffer = received payload m.payload
    save_message c.p_recv_nl_hdr (record { header = header; payload = buffer })
    t ← call os thread_testcancel
    if is_cancelled t then pure cancelled else (do
      when (not (c.p_recv_func == 0)) (
          perform os (
            netlink_callback c.p_recv_func c.p_arg (take (header.nlmsg_len % 2 ^ 16) buffer)
              (header.nlmsg_len % 2 ^ 16) header.nlmsg_flags))
      pure again)

  -- One round of `while ( pContext->running )`.
  unfoldable pub recv_round : ℕ → Act Round
  recv_round p = do
    c ← load p
    if c.running
        then (do
          t ← call os thread_testcancel
          if is_cancelled t then pure cancelled else (do
            r ← call os (recvmsg c.fd message_size)
            if is_positive r.value then deliver p r.header r.payload else close_netlink p r.value))
        else pure leave

  -- What follows the loop.
  unfoldable pub end_recv : ℕ → Round → Act Ending
  end_recv p again = pure running
  end_recv p cancelled = pure stopped
  end_recv p leave = do c ← load p; save p (record c { running = false }); pure exited

  -- `_netlinkRecvTask`, for at most `fuel` rounds.
  unfoldable pub recv_task : ℕ → ℕ → Act Ending
  recv_task fuel p = do o ← loop (recv_round p) fuel; end_recv p o

  -- The end of `comm_netlinkInit`, from `running = 1`.
  unfoldable pub start_receiving : ℕ → Act ℕ
  start_receiving p = do
    c ← load p
    save p (record c { running = true })
    t ← call os (thread_create Detach.joinable (Task.netlink_recv_task p))
    if not (is_zero t.value)
        then (do uninit_netlink p; release os p; pure 0)
        else (do save p (record c { running = true; thread = t.pointer }); pure p)

  -- A handle, or 0.
  unfoldable pub netlink_init : ℕ → ℕ → ℕ → Act ℕ
  netlink_init recv_func exit_func arg = do
    m ← call os malloc
    if m.pointer == 0 then pure 0 else (do
      let p = m.pointer
      i ← call os getpid
      save p (new_context i.pointer recv_func exit_func arg)
      e ← init_netlink p
      if not (is_zero e) then (do release os p; pure 0) else start_receiving p)

  unfoldable pub netlink_uninit : ℕ → Act (Unit {0})
  netlink_uninit p = when (not (p == 0)) (do
    c ← load p
    perform os (thread_cancel c.thread)
    save p (record c { running = false })
    uninit_netlink p
    perform os (thread_join c.thread)
    release os p)

  -- The bytes are copied without a test of the size: past the end of the buffer or of the data is
  -- a fault.
  -- `nlmsg_len` is set to the size alone.
  unfoldable pub send_to_kernel : ℕ → Option (List ℕ) → ℕ → ℕ → ℕ → ℕ → Act ℤ
  send_to_kernel p p_data size type flags seq_num = if p == 0 then pure minus_one else (do
    c ← load p
    if is_negative c.fd then pure minus_one else elim p_data [
      | none ↦ pure minus_one
      | some bytes ↦ if size == 0 then pure minus_one else (do
        m ← load_message c.p_send_nl_hdr
        let header : NlHeader = record m.header {
          nlmsg_len = size;
          nlmsg_type = type;
          nlmsg_flags = flags;
          nlmsg_seq = seq_num;
        }
        if leb size payload_size && leb size (length bytes)
            then (do
              let payload = received (take size bytes) m.payload
              save_message c.p_send_nl_hdr (record { header = header; payload = payload })
              r ← call os (sendmsg c.fd header payload)
              pure r.value)
            else fault)
    ])
