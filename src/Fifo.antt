-- ===== src/Fifo.antt =====
-- source/comm_fifo.c: the reading and the writing end of a named pipe. The two contexts are of one
-- type, and the code that opens and closes a pipe differs in the mode alone. Log output is left out.
pub mod Life
pub mod Receive
pub mod GetTask
use libcomm.Prelude.{
  ℕ, suc, ◌+◌, ◌%◌, ◌^◌, ℤ, pos, minus_one, pos_part, is_negative, is_positive, is_zero, Bool, true,
  false, not, [], List, Option, none, some, take, replicate, ◌==◌, if◌then◌else◌,
}
use libcomm.Os.{
  Os, OpenMode, Task, Detach, M, pure, ◌>>=◌, ◌>>◌, when, call, perform, malloc, access, mkfifo,
  open_file, close, unlink, read, write, get_callback, close_callback, thread_create, thread_cancel,
  thread_join, thread_testcancel, is_cancelled,
}
use libcomm.Memory.{touch, release, update}
use libcomm.Threads.{
  Round, again, leave, cancelled, Ending, exited, stopped, running, loop, received, comm_buf_size,
}

pub record Context : Type 0 where
  pub file_name : List ℕ
  pub make : ℤ
  pub fd : ℤ
  pub p_get_func : ℕ
  pub p_close_func : ℕ
  pub p_arg : ℕ
  pub thread : ℕ
  pub running : Bool
  pub recv_msg : List ℕ

abbrev pub Heap : Type 0
Heap = ℕ → Context

abbrev pub Act : Type 0 → Type 0
Act A = M Heap A

abbrev pub load : ℕ → Act Context
load p = touch p (λ w. (w.store p, w))

abbrev pub save : ℕ → Context → Act (Unit {0})
save p c = touch p (λ w. (tt, record w { store = update w.store p c }))

-- `memset` to zero, then the fields that the initialization sets; `strncpy` of at most 255 bytes.
unfoldable pub new_context : List ℕ → ℤ → ℕ → ℕ → ℕ → Context
new_context file_name make get_func close_func arg = record {
  file_name = take 255 file_name;
  make = make;
  fd = minus_one;
  p_get_func = get_func;
  p_close_func = close_func;
  p_arg = arg;
  thread = 0;
  running = false;
  recv_msg = replicate (comm_buf_size + 1) 0;
}

module _ (os : Os) where
  -- What comes before `_OPEN`: whether the pipe is to be opened.
  unfoldable pub make_fifo : Context → Act Bool
  make_fifo c = if is_zero c.make then pure true else (do
    a ← call os (access c.file_name)
    if is_zero a.value
        then pure true
        else (do m ← call os (mkfifo c.file_name); pure (not (is_negative m.value))))

  -- 0, or -1 with nothing kept open.
  unfoldable pub open_fifo : OpenMode → ℕ → Act ℤ
  open_fifo mode p = do
    c ← load p
    made ← make_fifo c
    if not made then pure minus_one else (do
      f ← call os (open_file c.file_name mode)
      if is_negative f.value
          then pure minus_one
          else (do save p (record c { fd = f.value }); pure (pos 0)))

  unfoldable pub close_fifo : ℕ → Act (Unit {0})
  close_fifo p = do
    c ← load p
    when (is_positive c.fd) (do perform os (close c.fd); save p (record c { fd = minus_one }))
    when (not (is_zero c.make)) (perform os (unlink c.file_name))

  -- `_openFifoWrite` and `_closeFifoWrite`.
  abbrev pub open_write : ℕ → Act ℤ
  open_write = open_fifo OpenMode.write_only

  abbrev pub close_write : ℕ → Act (Unit {0})
  close_write = close_fifo

  -- The branch `len <= 0` of the reading loop.
  unfoldable pub close_reader : ℕ → ℤ → Act Round
  close_reader p len = do
    c ← load p
    perform os (close c.fd)
    save p (record c { fd = minus_one })
    when (not (c.p_close_func == 0)) (perform os (close_callback c.p_close_func c.p_arg len))
    pure leave

  -- The rest of a round. `len` is passed as an `unsigned short`.
  unfoldable pub deliver : ℕ → List ℕ → ℕ → Act Round
  deliver p payload len = do
    c ← load p
    save p (record c { recv_msg = received payload c.recv_msg })
    t ← call os thread_testcancel
    if is_cancelled t then pure cancelled else (do
      when (not (c.p_get_func == 0)) (
          perform os
            (get_callback c.p_get_func c.p_arg (take (len % 2 ^ 16) (received payload c.recv_msg))))
      pure again)

  -- One round of `while ( pContext->running )`.
  unfoldable pub get_round : ℕ → Act Round
  get_round p = do
    c ← load p
    if c.running
        then (do
          t ← call os thread_testcancel
          if is_cancelled t then pure cancelled else (do
            r ← call os (read c.fd comm_buf_size)
            if is_positive r.value
                then deliver p r.payload (pos_part r.value)
                else close_reader p r.value))
        else pure leave

  -- What follows the reading loop.
  unfoldable pub end_get : ℕ → Round → Act Ending
  end_get p again = pure running
  end_get p cancelled = pure stopped
  end_get p leave = do c ← load p; save p (record c { running = false }); pure exited

  -- `_fifoGetTask`, for at most `fuel` rounds.
  unfoldable pub get_task : ℕ → ℕ → Act Ending
  get_task fuel p = do o ← loop (get_round p) fuel; end_get p o

  -- The end of `comm_fifoReadInit`, from `running = 1`.
  unfoldable pub start_reading : ℕ → Act ℕ
  start_reading p = do
    c ← load p
    save p (record c { running = true })
    t ← call os (thread_create Detach.joinable (Task.fifo_get_task p))
    if not (is_zero t.value)
        then (do close_fifo p; release os p; pure 0)
        else (do save p (record c { running = true; thread = t.pointer }); pure p)

  -- A handle, or 0.
  unfoldable pub read_init : List ℕ → ℤ → ℕ → ℕ → ℕ → Act ℕ
  read_init file_name make get_func close_func arg = do
    m ← call os malloc
    if m.pointer == 0 then pure 0 else (do
      let p = m.pointer
      save p (new_context file_name make get_func close_func arg)
      e ← open_fifo OpenMode.read_only p
      if not (is_zero e) then (do release os p; pure 0) else start_reading p)

  unfoldable pub read_uninit : ℕ → Act (Unit {0})
  read_uninit p = when (not (p == 0)) (do
    c ← load p
    perform os (thread_cancel c.thread)
    save p (record c { running = false })
    close_fifo p
    perform os (thread_join c.thread)
    release os p)

  -- A handle, or 0.
  unfoldable pub write_init : List ℕ → ℤ → Act ℕ
  write_init file_name make = do
    m ← call os malloc
    if m.pointer == 0 then pure 0 else (do
      let p = m.pointer
      save p (new_context file_name make 0 0 0)
      e ← open_write p
      if not (is_zero e) then (do release os p; pure 0) else pure p)

  unfoldable pub write_uninit : ℕ → Act (Unit {0})
  write_uninit p = when (not (p == 0)) (do close_write p; release os p)

  unfoldable pub write_put : ℕ → Option (List ℕ) → ℕ → Act ℤ
  write_put p p_data size = if p == 0 then pure minus_one else (do
    c ← load p
    if is_negative c.fd then pure minus_one else elim p_data [
      | none ↦ pure minus_one
      | some bytes ↦
          if size == 0
          then pure minus_one
          else (do r ← call os (write c.fd (take size bytes)); pure r.value)
    ])
