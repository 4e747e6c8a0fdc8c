-- ===== src/Uart.antt =====
-- source/comm_uart.c: a serial device, with the thread that reads it. Log output is left out.
pub mod Config
pub mod Life
pub mod RecvTask
use Prim.Native.Nat.{bit_and, bit_or}
use libcomm.Prelude.{
  ℕ, zero, suc, ◌+◌, ◌-◌, ◌*◌, ◌%◌, ◌^◌, ℤ, pos, negsuc, minus_one, pos_part, is_negative,
  is_positive, is_zero, Bool, true, false, not, [], List, Option, none, some, take, replicate,
  length, set, ltb, ◌==◌, if◌then◌else◌, eq_ℤ, gtb_ℤ,
}
use libcomm.Os.{
  Os, OpenMode, Task, Detach, Termios, M, pure, fault, ◌>>=◌, ◌>>◌, when, call, perform, malloc,
  open_file, close, read, write, usleep, tcgetattr, tcsetattr, get_callback, thread_create,
  thread_cancel, thread_join, thread_testcancel, is_cancelled,
}
use libcomm.Memory.{touch, release, update}
use libcomm.Threads.{
  Round, again, leave, cancelled, Ending, exited, stopped, running, loop, received, comm_buf_size,
}

pub record Context : Type 0 where
  pub dev_name : List ℕ
  pub baud_rate : ℤ
  pub parity : ℕ
  pub wait_time : ℤ
  pub fd : ℤ
  pub p_recv_func : ℕ
  pub p_arg : ℕ
  pub thread : ℕ
  pub running : Bool
  pub recv_msg : List ℕ

abbrev pub Heap : Type 0
Heap = ℕ → Context

abbrev pub Act : Type 0 → Type 0
Act A = M Heap A

abbrev pub load : ℕ → Act Context
load p = touch p (λ w. (w.store p, w))

abbrev pub save : ℕ → Context → Act (Unit {0})
save p c = touch p (λ w. (tt, record w { store = update w.store p c }))

-- `memset` to zero, then the fields that `uart_openDev` sets; `strncpy` of at most 31 bytes.
unfoldable pub new_context : List ℕ → ℤ → ℕ → ℕ → Context
new_context dev_name fd recv_func arg = record {
  dev_name = take 31 dev_name;
  baud_rate = pos 0;
  parity = 0;
  wait_time = pos 0;
  fd = fd;
  p_recv_func = recv_func;
  p_arg = arg;
  thread = 0;
  running = false;
  recv_msg = replicate (comm_buf_size + 1) 0;
}

-- EAGAIN.
abbrev pub eagain : ℕ
eagain = 11

module _ (os : Os) where
  -- The last `pthread_testcancel` of a round.
  unfoldable pub end_round : Act Round
  end_round = do
    t ← call os thread_testcancel
    if is_cancelled t then pure cancelled else pure again

  -- The case EAGAIN, which goes on at once.
  unfoldable pub wait_again : Act Round
  wait_again = do
    t ← call os thread_testcancel
    if is_cancelled t then pure cancelled else (do perform os (usleep (5 * 1000)); end_round)

  -- The thread is to leave its loop.
  unfoldable pub stop_running : ℕ → Act Round
  stop_running p = do c ← load p; save p (record c { running = false }); end_round

  -- Past the `read` of `len` bytes. A write of the terminator past the end of the buffer is a fault.
  unfoldable pub deliver : ℕ → List ℕ → ℕ → Act Round
  deliver p payload len = do
    c ← load p
    let buffer = received payload c.recv_msg
    if ltb len (length buffer)
        then (do
          save p (record c { recv_msg = set buffer len 0 })
          when (not (c.p_recv_func == 0)) (
              perform os
                (get_callback c.p_recv_func c.p_arg (take (len % 2 ^ 16) (set buffer len 0))))
          end_round)
        else fault

  -- One round of `while ( pContext->running )`.
  unfoldable pub recv_round : ℕ → Act Round
  recv_round p = do
    c ← load p
    if c.running
        then (do
          t ← call os thread_testcancel
          if is_cancelled t then pure cancelled else (do
            r ← call os (read c.fd comm_buf_size)
            if is_negative r.value
                then (if r.pointer == eagain then wait_again else stop_running p)
                else if is_zero r.value
                then (if is_negative c.wait_time then stop_running p else end_round)
                else deliver p r.payload (pos_part r.value)))
        else pure leave

  -- What follows the loop.
  unfoldable pub end_recv : ℕ → Round → Act Ending
  end_recv p again = pure running
  end_recv p cancelled = pure stopped
  end_recv p leave = do c ← load p; save p (record c { running = false }); pure exited

  -- `_uartRecvTask`, for at most `fuel` rounds.
  unfoldable pub recv_task : ℕ → ℕ → Act Ending
  recv_task fuel p = do o ← loop (recv_round p) fuel; end_recv p o

  -- The end of `uart_openDev`, from `running = 1`.
  unfoldable pub start_receiving : ℕ → ℤ → Act ℕ
  start_receiving p fd = do
    c ← load p
    save p (record c { running = true })
    t ← call os (thread_create Detach.joinable (Task.uart_recv_task p))
    if not (is_zero t.value)
        then (do perform os (close fd); release os p; pure 0)
        else (do save p (record c { running = true; thread = t.pointer }); pure p)

  -- A handle, or 0.
  unfoldable pub open_dev : List ℕ → ℕ → ℕ → Act ℕ
  open_dev dev_name recv_func arg = do
    m ← call os malloc
    if m.pointer == 0 then pure 0 else (do
      let p = m.pointer
      f ← call os (open_file dev_name OpenMode.read_write)
      if is_negative f.value
          then pure 0
          else (do save p (new_context dev_name f.value recv_func arg); start_receiving p f.value))

  unfoldable pub close_dev : ℕ → Act (Unit {0})
  close_dev p = when (not (p == 0)) (do
    c ← load p
    perform os (thread_cancel c.thread)
    save p (record c { running = false })
    when (is_positive c.fd) (perform os (close c.fd))
    perform os (thread_join c.thread)
    release os p)

  unfoldable pub uart_send : ℕ → Option (List ℕ) → ℕ → Act ℤ
  uart_send p p_data size = if p == 0 then pure minus_one else (do
    c ← load p
    if not (is_positive c.fd) then pure minus_one else elim p_data [
      | none ↦ pure minus_one
      | some bytes ↦ if size == 0 then pure minus_one else (do
        r ← call os (write c.fd (take size bytes))
        perform os (usleep (500 * 1000))
        pure r.value)
    ])

-- B9600, B19200, B38400, B57600 and B115200, or 0.
unfoldable pub baud_rate_speed : ℤ → ℕ
baud_rate_speed n =
    if eq_ℤ n (pos 9600)
    then 13
    else if eq_ℤ n (pos 19200)
    then 14
    else if eq_ℤ n (pos 38400)
    then 15
    else if eq_ℤ n (pos 57600)
    then 4097
    else if eq_ℤ n (pos 115200)
    then 4098
    else 0

-- `x & ~mask` on 32 bits.
abbrev pub without : ℕ → ℕ → ℕ
without x mask = bit_and x (2 ^ 32 - 1 - mask)

-- CSIZE and CS8, CLOCAL | CREAD, PARENB | PARODD, CSTOPB, CRTSCTS; IGNBRK, IXON | IXOFF | IXANY.
unfoldable pub new_cflag : ℕ → ℕ → ℕ
new_cflag parity cflag =
    let eight = bit_or (without cflag 48) 48 in
    let reading = without (bit_or eight (2048 + 128)) (256 + 512) in
    without (without (bit_or reading parity) 64) (2 ^ 31)

unfoldable pub new_iflag : ℕ → ℕ
new_iflag iflag = without (without iflag 1) (1024 + 4096 + 2048)

-- What `uart_configDev` makes of the settings, where `wait_time` is at most 255.
unfoldable pub new_tty : ℕ → ℕ → ℤ → Termios → Termios
new_tty speed parity wait_time tty = record {
  c_iflag = new_iflag tty.c_iflag;
  c_oflag = 0;
  c_cflag = new_cflag parity tty.c_cflag;
  c_lflag = 0;
  vmin = if is_negative wait_time then 1 else 0;
  vtime = if is_negative wait_time then 0 else pos_part wait_time;
  ospeed = speed;
  ispeed = speed;
}

unfoldable pub config_dev : Os → ℕ → ℤ → ℕ → ℤ → Act ℤ
config_dev os p baud_rate parity wait_time = if p == 0 then pure minus_one else (do
  c ← load p
  if is_negative c.fd then pure minus_one else (do
    let speed = baud_rate_speed baud_rate
    if speed == 0 then pure minus_one else (do
      let time = if gtb_ℤ wait_time 255 then pos 255 else wait_time
      g ← call os (tcgetattr c.fd)
      if not (is_zero g.value) then pure minus_one else (do
        s ← call os (tcsetattr c.fd (new_tty speed parity time g.tty))
        if not (is_zero s.value) then pure minus_one else (do
          save p (record c { baud_rate = baud_rate; parity = parity; wait_time = time })
          pure (pos 0))))))
