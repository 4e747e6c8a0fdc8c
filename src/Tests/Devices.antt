-- ===== src/Tests/Devices.antt =====
-- A named pipe that is read until its writer is gone, and a serial device.
use libcomm.Prelude.{
  ℕ, pos, minus_one, ◌≢◌, ◌≡◌, refl, true, false, arith, [], ◌∷◌, List, Option, none, some,
}
use libcomm.Os.{World, History, Os, Call, Reply}
use libcomm.Memory.{is_live, is_open, FreshBlocks, FreshFiles}
use libcomm.Returns.{Returns}
use libcomm.Threads.{running, again, exited, loop}
use libcomm.Fifo
use libcomm.Fifo.Receive as FifoReceive
use libcomm.Fifo.{
  read_init, read_uninit, write_init, write_uninit, open_fifo, make_fifo, close_fifo, start_reading,
  get_task, get_round, end_get,
}
use libcomm.Fifo.GetTask.{fifo_get_task_ends}
use libcomm.Uart
use libcomm.Uart.RecvTask as UartTask
use libcomm.Uart.{open_dev, close_dev, config_dev, new_tty, baud_rate_speed, recv_task}
use libcomm.Uart.Life.{open_dev_leaves}
use libcomm.Uart.RecvTask.{RoundDone, uart_recv_task_outcome}
use libcomm.Uart.Config.{Timed, Waits, LastSet, config_dev-Timed}
use libcomm.Tests.Machine.{
  messages_left, machine, machine-FreshBlocks, machine-ReadFits, machine-FinitePipe,
}

abbrev no_pipe : Fifo.Context
no_pipe = record {
  file_name = [];
  make = pos 0;
  fd = minus_one;
  p_get_func = 0;
  p_close_func = 0;
  p_arg = 0;
  thread = 0;
  running = false;
  recv_msg = [];
}

abbrev no_pipes : World Fifo.Heap
no_pipes = record { history = []; store = λ _. no_pipe }

abbrev world_after : {S A : Type 0} → World S → Option (A × World S) → World S
world_after w none = w
world_after w (some (_, w')) = w'

abbrev result_after : {S A : Type 0} → A → Option (A × World S) → A
result_after a none = a
result_after a (some (b, _)) = b

abbrev pipe_name : List ℕ
pipe_name = 47 ∷ 112 ∷ []

abbrev reading : World Fifo.Heap
reading = world_after no_pipes (read_init machine pipe_name (pos 1) 41 42 0 no_pipes)

reading-Ready : FifoReceive.Ready 1 reading
unfolding read_init open_fifo make_fifo start_reading Fifo.new_context
reading-Ready = record {
  alive = refl;
  runs = refl;
  get_set = λ z. omega (arith, z);
  close_set = λ z. omega (arith, z);
  buffer = refl;
}

fifo_get_task_ends_example : result_after running (get_task machine 3 1 reading) ≢ running
unfolding read_init open_fifo make_fifo start_reading Fifo.new_context get_task loop get_round
    Fifo.deliver Fifo.close_reader end_get
fifo_get_task_ends_example =
    (fifo_get_task_ends machine machine-ReadFits 1 messages_left 3 reading reading-Ready
      (machine-FinitePipe (pos 3)) (omega arith)).1

abbrev no_device : Uart.Context
no_device = record {
  dev_name = [];
  baud_rate = pos 0;
  parity = 0;
  wait_time = pos 0;
  fd = minus_one;
  p_recv_func = 0;
  p_arg = 0;
  thread = 0;
  running = false;
  recv_msg = [];
}

abbrev no_devices : World Uart.Heap
no_devices = record { history = []; store = λ _. no_device }

abbrev tty_name : List ℕ
tty_name = 47 ∷ 116 ∷ []

-- An operating system that has memory but no device.
abbrev no_tty : History → Call → Reply
no_tty h (Call.open_file f m) = record (machine.reply h (Call.open_file f m)) { value = minus_one }
no_tty h c = machine.reply h c

abbrev deviceless : Os
deviceless = record { reply = no_tty }

deviceless-FreshBlocks : FreshBlocks deviceless
deviceless-FreshBlocks h = machine-FreshBlocks h

never_open : (h : History) → is_open h minus_one ≡ false
never_open [] = refl
never_open ((c, r) ∷ h) = ground (arith, never_open h)

deviceless-FreshFiles : FreshFiles deviceless
deviceless-FreshFiles h f m = never_open h

open_dev_leaves_example :
    is_live (world_after no_devices (open_dev deviceless tty_name 51 0 no_devices)).history 1 ≡ true
unfolding open_dev
open_dev_leaves_example =
    ((open_dev_leaves deviceless tty_name 51 0 no_devices deviceless-FreshBlocks
        deviceless-FreshFiles).1
      refl).2

abbrev plugged : World Uart.Heap
plugged = world_after no_devices (open_dev machine tty_name 51 0 no_devices)

plugged-Ready : UartTask.Ready 1 plugged
unfolding open_dev Uart.start_receiving Uart.new_context
plugged-Ready = record { alive = refl; callback = λ z. omega (arith, z); buffer = refl }

uart_recv_task_outcome_example :
    Returns
      (recv_task machine 3 1 plugged)
      (λ e w'. RoundDone 1 plugged again w' × (e ≡ exited → (w'.store 1).running ≡ false))
uart_recv_task_outcome_example =
    uart_recv_task_outcome machine machine-ReadFits 1 3 plugged plugged-Ready

config_dev-Timed_example : Returns (config_dev machine 1 (pos 9600) 0 (pos 300) plugged) (λ v w'.
    (v ≡ pos 0
      → (baud_rate_speed (pos 9600) ≢ 0)
        × LastSet w'.history (Timed (baud_rate_speed (pos 9600)) (w'.store 1).wait_time)
        × Waits (pos 300) (w'.store 1).wait_time
        × ((w'.store 1).baud_rate ≡ pos 9600)
        × ((w'.store 1).fd ≡ (plugged.store 1).fd))
    × (v ≢ pos 0 → (v ≡ minus_one) × (w'.store ≡ plugged.store)))
unfolding open_dev Uart.start_receiving Uart.new_context
config_dev-Timed_example =
    config_dev-Timed machine 1 plugged (pos 9600) 0 (pos 300) (λ z. omega (arith, z)) refl refl
