-- ===== src/Tests/TcpClient.antt =====
-- A TCP client on a free port: opened, connected, and left by its server.
use libcomm.Prelude.{pos, ◌≢◌, refl, false, arith, minus_one, [], ◌∷◌, Option, none, some}
use libcomm.Os.{World, Family}
use libcomm.TcpClient.{
  Context, Heap, new_context, init_client, recv_task, recv_loop, recv_round, deliver,
  close_connection, end_recv,
}
use libcomm.TcpClient.Api.{client_init, client_connect, start_receiving}
use libcomm.TcpClient.Receive.{Ready, Closed}
use libcomm.TcpClient.RecvTask.{recv_task_closes}
use libcomm.TcpClient.Termination.{client_recv_task_ends}
use libcomm.Returns.{Returns}
use libcomm.Threads.{running}
use libcomm.Tests.Machine.{messages_left, machine-FiniteStream, nowhere, machine, machine-RecvFits}

abbrev pub blank : Context
blank = record {
  remote_addr = nowhere;
  local_addr = nowhere;
  fd = minus_one;
  p_client_recv_func = 0;
  p_client_exit_func = 0;
  p_client_arg = 0;
  thread = 0;
  running = false;
  recv_msg = [];
}

abbrev empty : World Heap
empty = record { history = []; store = λ _. blank }

abbrev world_after : {A : Type 0} → Option (A × World Heap) → World Heap
world_after none = empty
world_after (some (_, w)) = w

abbrev opened : World Heap
opened = world_after (client_init machine Family.inet 0 31 32 0 empty)

abbrev connected : World Heap
connected = world_after (client_connect machine (λ _ _. 9) Family.inet 1 (57 ∷ []) 80 opened)

connected-Ready : Ready 1 connected
unfolding client_init init_client new_context client_connect start_receiving
connected-Ready = record { alive = refl; runs = refl; callback = λ z. omega (arith, z) }

recv_task_closes_example : Closed 1 connected (world_after (recv_task machine 3 1 connected))
unfolding client_init init_client new_context client_connect start_receiving recv_task recv_loop
    recv_round deliver close_connection end_recv
recv_task_closes_example =
    ((recv_task_closes machine machine-RecvFits 1 3 connected connected-Ready).1 refl).0

client_recv_task_ends_example : Returns (recv_task machine 3 1 connected) (λ e _. e ≢ running)
unfolding client_init init_client new_context client_connect start_receiving
client_recv_task_ends_example =
    client_recv_task_ends machine machine-RecvFits 1 messages_left 3 connected connected-Ready
      (machine-FiniteStream (pos 3)) (omega arith)
