-- ===== src/Tests/TcpServer.antt =====
-- A TCP server on port 80 for two users: started, then with one client, then with none.
use libcomm.Prelude.{
  ◌≢◌, ℕ, ◌≡◌, refl, false, arith, pos, minus_one, [], ◌∷◌, Option, none, some, ◌<◌,
}
use libcomm.Os.{send, Family, Address, World}
use libcomm.TcpServer.{
  disconnect_client, remove_user, clear_slot, drop_user, Context, User, Heap, init_server,
  fill_slot, take_slot, free_slot, accept_client, uninit_server,
}
use libcomm.TcpServer.Api.{
  server_uninit, disconnect_from, free_server, server_send_all, send_from, user_limit, new_context,
  start_listening, server_init,
}
use libcomm.TcpServer.Tasks.{
  recv_task, recv_loop, recv_round, deliver, close_connection, end_recv, listen_task, listen_loop,
  listen_round, end_listen,
}
use libcomm.TcpServer.Invariant.{IsValid}
use libcomm.TcpServer.Init.{server_init-IsValid}
use libcomm.TcpServer.Accept.{Accepted, CanCreate, accept_client-IsValid, accept_client_when}
use libcomm.TcpServer.RecvTask.{Ready}
use libcomm.TcpServer.RecvEnd.{Gone, recv_task_outcome}
use libcomm.TcpServer.UninitAll.{Freed, server_uninit_frees}
use libcomm.Returns.{Returns}
use libcomm.TcpServer.Termination.{server_recv_task_ends}
use libcomm.Threads.{running, exited}
use libcomm.TcpServer.Steps.{accepts, receives, done, ◌then◌, Steps-uninit_frees}
use libcomm.TcpServer.Send.{sends, target, targets, server_send_all_sends}
use libcomm.TcpServer.ListenEnd.{listen_task_outcome}
use libcomm.Tests.Machine.{
  messages_left, machine-FiniteStream, answer, nowhere, machine, machine-FreshBlocks,
  machine-FreshSockets, machine-RecvFits,
}

abbrev pub blank_context : Context
blank_context = record {
  local_addr = nowhere;
  fd = minus_one;
  p_user = [];
  user_num = 0;
  max_user_num = pos 0;
  p_server_acpt_func = 0;
  p_server_exit_func = 0;
  p_server_recv_func = 0;
  p_server_arg = 0;
  thread = 0;
  running = false;
}

abbrev pub blank_user : User
blank_user = record { p_server = 0; addr = nowhere; fd = minus_one; thread = 0; recv_msg = [] }

abbrev pub empty : World Heap
empty = record {
  history = [];
  store = record { contexts = λ _. blank_context; users = λ _. blank_user };
}

abbrev pub world_after : {A : Type 0} → Option (A × World Heap) → World Heap
world_after none = empty
world_after (some (_, w)) = w

abbrev result_of : Option (ℕ × World Heap) → ℕ
result_of none = 0
result_of (some (p, _)) = p

abbrev pub started : World Heap
started = world_after (server_init machine Family.inet 80 (pos 2) 21 22 23 0 empty)

abbrev pub client : Address
client = record { family = Family.inet; host = 9; port = 4000; path = [] }

abbrev pub served : World Heap
served = world_after (accept_client machine 1 client (pos 8) started)

started-handle : result_of (server_init machine Family.inet 80 (pos 2) 21 22 23 0 empty) ≡ 1
unfolding server_init init_server start_listening uninit_server new_context user_limit
started-handle = refl

-- What the theorems of the server's start and of its client give here, for the runs that follow.
pub started-IsValid : IsValid 1 started
unfolding server_init init_server start_listening uninit_server new_context user_limit
started-IsValid =
    ((server_init-IsValid machine machine-FreshBlocks machine-FreshSockets Family.inet 80 (pos 2) 21
        22 23 0 empty).1
      (λ z. omega (arith, z))).0

served-IsValid : IsValid 1 served
unfolding server_init init_server start_listening uninit_server new_context user_limit accept_client
    take_slot free_slot fill_slot
served-IsValid =
    (accept_client-IsValid machine machine-FreshBlocks 1 client (pos 8) started started-IsValid).0

served-Ready : Ready 1 2 served
unfolding server_init init_server start_listening uninit_server new_context user_limit accept_client
    take_slot free_slot fill_slot
served-Ready = record {
  user_live = refl;
  mine = refl;
  server_live = refl;
  callback = λ z. omega (arith, z);
}

server_init-IsValid_example : IsValid 1 started
unfolding server_init init_server start_listening uninit_server new_context user_limit
server_init-IsValid_example =
    ((server_init-IsValid machine machine-FreshBlocks machine-FreshSockets Family.inet 80 (pos 2) 21
        22 23 0 empty).1
      (λ z. omega (arith, z))).0

accept_client-IsValid_example : Accepted 1 client (pos 8) started 2 served
unfolding server_init init_server start_listening uninit_server new_context user_limit accept_client
    take_slot free_slot fill_slot
accept_client-IsValid_example =
    (accept_client-IsValid machine machine-FreshBlocks 1 client (pos 8) started started-IsValid).1

accept_client_when_example : (0 < 2) × CanCreate machine (pos 8) started
unfolding server_init init_server start_listening uninit_server new_context user_limit accept_client
    take_slot free_slot fill_slot
accept_client_when_example =
    (accept_client_when machine machine-FreshBlocks 1 client (pos 8) started started-IsValid).0
      (λ z. omega (arith, z))

recv_task_outcome_example : Gone 1 2 served (world_after (recv_task machine 3 2 served))
unfolding server_init init_server start_listening uninit_server new_context user_limit accept_client
    take_slot free_slot fill_slot disconnect_client remove_user clear_slot drop_user recv_task
    recv_loop recv_round deliver close_connection end_recv
recv_task_outcome_example =
    (recv_task_outcome machine machine-RecvFits 1 2 served served-IsValid served-Ready
        (λ z. omega (arith, z)) (λ z. omega (arith, z)) refl 3).1
      refl

server_uninit_frees_example : Freed 1 served (world_after (server_uninit machine 1 served))
unfolding server_init init_server start_listening uninit_server new_context user_limit accept_client
    take_slot free_slot fill_slot disconnect_client remove_user clear_slot drop_user server_uninit
    disconnect_from free_server
server_uninit_frees_example =
    server_uninit_frees machine 1 served served-IsValid (λ z. omega (arith, z))

server_send_all_sends_example :
    (world_after (server_send_all machine 1 (some (5 ∷ 6 ∷ [])) 1 served)).history
    ≡ (send (pos 8) (5 ∷ []), answer (pos 0) 0 []) ∷ served.history
unfolding server_init init_server start_listening uninit_server new_context user_limit accept_client
    take_slot free_slot fill_slot server_send_all send_from sends target targets
server_send_all_sends_example =
    (server_send_all_sends machine 1 (5 ∷ 6 ∷ []) 1 served served-IsValid).0

listen_task_outcome_example : IsValid 1 (world_after (listen_task machine 2 1 started))
unfolding server_init init_server start_listening uninit_server new_context user_limit accept_client
    take_slot free_slot fill_slot listen_task listen_loop listen_round end_listen
listen_task_outcome_example =
    (listen_task_outcome machine machine-FreshBlocks 1 started started-IsValid 2).0

server_recv_task_ends_example : Returns (recv_task machine 3 2 served) (λ e _. e ≢ running)
unfolding server_init init_server start_listening uninit_server new_context user_limit accept_client
    take_slot free_slot fill_slot
server_recv_task_ends_example =
    server_recv_task_ends machine machine-RecvFits 1 2 messages_left 3 served served-Ready
      (machine-FiniteStream (pos 8)) (omega arith) (λ z. omega (arith, z))

Steps-uninit_frees_example : IsValid 1 (world_after (recv_task machine 3 2 served))
unfolding server_init init_server start_listening uninit_server new_context user_limit accept_client
    take_slot free_slot fill_slot disconnect_client remove_user clear_slot drop_user recv_task
    recv_loop recv_round deliver close_connection end_recv
Steps-uninit_frees_example =
    (Steps-uninit_frees machine machine-FreshBlocks machine-RecvFits 1 started
      (world_after (recv_task machine 3 2 served)) started-IsValid (λ z. omega (arith, z))
      (accepts client (pos 8) 2 refl
        then (receives 3 2 exited served-Ready (λ z. omega (arith, z)) (λ z. omega (arith, z)) refl
              refl
            then done))).0
