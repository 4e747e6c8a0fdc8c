-- ===== src/Tests/IpcStreamServer.antt =====
-- A server on a UNIX socket that accepts one client, which then closes its connection.
use libcomm.Prelude.{ℕ, pos, minus_one, ◌≡◌, refl, arith, [], ◌∷◌, List, Option, none, some, false}
use libcomm.Os.{World, Os}
use libcomm.Returns.{Returns}
use libcomm.Threads.{running}
use libcomm.TcpServer.{Context, User, Heap, free_slot}
use libcomm.TcpServer.Api.{user_limit}
use libcomm.TcpServer.Invariant.{IsValid}
use libcomm.TcpServer.Init.{empty-IsValid}
use libcomm.TcpServer.Accept.{Accepted}
use libcomm.IpcStreamClient.{unix_address}
use libcomm.IpcStreamServer.{init_server, uninit_server, fill_slot, take_slot, accept_client}
use libcomm.IpcStreamServer.Api.{new_context, start_listening, server_init}
use libcomm.IpcStreamServer.Tasks.{recv_task}
use libcomm.IpcStreamServer.Accept.{ipc_accept_client-IsValid}
use libcomm.IpcStreamServer.Spin.{Gone, Connected, Spun, ipc_recv_task_spins}
use libcomm.Tests.Machine.{answer, nowhere, machine, machine-FreshBlocks}

abbrev blank_context : Context
blank_context = record {
  local_addr = nowhere;
  fd = minus_one;
  p_user = [];
  user_num = 0;
  max_user_num = pos 0;
  p_server_acpt_func = 0;
  p_server_exit_func = 0;
  p_server_recv_func = 0;
  p_server_arg = 0;
  thread = 0;
  running = false;
}

abbrev blank_user : User
blank_user = record { p_server = 0; addr = nowhere; fd = minus_one; thread = 0; recv_msg = [] }

abbrev empty : World Heap
empty = record {
  history = [];
  store = record { contexts = λ _. blank_context; users = λ _. blank_user };
}

abbrev world_after : {A : Type 0} → Option (A × World Heap) → World Heap
world_after none = empty
world_after (some (_, w)) = w

abbrev server_path : List ℕ
server_path = 47 ∷ 115 ∷ []

abbrev client_path : List ℕ
client_path = 47 ∷ 99 ∷ []

abbrev started : World Heap
started = world_after (server_init machine server_path (pos 2) 21 22 23 0 empty)

started-IsValid : IsValid 1 started
unfolding server_init init_server start_listening uninit_server new_context user_limit
started-IsValid = empty-IsValid 1 started (pos 2) refl refl refl refl

abbrev served : World Heap
served = world_after (accept_client machine 1 client_path (pos 8) started)

ipc_accept_client-IsValid_example : Accepted 1 (unix_address client_path) (pos 8) started 2 served
unfolding server_init init_server start_listening uninit_server new_context user_limit accept_client
    take_slot free_slot fill_slot
ipc_accept_client-IsValid_example =
    (ipc_accept_client-IsValid machine machine-FreshBlocks 1 client_path (pos 8) (omega arith)
      started started-IsValid).1

served-IsValid : IsValid 1 served
unfolding server_init init_server start_listening uninit_server new_context user_limit accept_client
    take_slot free_slot fill_slot
served-IsValid =
    (ipc_accept_client-IsValid machine machine-FreshBlocks 1 client_path (pos 8) (omega arith)
      started started-IsValid).0

-- An operating system whose peers are all gone, and that cancels no thread.
abbrev quiet : Os
quiet = record { reply = λ _ _. answer (pos 0) 0 [] }

quiet-Gone : Gone quiet (pos 8)
quiet-Gone = record { nothing = λ h n. (refl, refl); left_alone = λ h. refl }

served-Connected : Connected 1 2 (pos 8) served
unfolding server_init init_server start_listening uninit_server new_context user_limit accept_client
    take_slot free_slot fill_slot
served-Connected = record {
  alive = refl;
  server_alive = refl;
  mine = refl;
  its_fd = refl;
  callback = λ z. omega (arith, z);
}

ipc_recv_task_spins_example :
    Returns (recv_task quiet 5 2 served) (λ e w'. (e ≡ running) × Spun 1 2 (pos 8) 5 served w')
ipc_recv_task_spins_example =
    ipc_recv_task_spins quiet 1 2 (pos 8) refl quiet-Gone 5 served served-Connected
