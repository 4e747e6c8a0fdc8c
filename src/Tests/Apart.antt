-- ===== src/Tests/Apart.antt =====
-- A server without users at 5, and one at 6 with a user that is un-initialized.
use libcomm.Prelude.{
  ℕ, zero, suc, pos, ◌≡◌, ◌≢◌, refl, sym, arith, [], ◌∷◌, replicate, get_or-replicate,
}
use libcomm.Os.{World, Family, malloc}
use libcomm.Returns.{Returns}
use libcomm.TcpServer.{
  Context, Heap, tcp_user_num, init_server, uninit_server, free_slot, fill_slot, take_slot,
  accept_client,
}
use libcomm.TcpServer.Api.{new_context, start_listening, server_init, server_uninit, user_limit}
use libcomm.TcpServer.Invariant.{slot, IsValid}
use libcomm.TcpServer.Table.{occupied-empty}
use libcomm.TcpServer.Init.{server_init-IsValid}
use libcomm.TcpServer.Accept.{accept_client-IsValid}
use libcomm.TcpServer.Apart.{server_uninit-IsValid}
use libcomm.Tests.Machine.{answer, machine, machine-FreshBlocks, machine-FreshSockets}
use libcomm.Tests.TcpServer.{blank_context, blank_user, world_after, client}

abbrev idle : Context
idle = record blank_context { p_user = replicate tcp_user_num 0; max_user_num = pos 2 }

abbrev first : World Heap
first = record {
  history = (malloc, answer (pos 0) 5 []) ∷ [];
  store = record { contexts = λ _. idle; users = λ _. blank_user };
}

abbrev two_servers : World Heap
two_servers = world_after (server_init machine Family.inet 80 (pos 2) 21 22 23 0 first)

abbrev one_user : World Heap
one_user = world_after (accept_client machine 6 client (pos 8) two_servers)

no_slot : (i : ℕ) → slot idle i ≡ 0
no_slot i = get_or-replicate tcp_user_num i 0

idle-IsValid : IsValid 5 one_user
unfolding server_init init_server start_listening uninit_server new_context user_limit accept_client
    take_slot free_slot fill_slot
idle-IsValid = record {
  sound = record {
    alive = refl;
    table = record {
      width = refl;
      bounded = omega arith;
      within = λ i h. absurd (h (no_slot i));
      distinct = λ i j h e. absurd (h (no_slot i));
    };
    users_live = λ i h. absurd (h (no_slot i));
    users_apart = λ i h. absurd (h (no_slot i));
    users_mine = λ i h. absurd (h (no_slot i));
  };
  counted = sym (occupied-empty 2 idle.p_user no_slot);
}

busy-IsValid : IsValid 6 one_user
unfolding server_init init_server start_listening uninit_server new_context user_limit accept_client
    take_slot free_slot fill_slot
busy-IsValid =
    (accept_client-IsValid machine machine-FreshBlocks 6 client (pos 8) two_servers (
      ((server_init-IsValid machine machine-FreshBlocks machine-FreshSockets Family.inet 80 (pos 2)
          21 22 23 0 first).1
        (λ z. omega (arith, z))).0)).0

busy_slot : (i : ℕ) → slot (one_user.store.contexts 6) i ≢ 5
unfolding server_init init_server start_listening uninit_server new_context user_limit accept_client
    take_slot free_slot fill_slot
busy_slot zero e = omega (arith, e)
busy_slot (suc i) e = ground (arith, e, get_or-replicate {A = ℕ} 31 i 0)

idle_slot : (i : ℕ) → slot (one_user.store.contexts 5) i ≢ 6
unfolding server_init init_server start_listening uninit_server new_context user_limit accept_client
    take_slot free_slot fill_slot
idle_slot i e = ground (arith, e, no_slot i)

server_uninit-IsValid_example :
    Returns
      (server_uninit machine 6 one_user)
      (λ _ w'. IsValid 5 w' × (w'.store.contexts 5 ≡ one_user.store.contexts 5))
server_uninit-IsValid_example =
    server_uninit-IsValid machine 6 5 one_user busy-IsValid idle-IsValid (λ z. omega (arith, z))
      (λ z. omega (arith, z)) busy_slot idle_slot
