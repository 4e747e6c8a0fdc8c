-- ===== src/Tests/Race.antt =====
-- A client that closes its connection before it stands in the table of the server.
use libcomm.Prelude.{ℕ, pos, ◌≡◌, refl, false, arith, Option, none, some}
use libcomm.Os.{World}
use libcomm.Memory.{is_live}
use libcomm.TcpServer.{
  Heap, init_server, uninit_server, free_slot, disconnect_client, remove_user, clear_slot,
  drop_user,
}
use libcomm.TcpServer.Api.{new_context, start_listening, server_init, user_limit}
use libcomm.TcpServer.Tasks.{
  Ending, recv_task, recv_loop, recv_round, deliver, close_connection, end_recv,
}
use libcomm.TcpServer.Invariant.{slot}
use libcomm.TcpServer.Race.{
  start_user, enter_slot, overtaken_fill_slot, overtaken_fill_slot_dangles,
}
use libcomm.Tests.Machine.{machine, machine-FreshBlocks, machine-RecvFits}
use libcomm.Tests.TcpServer.{empty, started, client, started-IsValid}

abbrev overtaken : World Heap
overtaken = world_after (overtaken_fill_slot machine 5 1 client (pos 8) 0 started)
  where
    world_after : Option ((ℕ × Ending) × World Heap) → World Heap
    world_after none = empty
    world_after (some (_, w)) = w

overtaken_fill_slot_dangles_example :
    (slot (overtaken.store.contexts 1) 0 ≡ 2) × (is_live overtaken.history 2 ≡ false)
unfolding server_init init_server start_listening uninit_server new_context user_limit free_slot
    overtaken_fill_slot start_user enter_slot disconnect_client remove_user clear_slot drop_user
    recv_task recv_loop recv_round deliver close_connection end_recv
overtaken_fill_slot_dangles_example =
    overtaken_fill_slot_dangles machine machine-FreshBlocks machine-RecvFits 1 client (pos 8) 0 5
      started started-IsValid (λ z. omega (arith, z)) refl refl (λ z. omega (arith, z)) refl
