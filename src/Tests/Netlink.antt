-- ===== src/Tests/Netlink.antt =====
-- A netlink socket that is opened, and two messages, the second of which is shorter.
use libcomm.Prelude.{◌≢◌, ◌<◌, refl, arith, [], ◌∷◌, Option, none, some}
use libcomm.Os.{World, ◌>>◌}
use libcomm.Netlink.{
  Heap, new_message, new_context, init_netlink, init_buffers, init_receive, netlink_init,
  start_receiving, recv_task,
}
use libcomm.Netlink.Send
use libcomm.Netlink.Send.{resend_keeps_tail}
use libcomm.Netlink.RecvTask.{Ready, Ended, netlink_recv_task_ends}
use libcomm.Returns.{Returns}
use libcomm.Threads.{running}
use libcomm.Tests.Machine.{machine, messages_left, machine-FiniteKernel}

abbrev empty : World Heap
empty = record {
  history = [];
  store = record { contexts = λ _. new_context 0 0 0 0; messages = λ _. new_message 0 [] };
}

abbrev world_after : {A : Type 0} → Option (A × World Heap) → World Heap
world_after none = empty
world_after (some (_, w)) = w

abbrev opened : World Heap
opened = world_after (netlink_init machine 61 62 0 empty)

-- Three bytes, and then one.
abbrev long_request : Send.Request
long_request = record { bytes = 5 ∷ 6 ∷ 7 ∷ []; size = 3; type = 16; flags = 0; seq_num = 1 }

abbrev short_request : Send.Request
short_request = record { bytes = 9 ∷ []; size = 1; type = 17; flags = 0; seq_num = 2 }

sending-Ready : Send.Ready machine 1 opened
unfolding netlink_init init_netlink init_buffers init_receive start_receiving new_context
sending-Ready = record { handle = λ z. omega (arith, z); alive = refl; buffer = refl; valid = refl }

resend_keeps_tail_example :
    Returns
      ((Send.send machine 1 long_request >> Send.send machine 1 short_request) opened)
      (Send.Resent machine 1 long_request short_request opened)
resend_keeps_tail_example =
    resend_keeps_tail machine 1 long_request short_request opened sending-Ready
      (record { some_size = λ z. omega (arith, z); given = omega arith; room = omega arith })
      (record { some_size = λ z. omega (arith, z); given = omega arith; room = omega arith })
      (omega arith)

opened-Ready : Ready 1 opened
unfolding netlink_init init_netlink init_buffers init_receive start_receiving new_context
opened-Ready = record { alive = refl; runs = refl; exit_set = λ z. omega (arith, z); buffer = refl }

enough : messages_left opened.history < 3
unfolding netlink_init init_netlink init_buffers init_receive start_receiving new_context
enough = omega arith

netlink_recv_task_ends_example :
    Returns (recv_task machine 3 1 opened) (λ e w'. Ended 1 opened e w' × (e ≢ running))
netlink_recv_task_ends_example =
    netlink_recv_task_ends machine 1 messages_left 3 opened opened-Ready
      (machine-FiniteKernel (opened.store.contexts 1).fd) enough
