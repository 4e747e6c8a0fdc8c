-- ===== src/Tests/Endpoints.antt =====
-- Endpoints of each protocol: a UDP endpoint that polls, a UNIX one with a thread, a raw socket, and
-- the address of a network interface.
use libcomm.Prelude.{
  ℕ, ℤ, pos, ◌⊎◌, ap, get_or, ◌≢◌, ◌≡◌, ◌↔◌, inr, refl, false, arith, minus_one, [], ◌∷◌, Option,
  none, some, List, length,
}
use libcomm.Os.{World, Address, Family, recvfrom, ◌>>=◌}
use libcomm.Returns.{Returns}
use libcomm.Threads.{running}
use libcomm.Datagram
use libcomm.Datagram.{
  Heap, init, uninit, recv_task, receive, new_context, start_receiving, free_endpoint,
  cancel_receiving, recv_loop, recv_round, deliver, end_recv,
}
use libcomm.Datagram.Receive.{Ready}
use libcomm.Datagram.Poll.{Polled}
use libcomm.Datagram.Life.{Unchanged}
use libcomm.Threads.{loop}
use libcomm.Endpoints.{
  Protocol, udp_ipv4, ipc_dgram, raw_sock, Place, endpoint, endpoint_restores,
  endpoint-recv_task_exits, endpoint-receive-Polled,
}
use libcomm.Raw
use libcomm.Raw.{Device, new_device, promisc_mode, send_frame, new_flags}
use libcomm.Raw.Flags.{Switched, sent_flags, promisc_mode-Switched}
use libcomm.Udp
use libcomm.Udp.Address.{get_addr}
use libcomm.Udp.Address.Search.{bytes_number, Unwanted, get_addr-host}
use libcomm.Udp.Address.First.{First, get_addr-First}
use libcomm.IpcDgram
use libcomm.IpcStreamClient.{unix_address}
use libcomm.Tests.Machine.{
  messages_left, machine-FiniteDatagrams, nowhere, machine, machine-FreshBlocks,
  machine-FreshSockets, machine-RecvfromFits, loopback, ethernet, host_address,
}

abbrev no_device : Device
no_device = record { if_name = []; if_index = 0; if_mtu = 0; if_hw_addr = []; promisc = pos 0 }

abbrev no_place : (s : Protocol) → Place s
no_place udp_ipv4 = nowhere
no_place Protocol.udp_ipv6 = nowhere
no_place ipc_dgram = nowhere
no_place raw_sock = no_device

abbrev blank : (s : Protocol) → Datagram.Context (Place s)
blank s = record {
  place = no_place s;
  fd = minus_one;
  p_recv_func = 0;
  p_arg = 0;
  thread = 0;
  running = false;
  recv_msg = [];
}

abbrev empty : (s : Protocol) → World (Heap (Place s))
empty s = record { history = []; store = λ _. blank s }

abbrev world_after : {S A : Type 0} → World S → Option (A × World S) → World S
world_after w none = w
world_after w (some (_, w')) = w'

abbrev result_after : {S A : Type 0} → A → Option (A × World S) → A
result_after a none = a
result_after a (some (b, _)) = b

abbrev socket_path : List ℕ
socket_path = 47 ∷ 115 ∷ []

endpoint_restores_example : Unchanged (empty ipc_dgram) (
    world_after (empty ipc_dgram) (
      (init machine (endpoint machine ipc_dgram) (unix_address socket_path) 31 7
          >>= uninit machine (endpoint machine ipc_dgram))
        (empty ipc_dgram)))
unfolding init uninit new_context start_receiving free_endpoint cancel_receiving
    IpcDgram.open_socket IpcDgram.close_socket
endpoint_restores_example =
    endpoint_restores machine ipc_dgram (unix_address socket_path) 31 7 (empty ipc_dgram)
      machine-FreshBlocks machine-FreshSockets (omega arith)

abbrev opened : World (Heap Address)
opened =
    world_after (empty ipc_dgram)
      (init machine (endpoint machine ipc_dgram) (unix_address socket_path) 31 7 (empty ipc_dgram))

opened-Ready : Ready 1 opened
unfolding init new_context start_receiving IpcDgram.open_socket
opened-Ready = record { alive = refl; runs = refl; callback = λ z. omega (arith, z); buffer = refl }

endpoint-recv_task_exits_example :
    result_after running (recv_task machine (endpoint machine ipc_dgram) 3 1 opened) ≢ running
unfolding init new_context start_receiving IpcDgram.open_socket recv_task recv_loop loop recv_round
    deliver end_recv
endpoint-recv_task_exits_example =
    (endpoint-recv_task_exits machine ipc_dgram 1 messages_left 3 opened machine-RecvfromFits
      opened-Ready (machine-FiniteDatagrams (pos 3)) (omega arith)).1

abbrev polling : World (Heap Address)
polling =
    world_after (empty udp_ipv4) (
      init machine (endpoint machine udp_ipv4) (Udp.any_address Family.inet 53) 0 0
        (empty udp_ipv4))

endpoint-receive-Polled_example :
    Returns
      (receive machine (endpoint machine udp_ipv4) 1 (some (0 ∷ 0 ∷ 5 ∷ [])) 3 polling)
      (λ x w'.
        let r = machine.reply polling.history (recvfrom (pos 3) 3) in
        (after : List ℕ) × (x ≡ (r.value, some after))
        × Polled (endpoint machine udp_ipv4).fails 3 r.payload (0 ∷ 0 ∷ 5 ∷ []) r.value after
        × (w' ≡ record polling { history = (recvfrom (pos 3) 3, r) ∷ polling.history }))
unfolding init new_context start_receiving Udp.open_socket
endpoint-receive-Polled_example =
    endpoint-receive-Polled machine udp_ipv4 1 (0 ∷ 0 ∷ 5 ∷ []) 3 polling machine-RecvfromFits
      (λ z. omega (arith, z)) refl refl refl (λ z. omega (arith, z)) (omega arith)

abbrev sniffing : World (Heap Device)
sniffing =
    world_after (empty raw_sock)
      (init machine (endpoint machine raw_sock) (new_device none) 0 0 (empty raw_sock))

promisc_mode-Switched_example : Returns (promisc_mode machine 1 (pos 1) sniffing) (λ v w'.
    (v ≡ pos 0
      → Switched (pos 1) 4098 (sent_flags w'.history)
        × ((w'.store 1).place.promisc ≡ pos 1)
        × ((w'.store 1).fd ≡ pos 3))
    × (v ≢ pos 0 → (v ≡ minus_one) × (w'.store ≡ sniffing.store)))
unfolding init new_context start_receiving Raw.open_socket new_device
promisc_mode-Switched_example =
    promisc_mode-Switched machine 1 sniffing (pos 1) (λ z. omega (arith, z)) refl refl

differ : (xs ys : List ℕ) → get_or xs 0 0 ≢ get_or ys 0 0 → xs ≢ ys
differ xs ys h e = h (ap (λ zs. get_or zs 0 0) e)

get_addr-host_example :
    Returns (get_addr machine Family.inet (101 ∷ 110 ∷ []) (empty udp_ipv4)) (λ x w'.
      (x.0 ≡ pos 0)
      × (length x.1 ≡ 4)
      × (bytes_number x.1 0 ≡ 3232235777)
      × (w'.store ≡ (empty udp_ipv4).store))
get_addr-host_example =
    get_addr-host machine (empty udp_ipv4) (101 ∷ 110 ∷ []) (loopback ∷ []) ethernet
      (host_address Family.inet 3232235777) [] refl refl
      ((host_address Family.inet 2130706433, refl, inr (differ _ _ (λ z. omega (arith, z)))), tt)
      (refl, refl, refl) (omega arith)

get_addr-First_example :
    ((w' : World (Heap Address)) × (get_addr machine Family.inet (101 ∷ 110 ∷ []) (empty udp_ipv4)
        ≡ some ((pos 0, 192 ∷ 168 ∷ 1 ∷ 1 ∷ []), w')))
    ↔ (((◌≡◌ {A = ℤ × List ℕ} (pos 0, 192 ∷ 168 ∷ 1 ∷ 1 ∷ []) (minus_one, 0 ∷ 0 ∷ 0 ∷ 0 ∷ []))
          × Unwanted Family.inet (101 ∷ 110 ∷ []) (loopback ∷ ethernet ∷ []))
        ⊎ ((◌≡◌ {A = ℤ} (pos 0) (pos 0))
            × First Family.inet
                (101 ∷ 110 ∷ [])
                (loopback ∷ ethernet ∷ [])
                (192 ∷ 168 ∷ 1 ∷ 1 ∷ [])))
get_addr-First_example =
    get_addr-First machine (empty udp_ipv4) Family.inet (101 ∷ 110 ∷ [])
      (pos 0, 192 ∷ 168 ∷ 1 ∷ 1 ∷ []) refl
