-- ===== src/Udp/Ipv6.antt =====
-- source/comm_udp.c: the IPv6 half, whose code is that of the IPv4 half but for the address family
-- and for types, names and messages.
use libcomm.Prelude.{ℕ, ℤ, List, Option}
use libcomm.Os
use libcomm.Os.{Family, Os, M}
use libcomm.Threads
use libcomm.Datagram.{Act}
use libcomm.Udp
use libcomm.Udp.Address

abbrev pub Context : Type 0
Context = Udp.Context

module _ (os : Os) where
  abbrev pub open_socket : ℕ → Act Os.Address ℤ
  open_socket = Udp.open_socket os Family.inet6

  abbrev pub close_socket : ℕ → Act Os.Address (Unit {0})
  close_socket = Udp.close_socket os

  abbrev pub init : ℕ → ℕ → ℕ → Act Os.Address ℕ
  init = Udp.init os Family.inet6

  abbrev pub uninit : ℕ → Act Os.Address (Unit {0})
  uninit = Udp.uninit os Family.inet6

  abbrev pub recv_task : ℕ → ℕ → Act Os.Address Threads.Ending
  recv_task = Udp.recv_task os Family.inet6

  abbrev pub receive : ℕ → Option (List ℕ) → ℕ → Act Os.Address (ℤ × Option (List ℕ))
  receive = Udp.receive os Family.inet6

  abbrev pub send_to :
      (Family → List ℕ → ℕ) → ℕ → List ℕ → ℕ → Option (List ℕ) → ℕ → Act Os.Address ℤ
  send_to resolve = Udp.send_to os resolve Family.inet6

  abbrev pub get_addr : {S : Type 0} → List ℕ → M S (ℤ × List ℕ)
  get_addr = Address.get_addr os Family.inet6
