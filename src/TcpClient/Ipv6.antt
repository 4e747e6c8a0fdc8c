-- ===== src/TcpClient/Ipv6.antt =====
-- source/comm_tcp_client.c: the IPv6 half, whose code is that of the IPv4 half but for the address
-- family and for types, names and messages.
use libcomm.Prelude.{ℕ, ℤ, List, Option}
use libcomm.Os.{Family, Os}
use libcomm.Threads
use libcomm.TcpClient
use libcomm.TcpClient.Api

abbrev pub Context : Type 0
Context = TcpClient.Context

module _ (os : Os) where
  abbrev pub init_client : ℕ → TcpClient.Act ℤ
  init_client = TcpClient.init_client os Family.inet6

  abbrev pub uninit_client : ℕ → TcpClient.Act (Unit {0})
  uninit_client = TcpClient.uninit_client os

  abbrev pub recv_task : ℕ → ℕ → TcpClient.Act Threads.Ending
  recv_task = TcpClient.recv_task os

  abbrev pub client_init : ℕ → ℕ → ℕ → ℕ → TcpClient.Act ℕ
  client_init = Api.client_init os Family.inet6

  abbrev pub client_uninit : ℕ → TcpClient.Act (Unit {0})
  client_uninit = Api.client_uninit os

  abbrev pub client_connect : (Family → List ℕ → ℕ) → ℕ → List ℕ → ℕ → TcpClient.Act ℤ
  client_connect resolve = Api.client_connect os resolve Family.inet6

  abbrev pub client_send : ℕ → Option (List ℕ) → ℕ → TcpClient.Act ℤ
  client_send = Api.client_send os
