-- ===== src/TcpServer/Ipv6.antt =====
-- source/comm_tcp_server.c: the IPv6 half, whose code is that of the IPv4 half but for the address
-- family and for types, names and messages.
use libcomm.Prelude.{ℕ, ℤ, List, Option}
use libcomm.Os.{Address, Family, Os}
use libcomm.TcpServer
use libcomm.TcpServer.Tasks
use libcomm.TcpServer.Api

abbrev pub Context : Type 0
Context = TcpServer.Context

module _ (os : Os) where
  abbrev pub init_server : ℕ → TcpServer.Act ℤ
  init_server = TcpServer.init_server os Family.inet6

  abbrev pub uninit_server : ℕ → TcpServer.Act (Unit {0})
  uninit_server = TcpServer.uninit_server os

  abbrev pub recv_task : ℕ → ℕ → TcpServer.Act Tasks.Ending
  recv_task = Tasks.recv_task os

  abbrev pub listen_task : ℕ → ℕ → TcpServer.Act Tasks.Ending
  listen_task = Tasks.listen_task os

  abbrev pub server_init : ℕ → ℤ → ℕ → ℕ → ℕ → ℕ → TcpServer.Act ℕ
  server_init = Api.server_init os Family.inet6

  abbrev pub server_uninit : ℕ → TcpServer.Act (Unit {0})
  server_uninit = Api.server_uninit os

  abbrev pub accept_client : ℕ → Address → ℤ → TcpServer.Act ℕ
  accept_client = TcpServer.accept_client os

  abbrev pub disconnect_client : ℕ → ℕ → TcpServer.Act (Unit {0})
  disconnect_client = TcpServer.disconnect_client os

  abbrev pub server_send : ℕ → Option (List ℕ) → ℕ → TcpServer.Act ℤ
  server_send = Api.server_send os

  abbrev pub server_send_all : ℕ → Option (List ℕ) → ℕ → TcpServer.Act (Unit {0})
  server_send_all = Api.server_send_all os

abbrev pub client_num : ℕ → TcpServer.Act ℕ
client_num = Api.client_num
