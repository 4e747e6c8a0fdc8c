-- ===== src/Nptp.antt =====
-- application/nptp_serv.h: a mapping between a TCP port and a named pipe, the table of mappings, and
-- the memory of the proxy, of which the library's own memory is a part. A text is a list of bytes
-- without its terminator. What is printed is left out.
pub mod Xml
pub mod Proxy
pub mod Event
pub mod Service
use libcomm.Prelude.{
  ℕ, suc, ◌+◌, ℤ, pos, minus_one, Bool, true, false, List, [], ◌∷◌, Option, none, some, get_or,
  replicate, length, ltb, if◌then◌else◌,
}
use libcomm.Os.{Address, Os, M, World, pure, fault, ◌>>=◌, ◌>>◌}
use libcomm.Memory.{touch, update}
use libcomm.Zoom.{zoom}
use libcomm.TcpServer
use libcomm.TcpClient
use libcomm.Datagram
use libcomm.Log

pub record Mapping : Type 0 where
  pub tcp_server_handle : ℕ
  pub ipc_stream_handle : ℕ
  pub tcp_connect : Bool
  pub pipe_connect : Bool
  pub tcp_port : ℕ
  pub pipe_path : List ℕ
  pub pipe_name : List ℕ
  pub descript : List ℕ
  pub wd : ℤ
  pub p_tcp_user : ℕ
  pub index : ℕ

-- MAX_MAPPING_NUM, and the sizes of `pipePath` and of `pipeName`.
abbrev pub max_mapping_num : ℕ
max_mapping_num = 64

abbrev pub pipe_path_size : ℕ
pipe_path_size = 160

abbrev pub pipe_name_size : ℕ
pipe_name_size = 80

-- `p_mapping`, `mapping_num`, `inotify_fd` and `ipc_dgram_handle` are the global variables;
-- `mappings` are the blocks that they point to. The rest is the library's.
pub record State : Type 0 where
  pub p_mapping : List ℕ
  pub mapping_num : ℕ
  pub inotify_fd : ℤ
  pub ipc_dgram_handle : ℕ
  pub mappings : ℕ → Mapping
  pub settings : Log.Settings
  pub servers : TcpServer.Heap
  pub clients : TcpClient.Heap
  pub datagrams : Datagram.Heap Address

abbrev pub Act : Type 0 → Type 0
Act A = M State A

abbrev pub on_servers : {A : Type 0} → TcpServer.Act A → Act A
on_servers = zoom (λ s. s.servers) (λ t s. record s { servers = t })

abbrev pub on_clients : {A : Type 0} → TcpClient.Act A → Act A
on_clients = zoom (λ s. s.clients) (λ t s. record s { clients = t })

abbrev pub on_datagrams : {A : Type 0} → Datagram.Act Address A → Act A
on_datagrams = zoom (λ s. s.datagrams) (λ t s. record s { datagrams = t })

abbrev pub load : ℕ → Act Mapping
load q = touch q (λ w. (w.store.mappings q, w))

-- Writes to fields of the mapping at `q`.
abbrev pub modify : ℕ → (Mapping → Mapping) → Act (Unit {0})
modify q f = touch q (λ w. (
  tt,
  record w {
    store = record w.store { mappings = update w.store.mappings q (f (w.store.mappings q)) };
  },
))

abbrev pub globals : Act State
globals w = some (w.store, w)

abbrev pub set_globals : (State → State) → Act (Unit {0})
set_globals f w = some (tt, record w { store = f w.store })

-- `g_pMapping[i]`.
abbrev pub slot : State → ℕ → ℕ
slot s i = get_or s.p_mapping i 0
