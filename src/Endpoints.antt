-- ===== src/Endpoints.antt =====
-- source/comm_udp.c, source/comm_ipc_dgram.c and source/comm_raw.c: the endpoints of each protocol,
-- and what holds of all of them.
use libcomm.Prelude.{
  ℕ, ◌≤◌, ◌<◌, ◌≡◌, ◌≢◌, true, false, arith, is_negative, List, ◌∷◌, length, some,
}
use libcomm.Os.{Address, inet, inet6, World, Os, History, recvfrom, ◌>>=◌}
use libcomm.Memory.{is_live, FreshBlocks, FreshSockets, RecvfromFits}
use libcomm.Returns.{Returns}
use libcomm.Threads.{running}
use libcomm.Datagram
use libcomm.Datagram.{Heap, init, uninit, recv_task, receive}
use libcomm.Datagram.Laws.{IsKind, Failing}
use libcomm.Datagram.Life.{Unchanged}
use libcomm.Datagram.Init.{init-uninit-Unchanged}
use libcomm.Datagram.Receive.{Ready}
use libcomm.Datagram.RecvTask.{FiniteDatagrams, Ended, recv_task-exits}
use libcomm.Datagram.Poll.{Polled, receive-Polled}
use libcomm.Udp
use libcomm.Udp.Kind as UdpKind
use libcomm.IpcDgram
use libcomm.IpcDgram.Kind as IpcKind
use libcomm.Raw
use libcomm.Raw.Kind as RawKind

pub data Protocol : Type 0 where
  udp_ipv4 udp_ipv6 ipc_dgram raw_sock : Protocol

abbrev pub Place : Protocol → Type 0
Place udp_ipv4 = Address
Place udp_ipv6 = Address
Place ipc_dgram = Address
Place raw_sock = Raw.Device

-- The path of a UNIX socket fits its address.
abbrev pub FitsPlace : (s : Protocol) → Place s → Type 0
FitsPlace ipc_dgram a = IpcKind.FitsPath a
FitsPlace udp_ipv4 a = Unit {0}
FitsPlace udp_ipv6 a = Unit {0}
FitsPlace raw_sock a = Unit {0}

abbrev pub endpoint : Os → (s : Protocol) → Datagram.Kind (Place s)
endpoint os udp_ipv4 = Udp.endpoint os inet
endpoint os udp_ipv6 = Udp.endpoint os inet6
endpoint os ipc_dgram = IpcDgram.endpoint os
endpoint os raw_sock = Raw.endpoint os

module _ (os : Os) where
  endpoint-IsKind : (s : Protocol) → FreshSockets os → IsKind (endpoint os s) (FitsPlace s)
  endpoint-IsKind udp_ipv4 fresh = UdpKind.endpoint-IsKind os inet fresh
  endpoint-IsKind udp_ipv6 fresh = UdpKind.endpoint-IsKind os inet6 fresh
  endpoint-IsKind ipc_dgram fresh = IpcKind.endpoint-IsKind os fresh
  endpoint-IsKind raw_sock fresh = RawKind.endpoint-IsKind os fresh

  endpoint-Failing : (s : Protocol) → Failing (endpoint os s)
  endpoint-Failing udp_ipv4 v h = ground arith
  endpoint-Failing udp_ipv6 v h = ground arith
  endpoint-Failing ipc_dgram v h = h
  endpoint-Failing raw_sock v h = h

  -- If malloc gives fresh blocks, socket fresh descriptors, and the path of a UNIX socket is
  -- shorter than sun_path, then an endpoint of UDP, of a UNIX datagram socket or of a raw socket
  -- that is initialized and then un-initialized, with a receive callback or without, meets no
  -- fault and leaves the same memory allocated, and the same descriptors open but for 0, whether
  -- or not it could be opened.
  pub endpoint_restores :
      (s : Protocol) (place : Place s) (recv_func arg : ℕ) (w : World (Heap (Place s)))
      → FreshBlocks os
      → FreshSockets os
      → FitsPlace s place
      → Returns
          ((init os (endpoint os s) place recv_func arg >>= uninit os (endpoint os s)) w)
          (λ _. Unchanged w)
  endpoint_restores s place recv_func arg w blocks sockets fit =
      init-uninit-Unchanged os (endpoint os s) (endpoint-IsKind s sockets) place recv_func arg w fit
        blocks

  -- Take an allocated endpoint of UDP, of a UNIX datagram socket or of a raw socket that is
  -- running and has a receive callback, where recvfrom writes as many bytes as it says and at
  -- most those asked for. If its peers send finitely much, as a budget that each recvfrom on its
  -- socket that does not fail lowers, its receiving thread meets no fault and ends within more
  -- rounds than the budget: its loop is left or the thread cancelled. It allocates, frees, opens
  -- and closes nothing, changes no other endpoint and keeps the size of its buffer. If it leaves
  -- its loop, the endpoint is not running, and the messages handed to the callback are those
  -- received if they were before.
  pub endpoint-recv_task_exits :
      (s : Protocol) (p : ℕ) (budget : History → ℕ) (fuel : ℕ) (w : World (Heap (Place s)))
      → RecvfromFits os
      → Ready p w
      → FiniteDatagrams os (endpoint os s).fails (w.store p).fd budget
      → budget w.history < fuel
      → Returns
          (recv_task os (endpoint os s) fuel p w)
          (λ e w'. Ended (endpoint os s) p w e w' × (e ≢ running))
  endpoint-recv_task_exits s p budget fuel w fits =
      recv_task-exits os fits (endpoint os s) (endpoint-Failing s) p budget fuel w

  -- On an allocated endpoint of UDP, of a UNIX datagram socket or of a raw socket that has a
  -- descriptor and no callback, with a size that is not 0 and a buffer of at least that size, the
  -- receiving call meets no fault if recvfrom writes as many bytes as it says and at most those
  -- asked for. It makes one recvfrom and gives its result. Unless that is a failure, it is at
  -- most the size, and that many bytes at the front of the buffer are the message; after a
  -- failure the buffer is as before; its length never changes.
  pub endpoint-receive-Polled :
      (s : Protocol) (p : ℕ) (buffer : List ℕ) (size : ℕ) (w : World (Heap (Place s)))
      → RecvfromFits os
      → p ≢ 0
      → is_live w.history p ≡ true
      → is_negative (w.store p).fd ≡ false
      → (w.store p).p_recv_func ≡ 0
      → size ≢ 0
      → size ≤ length buffer
      → Returns (receive os (endpoint os s) p (some buffer) size w) (λ x w'.
        let r = os.reply w.history (recvfrom (w.store p).fd size) in
        (after : List ℕ) × (x ≡ (r.value, some after))
        × Polled (endpoint os s).fails size r.payload buffer r.value after
        × (w' ≡ record w { history = (recvfrom (w.store p).fd size, r) ∷ w.history }))
  endpoint-receive-Polled s p buffer size w fits =
      receive-Polled os fits (endpoint os s) (endpoint-Failing s) p buffer size w
