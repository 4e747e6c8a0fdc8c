-- ===== src/Raw/Kind.antt =====
-- source/comm_raw.c: what the raw sockets promise to the code that the endpoints share.
use libcomm.Prelude.{ℕ, ◌≡◌, true, arith}
use libcomm.Os.{World, Os, Family, SocketType}
use libcomm.Memory.{is_live, FreshSockets}
use libcomm.Returns.{Returns}
use libcomm.Datagram.{Heap}
use libcomm.Datagram.Laws.{Attempted, Closed, IsKind, SameUse}
use libcomm.Raw.{Device, open_socket, close_socket, promisc_mode, leave_promisc, endpoint}

module _ (os : Os) where
  open_socket-Attempted :
      (p : ℕ) (w : World (Heap Device))
      → FreshSockets os
      → is_live w.history p ≡ true
      → Returns (open_socket os p w) (Attempted p w)
  unfolding open_socket
  open_socket-Attempted p w fresh live =
      ground (arith, fresh w.history Family.packet SocketType.raw)

  close_socket-Closed :
      (p : ℕ) (w : World (Heap Device))
      → is_live w.history p ≡ true
      → Returns (close_socket os p w) (λ _. Closed p w)
  unfolding close_socket
  close_socket-Closed p w live = ground arith

  leave_promisc-SameUse :
      (p : ℕ) (w : World (Heap Device))
      → is_live w.history p ≡ true
      → Returns (leave_promisc os p w) (λ _ w'.
        SameUse w w'
        × ((w'.store p).fd ≡ (w.store p).fd)
        × ((w'.store p).p_recv_func ≡ (w.store p).p_recv_func))
  unfolding leave_promisc promisc_mode
  leave_promisc-SameUse p w live = ground arith

  pub endpoint-IsKind : FreshSockets os → IsKind (endpoint os) (λ _. Unit {0})
  endpoint-IsKind fresh = record {
    opens = λ p w live _. open_socket-Attempted p w fresh live;
    closes = close_socket-Closed;
    stops = leave_promisc-SameUse;
    failing = λ v h. h;
  }
