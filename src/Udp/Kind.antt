-- ===== src/Udp/Kind.antt =====
-- source/comm_udp.c: what the UDP sockets promise to the code that the endpoints share.
use libcomm.Prelude.{ℕ, ◌≡◌, refl, true, arith}
use libcomm.Os.{Address, World, Os, Family, SocketType}
use libcomm.Memory.{is_live, FreshSockets}
use libcomm.Returns.{Returns}
use libcomm.Datagram.{Heap}
use libcomm.Datagram.Laws.{Attempted, Closed, IsKind}
use libcomm.Udp.{open_socket, close_socket, endpoint}

module _ (os : Os) where
  open_socket-Attempted :
      (family : Family) (p : ℕ) (w : World (Heap Address))
      → FreshSockets os
      → is_live w.history p ≡ true
      → Returns (open_socket os family p w) (Attempted p w)
  unfolding open_socket
  open_socket-Attempted family p w fresh live =
      ground (arith, fresh w.history family SocketType.dgram)

  close_socket-Closed :
      (p : ℕ) (w : World (Heap Address))
      → is_live w.history p ≡ true
      → Returns (close_socket os p w) (λ _. Closed p w)
  unfolding close_socket
  close_socket-Closed p w live = ground arith

  pub endpoint-IsKind :
      (family : Family) → FreshSockets os → IsKind (endpoint os family) (λ _. Unit {0})
  endpoint-IsKind family fresh = record {
    opens = λ p w live _. open_socket-Attempted family p w fresh live;
    closes = close_socket-Closed;
    stops = λ p w live. (((λ r. refl), λ fd. refl), refl, refl);
    failing = λ v h. ground arith;
  }
