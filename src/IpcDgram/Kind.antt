-- ===== src/IpcDgram/Kind.antt =====
-- source/comm_ipc_dgram.c: what the datagram sockets promise to the code that the endpoints share.
use libcomm.Prelude.{ℕ, ◌<◌, ◌≡◌, refl, true, arith, length, ◌∷◌}
use libcomm.Os.{Address, World, Os, Family, SocketType, History, unlink}
use libcomm.Memory.{is_live, FreshSockets}
use libcomm.Returns.{Returns}
use libcomm.IpcStreamClient.{sun_path_size}
use libcomm.Datagram.{Heap}
use libcomm.Datagram.Laws.{Attempted, Closed, IsKind}
use libcomm.IpcDgram.{open_socket, close_socket, endpoint}

-- The path and its terminator fit `sun_path`.
abbrev pub FitsPath : Address → Type 0
FitsPath a = length a.path < sun_path_size

module _ (os : Os) where
  open_socket-Attempted :
      (p : ℕ) (w : World (Heap Address))
      → FreshSockets os
      → is_live w.history p ≡ true
      → FitsPath (w.store p).place
      → Returns (open_socket os p w) (Attempted p w)
  unfolding open_socket
  open_socket-Attempted p w fresh live fit =
      ground (arith, fit, fresh h Family.unix SocketType.dgram)
    where
      h : History
      h = let c = unlink (w.store p).place.path in (c, os.reply w.history c) ∷ w.history

  close_socket-Closed :
      (p : ℕ) (w : World (Heap Address))
      → is_live w.history p ≡ true
      → Returns (close_socket os p w) (λ _. Closed p w)
  unfolding close_socket
  close_socket-Closed p w live = ground arith

  pub endpoint-IsKind : FreshSockets os → IsKind (endpoint os) FitsPath
  endpoint-IsKind fresh = record {
    opens = λ p w live fit. open_socket-Attempted p w fresh live fit;
    closes = close_socket-Closed;
    stops = λ p w live. (((λ r. refl), λ fd. refl), refl, refl);
    failing = λ v h. h;
  }
