-- ===== src/Udp.antt =====
-- source/comm_udp.c: the UDP endpoints. The IPv4 and the IPv6 half differ in the address family,
-- which is an argument here, and in `GetAddr`, which is in `Address`.
pub mod Kind
pub mod Address
pub mod Ipv6
use libcomm.Prelude.{
  ℕ, ℤ, pos, minus_one, is_negative, is_positive, not, [], List, Option, none, some, take, ◌==◌,
  if◌then◌else◌,
}
use libcomm.Os
use libcomm.Os.{
  Family, SocketType, Os, pure, skip, ◌>>=◌, ◌>>◌, when, call, perform, socket, bind, close, sendto,
}
use libcomm.Threads.{Ending}
use libcomm.Datagram
use libcomm.Datagram.{Act, load, save}

abbrev pub Context : Type 0
Context = Datagram.Context Os.Address

-- INADDR_ANY or in6addr_any.
abbrev pub any_address : Family → ℕ → Os.Address
any_address family port = record { family = family; host = 0; port = port; path = [] }

module _ (os : Os) where
  -- socket and bind: 0, or -1 with nothing kept open.
  unfoldable pub open_socket : Family → ℕ → Act Os.Address ℤ
  open_socket family p = do
    s ← call os (socket family SocketType.dgram)
    if is_negative s.value then pure minus_one else (do
      c ← load p
      b ← call os (bind s.value c.place)
      if is_negative b.value
          then (do perform os (close s.value); pure minus_one)
          else (do save p (record c { fd = s.value }); pure (pos 0)))

  unfoldable pub close_socket : ℕ → Act Os.Address (Unit {0})
  close_socket p = do
    c ← load p
    when (is_positive c.fd) (do perform os (close c.fd); save p (record c { fd = minus_one }))

  -- `len <= 0` ends the receiving, and the callback is told the source.
  abbrev pub endpoint : Family → Datagram.Kind Os.Address
  endpoint family = record {
    open_socket = open_socket family;
    stop = λ _. skip;
    close_socket = close_socket;
    fails = λ v. not (is_positive v);
    sender = some;
  }

  abbrev pub init : Family → ℕ → ℕ → ℕ → Act Os.Address ℕ
  init family port = Datagram.init os (endpoint family) (any_address family port)

  abbrev pub uninit : Family → ℕ → Act Os.Address (Unit {0})
  uninit family = Datagram.uninit os (endpoint family)

  abbrev pub recv_task : Family → ℕ → ℕ → Act Os.Address Ending
  recv_task family = Datagram.recv_task os (endpoint family)

  -- `comm_udpIpv4Recv` and `comm_udpIpv6Recv`.
  abbrev pub receive : Family → ℕ → Option (List ℕ) → ℕ → Act Os.Address (ℤ × Option (List ℕ))
  receive family = Datagram.receive os (endpoint family)

  -- `resolve` is `inet_addr` or `inet_pton`: the number of an address written as a string.
  unfoldable pub send_to :
      (Family → List ℕ → ℕ) → Family → ℕ → List ℕ → ℕ → Option (List ℕ) → ℕ → Act Os.Address ℤ
  send_to resolve family p ip port p_data size = if p == 0 then pure minus_one else (do
    c ← load p
    if is_negative c.fd then pure minus_one else elim p_data [
      | none ↦ pure minus_one
      | some bytes ↦ if size == 0 then pure minus_one else (do
        let remote : Os.Address = record {
          family = family;
          host = resolve family ip;
          port = port;
          path = [];
        }
        r ← call os (sendto c.fd (take size bytes) remote)
        pure r.value)
    ])
