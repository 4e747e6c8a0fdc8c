-- ===== src/Raw.antt =====
-- source/comm_raw.c: the raw sockets, each on a network interface.
pub mod Kind
pub mod Flags
use libcomm.Prelude.{
  ℕ, ◌+◌, ◌-◌, ◌/◌, ◌%◌, ◌^◌, ℤ, pos, minus_one, is_negative, is_positive, is_zero, not, [], ◌∷◌,
  List, Option, none, some, take, replicate, length, ltb, ◌==◌, if◌then◌else◌,
}
use libcomm.Os.{
  Address, Family, SocketType, Query, Os, pure, fault, ◌>>=◌, ◌>>◌, when, call, perform, socket,
  close, sendto, interface_get, interface_set_flags,
}
use libcomm.Threads.{Ending}
use libcomm.Datagram
use libcomm.Datagram.{load, save}

-- What a `tRawContext` holds of its network interface.
pub record Device : Type 0 where
  pub if_name : List ℕ
  pub if_index : ℕ
  pub if_mtu : ℕ
  pub if_hw_addr : List ℕ
  pub promisc : ℤ

abbrev pub Context : Type 0
Context = Datagram.Context Device

abbrev pub Act : Type 0 → Type 0
Act A = Datagram.Act Device A

-- IFNAMSIZ and ETH_ALEN.
abbrev pub ifnamsiz : ℕ
ifnamsiz = 16

abbrev pub eth_alen : ℕ
eth_alen = 6

-- ETH_P_IP.
abbrev pub eth_p_ip : ℕ
eth_p_ip = 2048

-- `ETH_DEVICE` is "eth0".
abbrev pub eth_device : List ℕ
eth_device = 101 ∷ 116 ∷ 104 ∷ 48 ∷ []

-- `strncpy` into the context that `memset` cleared.
unfoldable pub new_device : Option (List ℕ) → Device
new_device eth_dev = record {
  if_name = take ifnamsiz (elim eth_dev [ none ↦ eth_device | some name ↦ name ]);
  if_index = 0;
  if_mtu = 0;
  if_hw_addr = replicate eth_alen 0;
  promisc = pos 0;
}

-- `flags | 2 ^ k` and `flags & ~(2 ^ k)`.
abbrev pub set_bit : ℕ → ℕ → ℕ
set_bit k flags = if (flags / 2 ^ k) % 2 == 0 then flags + 2 ^ k else flags

abbrev pub clear_bit : ℕ → ℕ → ℕ
clear_bit k flags = if (flags / 2 ^ k) % 2 == 0 then flags else flags - 2 ^ k

-- IFF_UP is bit 0 and IFF_PROMISC bit 8.
unfoldable pub new_flags : ℤ → ℕ → ℕ
new_flags enable flags =
    let up = set_bit 0 flags in if is_zero enable then clear_bit 8 up else set_bit 8 up

module _ (os : Os) where
  abbrev pub give_up : ℤ → Act ℤ
  give_up fd = do perform os (close fd); pure minus_one

  -- socket and three ioctls: 0, or -1 with nothing kept open.
  unfoldable pub open_socket : ℕ → Act ℤ
  open_socket p = do
    s ← call os (socket Family.packet SocketType.raw)
    if is_negative s.value then pure minus_one else (do
      c ← load p
      let name = take ifnamsiz c.place.if_name
      i ← call os (interface_get s.value Query.index name)
      if is_negative i.value then give_up s.value else (do
        let d1 : Device = record c.place { if_index = i.pointer }
        save p (record c { place = d1 })
        m ← call os (interface_get s.value Query.mtu name)
        if is_negative m.value then give_up s.value else (do
          let d2 : Device = record d1 { if_mtu = m.pointer }
          save p (record c { place = d2 })
          a ← call os (interface_get s.value Query.hw_addr name)
          if is_negative a.value then give_up s.value else (do
            let d3 : Device = record d2 { if_hw_addr = take eth_alen a.payload }
            save p (record c { place = d3; fd = s.value })
            pure (pos 0)))))

  unfoldable pub close_socket : ℕ → Act (Unit {0})
  close_socket p = do
    c ← load p
    when (is_positive c.fd) (do perform os (close c.fd); save p (record c { fd = minus_one }))

  unfoldable pub promisc_mode : ℕ → ℤ → Act ℤ
  promisc_mode p enable = if p == 0 then pure minus_one else (do
    c ← load p
    if is_negative c.fd then pure minus_one else (do
      let name = take ifnamsiz c.place.if_name
      f ← call os (interface_get c.fd Query.flags name)
      if is_negative f.value then pure minus_one else (do
        s ← call os (interface_set_flags c.fd name (new_flags enable f.pointer))
        if is_negative s.value then pure minus_one else (do
          save p (record c { place = record c.place { promisc = enable } })
          pure (pos 0)))))

  -- What comes between `running = 0` and `_rawUninit`.
  unfoldable pub leave_promisc : ℕ → Act (Unit {0})
  leave_promisc p = do
    c ← load p
    when (not (is_zero c.place.promisc)) (promisc_mode p (pos 0) >> pure tt)

  -- `len < 0` ends the receiving, and the callback is told nothing of the source.
  abbrev pub endpoint : Datagram.Kind Device
  endpoint = record {
    open_socket = open_socket;
    stop = leave_promisc;
    close_socket = close_socket;
    fails = is_negative;
    sender = λ _. none;
  }

  -- `none` is a NULL `pEthDev`.
  abbrev pub init : Option (List ℕ) → ℕ → ℕ → Act ℕ
  init eth_dev = Datagram.init os endpoint (new_device eth_dev)

  abbrev pub uninit : ℕ → Act (Unit {0})
  uninit = Datagram.uninit os endpoint

  abbrev pub recv_task : ℕ → ℕ → Act Ending
  recv_task = Datagram.recv_task os endpoint

  abbrev pub receive : ℕ → Option (List ℕ) → ℕ → Act (ℤ × Option (List ℕ))
  receive = Datagram.receive os endpoint

  -- The destination is read from the first 6 bytes of `pData`, whatever `size` is.
  unfoldable pub send_frame : ℕ → Option (List ℕ) → ℕ → Act ℤ
  send_frame p p_data size = if p == 0 then pure minus_one else (do
    c ← load p
    if is_negative c.fd then pure minus_one else elim p_data [
      | none ↦ pure minus_one
      | some bytes ↦
          if size == 0 then pure minus_one else if ltb (length bytes) eth_alen then fault else (do
            let remote : Address = record {
              family = Family.packet;
              host = c.place.if_index;
              port = eth_p_ip;
              path = take eth_alen bytes;
            }
            r ← call os (sendto c.fd (take size bytes) remote)
            pure r.value)
    ])

  -- The MTU, or 0.
  unfoldable pub get_mtu : ℕ → Act ℕ
  get_mtu p =
      if p == 0
      then pure 0
      else (do c ← load p; if is_negative c.fd then pure 0 else pure c.place.if_mtu)

  -- The bytes that the result points to, or `none` for NULL.
  unfoldable pub get_hw_addr : ℕ → Act (Option (List ℕ))
  get_hw_addr p =
      if p == 0
      then pure none
      else (do c ← load p; if is_negative c.fd then pure none else pure (some c.place.if_hw_addr))
