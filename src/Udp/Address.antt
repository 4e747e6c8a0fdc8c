-- ===== src/Udp/Address.antt =====
-- source/comm_udp.c: `comm_udpIpv4GetAddr` and `comm_udpIpv6GetAddr`, the address of a local interface.
pub mod Search
pub mod First
use libcomm.Prelude.{
  ℕ, ◌+◌, ◌*◌, ◌/◌, ◌%◌, ◌^◌, ◌<◌, ℤ, pos, minus_one, is_negative, Bool, true, false, ◌&&◌, List,
  [], ◌∷◌, Option, none, some, take, replicate, ◌==◌, if◌then◌else◌,
}
use libcomm.Os.{
  Address, Family, inet, inet6, unix, packet, netlink, Interface, Os, M, pure, fault, ◌>>=◌, ◌>>◌,
  call, perform, getifaddrs, freeifaddrs,
}

-- The result of `strcmp` is 0.
abbrev pub same_text : List ℕ → List ℕ → Bool
same_text [] [] = true
same_text [] (y ∷ ys) = false
same_text (x ∷ xs) [] = false
same_text (x ∷ xs) (y ∷ ys) = (x == y) && same_text xs ys

abbrev pub family_number : Family → ℕ
family_number inet = 2
family_number inet6 = 10
family_number unix = 1
family_number packet = 17
family_number netlink = 16

-- How many bytes `memset` clears.
abbrev pub address_size : Family → ℕ
address_size inet6 = 16
address_size _ = 4

-- `(sinAddr >> 24) & 0xFF` and so on.
abbrev pub number_bytes : ℕ → List ℕ
number_bytes n = ((n / 2 ^ 24) % 256) ∷ ((n / 2 ^ 16) % 256) ∷ ((n / 2 ^ 8) % 256) ∷ (n % 256) ∷ []

-- What is written for an interface whose address is `a`.
abbrev pub address_bytes : Family → Interface → Address → List ℕ
address_bytes inet6 i a = take 16 i.bytes
address_bytes _ i a = number_bytes a.host

-- The interface is looked at through `ifa_addr`, which may be NULL: then the read is a fault.
-- Otherwise, what is written for the first interface of that family and name, if any.
abbrev pub find_address : Family → List ℕ → List Interface → Option (Option (List ℕ))
find_address family name [] = some none
find_address family name (i ∷ rest) = elim i.address [
  | none ↦ none
  | some a ↦ elim ((family_number a.family == family_number family) && same_text i.name name) [
    | true ↦ some (some (address_bytes family i a))
    | false ↦ find_address family name rest
  ]
]

-- The result, and the bytes left in the buffer.
unfoldable pub get_addr : {S : Type 0} → Os → Family → List ℕ → M S (ℤ × List ℕ)
get_addr os family name = do
  r ← call os getifaddrs
  if is_negative r.value
      then pure (minus_one, replicate (address_size family) 0)
      else elim (find_address family name r.interfaces) [
        | none ↦ fault
        | some none ↦ (do
          perform os freeifaddrs
          pure (minus_one, replicate (address_size family) 0))
        | some (some bytes) ↦ (do perform os freeifaddrs; pure (pos 0, bytes))
      ]
