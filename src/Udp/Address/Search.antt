-- ===== src/Udp/Address/Search.antt =====
-- source/comm_udp.c: which interface `comm_udpIpv4GetAddr` and `comm_udpIpv6GetAddr` find, and the
-- bytes that they write.
use libcomm.Prelude.{
  ℕ, ◌+◌, ◌*◌, ◌^◌, ◌<◌, ◌≡◌, ◌≢◌, ◌⊎◌, refl, arith, pos, minus_one, is_negative, true, false, ◌&&◌,
  List, [], ◌∷◌, ◌++◌, none, some, replicate, length, ◌==◌,
}
use libcomm.Os.{Address, Family, inet, Interface, Reply, World, Os, getifaddrs}
use libcomm.Returns.{Returns}
use libcomm.Udp.Address.{
  same_text, family_number, address_size, number_bytes, address_bytes, find_address, get_addr,
}

-- The number whose bytes are given, the most significant first.
abbrev pub bytes_number : List ℕ → ℕ → ℕ
bytes_number [] n = n
bytes_number (b ∷ bs) n = bytes_number bs (n * 256 + b)

number_bytes_lem : (n : ℕ) → n < 2 ^ 32 → bytes_number (number_bytes n) 0 ≡ n
number_bytes_lem n h = omega arith

pub same_text_sound : (xs ys : List ℕ) → same_text xs ys ≡ true → xs ≡ ys
same_text_sound [] [] h = refl
same_text_sound [] (y ∷ ys) h = cc
same_text_sound (x ∷ xs) [] h = cc
same_text_sound (x ∷ xs) (y ∷ ys) h = ground (arith, same_text_sound xs ys)

pub same_text_refl : (xs : List ℕ) → same_text xs xs ≡ true
same_text_refl [] = refl
same_text_refl (x ∷ xs) = ground (arith, same_text_refl xs)

pub family_number-injective : (f g : Family) → family_number f ≡ family_number g → f ≡ g
family_number-injective f g h = ground arith

-- An interface that has an address of that family, and that name.
abbrev pub IsWanted : Family → List ℕ → Interface → Address → Type 0
IsWanted family name i a = (i.address ≡ some a) × (a.family ≡ family) × (i.name ≡ name)

-- Every interface of the list has an address, and none is wanted.
abbrev pub Unwanted : Family → List ℕ → List Interface → Type 0
Unwanted family name [] = Unit {0}
Unwanted family name (i ∷ rest) =
    ((a : Address) × (i.address ≡ some a) × ((a.family ≢ family) ⊎ (i.name ≢ name)))
    × Unwanted family name rest

wanted_test :
    (family : Family) (name : List ℕ) (i : Interface) (a : Address)
    → IsWanted family name i a
    → ((family_number a.family == family_number family) && same_text i.name name) ≡ true
wanted_test family name i a (_, e, n) = rw (e, n) (ground (arith, same_text_refl name))

pub unwanted_test :
    (family : Family) (name : List ℕ) (i : Interface) (a : Address)
    → (a.family ≢ family) ⊎ (i.name ≢ name)
    → ((family_number a.family == family_number family) && same_text i.name name) ≡ false
unwanted_test family name i a h =
    ground (arith, same_text_sound i.name name, family_number-injective a.family family)

-- The first interface that is wanted is the one found.
pub find_address-first :
    (family : Family) (name : List ℕ) (before : List Interface) (i : Interface) (a : Address)
    (after : List Interface)
    → Unwanted family name before
    → IsWanted family name i a
    → find_address family name (before ++ i ∷ after) ≡ some (some (address_bytes family i a))
find_address-first family name [] i a after u h = ground (arith, h.0, wanted_test family name i a h)
find_address-first family name (j ∷ before) i a after ((b, e, n), u) h =
    rw (e, unwanted_test family name j b n) (find_address-first family name before i a after u h)

pub find_address-none :
    (family : Family) (name : List ℕ) (all : List Interface)
    → Unwanted family name all
    → find_address family name all ≡ some none
find_address-none family name [] u = refl
find_address-none family name (j ∷ rest) ((b, e, n), u) =
    rw (e, unwanted_test family name j b n) (find_address-none family name rest u)

module _ {S : Type 0} (os : Os) (w : World S) where
  -- The answer of `getifaddrs`.
  abbrev listed : Reply
  listed = os.reply w.history getifaddrs

  -- If getifaddrs does not fail, and the first interface of its list with an IPv4 address and the
  -- name asked for has an address below 2 ^ 32, with every interface before it having some
  -- address, comm_udpIpv4GetAddr meets no fault, gives 0 and writes four bytes that read back,
  -- the most significant first, as that address. It changes no other state.
  pub get_addr-host :
      (name : List ℕ) (before : List Interface) (i : Interface) (a : Address)
      (after : List Interface)
      → is_negative listed.value ≡ false
      → listed.interfaces ≡ before ++ i ∷ after
      → Unwanted inet name before
      → IsWanted inet name i a
      → a.host < 2 ^ 32
      → Returns (get_addr os inet name w) (λ x w'.
        (x.0 ≡ pos 0) × (length x.1 ≡ 4) × (bytes_number x.1 0 ≡ a.host) × (w'.store ≡ w.store))
  unfolding get_addr
  get_addr-host name before i a after good e u h small =
      ground
        (arith, find_address-first inet name before i a after u h, number_bytes_lem a.host small)

  -- If every interface that getifaddrs lists has an address, and none is of the family and the
  -- name asked for, comm_udpIpv4GetAddr or comm_udpIpv6GetAddr meets no fault, gives -1 and
  -- leaves the 4 or 16 bytes zero, whether or not getifaddrs fails. It changes no other state.
  get_addr-zero :
      (family : Family) (name : List ℕ)
      → Unwanted family name listed.interfaces
      → Returns
          (get_addr os family name w)
          (λ x w'. (x ≡ (minus_one, replicate (address_size family) 0)) × (w'.store ≡ w.store))
  unfolding get_addr
  get_addr-zero family name u = ground (arith, find_address-none family name listed.interfaces u)
