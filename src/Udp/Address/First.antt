-- ===== src/Udp/Address/First.antt =====
-- source/comm_udp.c: the search of `comm_udpIpv4GetAddr` and `comm_udpIpv6GetAddr` finds the first
-- interface that is wanted, and nothing else.
use libcomm.Prelude.{
  ℕ, ◌≡◌, ◌≢◌, ◌⊎◌, ◌↔◌, inl, inr, refl, ap, sym, subst, arith, ℤ, pos, minus_one, is_negative,
  false, List, [], ◌∷◌, ◌++◌, Option, none, some, replicate,
}
use libcomm.Os.{Address, Family, Interface, Reply, World, Os, getifaddrs}
use libcomm.Udp.Address.{address_size, address_bytes, find_address, get_addr}
use libcomm.Udp.Address.Search.{
  IsWanted, Unwanted, unwanted_test, same_text_sound, same_text_refl, find_address-first,
  find_address-none,
}

-- An interface that is wanted, with none wanted before it.
abbrev pub First : Family → List ℕ → List Interface → List ℕ → Type 0
First family name all bytes =
    (before : List Interface) × (i : Interface) × (a : Address) × (after : List Interface) × (all
      ≡ before ++ i ∷ after)
    × Unwanted family name before
    × IsWanted family name i a
    × (bytes ≡ address_bytes family i a)

-- What an interface is for the search.
abbrev LookedAt : Family → List ℕ → Interface → Type 0
LookedAt family name i =
    (i.address ≡ none)
    ⊎ ((a : Address) × IsWanted family name i a)
    ⊎ ((a : Address) × (i.address ≡ some a) × ((a.family ≢ family) ⊎ (i.name ≢ name)))

same_family : (f g : Family) → (f ≡ g) ⊎ (f ≢ g)
same_family f g = ground arith

same_name : (xs ys : List ℕ) → (xs ≡ ys) ⊎ (xs ≢ ys)
same_name xs ys = ground (arith, same_text_sound xs ys, same_text_refl xs)

looked_at : (family : Family) (name : List ℕ) (i : Interface) → LookedAt family name i
looked_at family name i = at i.address refl
  where
    at : (o : Option Address) → i.address ≡ o → LookedAt family name i
    at none e = inl e
    at (some a) e = elim (same_family a.family family) [
      | inr n ↦ inr (inr (a, e, inl n))
      | inl f ↦ elim (same_name i.name name) [
        | inr n ↦ inr (inr (a, e, inr n))
        | inl n ↦ inr (inl (a, (e, f, n)))
      ]
    ]

find_address_cases :
    (family : Family) (name : List ℕ) (all : List Interface)
    → Unwanted family name all
      ⊎ ((bytes : List ℕ) × First family name all bytes)
      ⊎ (find_address family name all ≡ none)
find_address_cases family name [] = inl tt
find_address_cases family name (i ∷ rest) = elim (looked_at family name i) [
  | inl e ↦ inr (inr (rw e refl))
  | inr (inl (a, h)) ↦ inr (inl (address_bytes family i a, ([], i, a, rest, refl, tt, h, refl)))
  | inr (inr u) ↦ elim (find_address_cases family name rest) [
    | inl us ↦ inl (u, us)
    | inr (inl (bytes, (before, j, a, after, e, us, h, b))) ↦
        inr (inl (bytes, (i ∷ before, j, a, after, ap (λ l. i ∷ l) e, (u, us), h, b)))
    | inr (inr e) ↦ inr (inr (rw (u.1, unwanted_test family name i u.0 u.2) e))
  ]
]

module _ {S : Type 0} (os : Os) (w : World S) (family : Family) (name : List ℕ) where
  abbrev listed : Reply
  listed = os.reply w.history getifaddrs

  abbrev result : Option (List ℕ) → ℤ × List ℕ
  result none = (minus_one, replicate (address_size family) 0)
  result (some bytes) = (pos 0, bytes)

  get_addr-some :
      (o : Option (List ℕ))
      → is_negative listed.value ≡ false
      → find_address family name listed.interfaces ≡ some o
      → (w' : World S) × (get_addr os family name w ≡ some (result o, w'))
  unfolding get_addr
  get_addr-some none good e = rw (good, e) (_, refl)
  get_addr-some (some bytes) good e = rw (good, e) (_, refl)

  get_addr-fault :
      is_negative listed.value ≡ false
      → find_address family name listed.interfaces ≡ none
      → get_addr os family name w ≡ none
  unfolding get_addr
  get_addr-fault good e = rw (good, e) refl

  -- If getifaddrs does not fail, comm_udpIpv4GetAddr or comm_udpIpv6GetAddr returns a result x
  -- exactly if x is -1 with zero bytes, and every interface listed has an address and none is of
  -- the family and the name asked for; or x is 0 with the bytes of the address of an interface of
  -- that family and name, and every interface listed before it has an address and is not of that
  -- family and name. In every other case it meets a fault.
  pub get_addr-First :
      (x : ℤ × List ℕ)
      → is_negative listed.value ≡ false
      → ((w' : World S) × (get_addr os family name w ≡ some (x, w'))) ↔ (
          ((x ≡ (minus_one, replicate (address_size family) 0))
            × Unwanted family name listed.interfaces)
          ⊎ ((x.0 ≡ pos 0) × First family name listed.interfaces x.1))
  get_addr-First x good = (found, written)
    where
      Outcome : Type 0
      Outcome =
          ((x ≡ (minus_one, replicate (address_size family) 0))
            × Unwanted family name listed.interfaces)
          ⊎ ((x.0 ≡ pos 0) × First family name listed.interfaces x.1)

      same :
          (o : Option (List ℕ)) (w' : World S)
          → get_addr os family name w ≡ some (x, w')
          → find_address family name listed.interfaces ≡ some o
          → x ≡ result o
      same o w' e f = let (w'', e') = get_addr-some o good f in cc

      found_first :
          (bytes : List ℕ)
          → First family name listed.interfaces bytes
          → find_address family name listed.interfaces ≡ some (some bytes)
      found_first bytes (before, i, a, after, e, u, h, b) =
          rw (e, b) (find_address-first family name before i a after u h)

      as_first :
          (bytes : List ℕ)
          → First family name listed.interfaces bytes
          → x ≡ (pos 0, bytes)
          → (x.0 ≡ pos 0) × First family name listed.interfaces x.1
      as_first bytes f e = rw e (refl, f)

      found : (w' : World S) × (get_addr os family name w ≡ some (x, w')) → Outcome
      found (w', e) = elim (find_address_cases family name listed.interfaces) [
        | inl u ↦ inl (same none w' e (find_address-none family name listed.interfaces u), u)
        | inr (inl (bytes, f)) ↦
            inr (as_first bytes f (same (some bytes) w' e (found_first bytes f)))
        | inr (inr e') ↦ cc (get_addr-fault good e')
      ]

      written : Outcome → (w' : World S) × (get_addr os family name w ≡ some (x, w'))
      written (inl (e, u)) =
          rw e (get_addr-some none good (find_address-none family name listed.interfaces u))
      written (inr (z, f)) =
          subst (λ y. (w' : World S) × (get_addr os family name w ≡ some (y, w')))
            (ap (λ n. (n, x.1)) (sym z)) (get_addr-some (some x.1) good (found_first x.1 f))
