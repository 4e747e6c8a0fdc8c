-- ===== src/TcpServer/Table.antt =====
-- The table `pUser` of source/comm_tcp_server.c: what its two loops find and write.
use libcomm.Prelude.{
  ℕ, zero, suc, ◌≤◌, ◌<◌, ◌≡◌, ◌≢◌, refl, inl, inr, List, [], ◌∷◌, none, some, arith, ◌==◌,
  if◌then◌else◌, get_or, set, length, Bool-cases, Option-cases,
}
use libcomm.TcpServer.{free_slot, clear_slot}

-- How many of the first `n` slots hold a user.
pub occupied : ℕ → List ℕ → ℕ
occupied zero slots = 0
occupied (suc n) [] = 0
occupied (suc n) (q ∷ slots) = if q == 0 then occupied n slots else suc (occupied n slots)

pub occupied-le : (n : ℕ) (slots : List ℕ) → occupied n slots ≤ n
unfolding occupied
occupied-le zero slots = omega arith
occupied-le (suc n) [] = omega arith
occupied-le (suc n) (q ∷ slots) = ground (arith, occupied-le n slots)

pub occupied-zero :
    (n q : ℕ) (slots : List ℕ) → occupied (suc n) (q ∷ slots) ≡ 0 → (q ≡ 0) × (occupied n slots ≡ 0)
unfolding occupied
occupied-zero n q slots e = ground arith

pub occupied-empty :
    (n : ℕ) (slots : List ℕ) → ((i : ℕ) → get_or slots i 0 ≡ 0) → occupied n slots ≡ 0
unfolding occupied
occupied-empty zero slots h = refl
occupied-empty (suc n) [] h = refl
occupied-empty (suc n) (q ∷ slots) h = ground (arith, h 0, occupied-empty n slots (λ i. h (suc i)))

pub free_slot-some :
    (n : ℕ) (slots : List ℕ) (i : ℕ)
    → free_slot n slots ≡ some i
    → (i < n) × (i < length slots) × (get_or slots i 0 ≡ 0)
unfolding free_slot
free_slot-some zero slots i e = cc
free_slot-some (suc n) [] i e = cc
free_slot-some (suc n) (q ∷ slots) zero e = ground arith
free_slot-some (suc n) (q ∷ slots) (suc i) e = ground (arith, free_slot-some n slots i)

-- The loop finds no slot only if all are taken.
pub free_slot-none :
    (n : ℕ) (slots : List ℕ) → n ≤ length slots → free_slot n slots ≡ none → occupied n slots ≡ n
unfolding free_slot occupied
free_slot-none zero slots h e = refl
free_slot-none (suc n) [] h e = absurd (omega arith)
free_slot-none (suc n) (q ∷ slots) h e = ground (arith, free_slot-none n slots)

pub occupied-set :
    (n : ℕ) (slots : List ℕ) (i q : ℕ)
    → i < n
    → i < length slots
    → get_or slots i 0 ≡ 0
    → q ≢ 0
    → occupied n (set slots i q) ≡ suc (occupied n slots)
unfolding occupied
occupied-set zero slots i q h k e f = absurd (omega arith)
occupied-set (suc n) [] i q h k e f = absurd (omega arith)
occupied-set (suc n) (r ∷ slots) zero q h k e f = ground arith
occupied-set (suc n) (r ∷ slots) (suc i) q h k e f = ground (arith, occupied-set n slots i q)

pub occupied-clear :
    (n : ℕ) (slots : List ℕ) (i : ℕ)
    → i < n
    → get_or slots i 0 ≢ 0
    → suc (occupied n (set slots i 0)) ≡ occupied n slots
unfolding occupied
occupied-clear zero slots i h e = absurd (omega arith)
occupied-clear (suc n) [] i h e = absurd (e refl)
occupied-clear (suc n) (r ∷ slots) zero h e = ground arith
occupied-clear (suc n) (r ∷ slots) (suc i) h e = ground (arith, occupied-clear n slots i)

-- A cleared slot held the pointer, and the other slots are as before.
pub clear_slot-some :
    (p n : ℕ) (slots rest : List ℕ)
    → clear_slot p n slots ≡ some rest
    → (i : ℕ) × (i < n) × (i < length slots) × (get_or slots i 0 ≡ p) × (rest ≡ set slots i 0)
unfolding clear_slot
clear_slot-some p zero slots rest e = cc
clear_slot-some p (suc n) [] rest e = cc
clear_slot-some p (suc n) (q ∷ slots) rest e = elim (Bool-cases (q == p)) [
  | inl same ↦ (0, ground arith, ground arith, ground arith, ground arith)
  | inr other ↦ elim (Option-cases (clear_slot p n slots)) [
    | inl gone ↦ absurd (ground arith)
    | inr (ys, found) ↦
        let (i, a, b, c, d) = clear_slot-some p n slots ys found in
        (suc i, ground arith, ground arith, c, ground arith)
  ]
]

pub clear_slot-none :
    (p n i : ℕ) (slots : List ℕ)
    → clear_slot p n slots ≡ none
    → i < n
    → i < length slots
    → get_or slots i 0 ≢ p
unfolding clear_slot
clear_slot-none p zero i slots e h k = absurd (omega arith)
clear_slot-none p (suc n) i [] e h k = absurd (omega arith)
clear_slot-none p (suc n) zero (q ∷ slots) e h k = ground arith
clear_slot-none p (suc n) (suc i) (q ∷ slots) e h k = ground (arith, clear_slot-none p n i slots)
