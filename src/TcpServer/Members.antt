-- ===== src/TcpServer/Members.antt =====
-- The abstract view of the users of a server in source/comm_tcp_server.c: a list in which each user
-- stands once, the newest first.
use libcomm.Prelude.{ℕ, suc, ◌≡◌, ◌≢◌, ◌⊎◌, inl, inr, refl, ap, sym, ◌∙◌, List, [], ◌∷◌, length}
use native.Mathlib.Decide.{ℕ_discrete}

abbrev pub Member : ℕ → List ℕ → Type 0
Member q [] = ⊥
Member q (x ∷ xs) = (q ≡ x) ⊎ Member q xs

abbrev pub Distinct : List ℕ → Type 0
Distinct [] = Unit {0}
Distinct (x ∷ xs) = (Member x xs → ⊥) × Distinct xs

-- The list without `q`.
abbrev pub remove : ℕ → List ℕ → List ℕ
remove q [] = []
remove q (x ∷ xs) = elim (ℕ_discrete x q) [ yes e ↦ xs | no n ↦ x ∷ remove q xs ]

pub Member-remove : (q r : ℕ) (xs : List ℕ) → Member r xs → r ≢ q → Member r (remove q xs)
Member-remove q r [] m ne = elim m [ ]
Member-remove q r (x ∷ xs) m ne =
    elim (ℕ_discrete x q) as (λ d. Member r (elim d [ yes e ↦ xs | no n ↦ x ∷ remove q xs ])) [
      | yes e ↦ elim m [ inl h ↦ absurd (ne (h ∙ e)) | inr h ↦ h ]
      | no n ↦ elim m [ inl h ↦ inl h | inr h ↦ inr (Member-remove q r xs h ne) ]
    ]

pub remove-Member : (q r : ℕ) (xs : List ℕ) → Member r (remove q xs) → Member r xs
remove-Member q r [] = λ m. m
remove-Member q r (x ∷ xs) =
    elim (ℕ_discrete x q)
      as (λ d. Member r (elim d [ yes e ↦ xs | no n ↦ x ∷ remove q xs ]) → Member r (x ∷ xs)) [
        | yes e ↦ λ m. inr m
        | no n ↦ λ m. elim m [ inl h ↦ inl h | inr h ↦ inr (remove-Member q r xs h) ]
      ]

pub remove_gone : (q : ℕ) (xs : List ℕ) → Distinct xs → Member q (remove q xs) → ⊥
remove_gone q [] d = λ m. m
remove_gone q (x ∷ xs) (apart, rest) =
    elim (ℕ_discrete x q) as (λ d. Member q (elim d [ yes e ↦ xs | no n ↦ x ∷ remove q xs ]) → ⊥) [
      | yes e ↦ λ m. apart (rw e m)
      | no n ↦ λ m. elim m [ inl h ↦ n (sym h) | inr h ↦ remove_gone q xs rest h ]
    ]

pub remove-Distinct : (q : ℕ) (xs : List ℕ) → Distinct xs → Distinct (remove q xs)
remove-Distinct q [] d = d
remove-Distinct q (x ∷ xs) (apart, rest) =
    elim (ℕ_discrete x q) as (λ d. Distinct (elim d [ yes e ↦ xs | no n ↦ x ∷ remove q xs ])) [
      | yes e ↦ rest
      | no n ↦ (λ m. apart (remove-Member q x xs m), remove-Distinct q xs rest)
    ]

pub length-remove : (q : ℕ) (xs : List ℕ) → Member q xs → suc (length (remove q xs)) ≡ length xs
length-remove q [] m = elim m [ ]
length-remove q (x ∷ xs) m =
    elim (ℕ_discrete x q)
      as (λ d. suc (length (elim d [ yes e ↦ xs | no n ↦ x ∷ remove q xs ])) ≡ length (x ∷ xs)) [
        | yes e ↦ refl
        | no n ↦ elim m [ inl h ↦ absurd (n (sym h)) | inr h ↦ ap suc (length-remove q xs h) ]
      ]

pub remove_missing : (q : ℕ) (xs : List ℕ) → (Member q xs → ⊥) → remove q xs ≡ xs
remove_missing q [] h = refl
remove_missing q (x ∷ xs) h =
    elim (ℕ_discrete x q) as (λ d. (elim d [ yes e ↦ xs | no n ↦ x ∷ remove q xs ]) ≡ x ∷ xs) [
      | yes e ↦ absurd (h (inl (sym e)))
      | no n ↦ ap (λ ys. x ∷ ys) (remove_missing q xs (λ m. h (inr m)))
    ]
