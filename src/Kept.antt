-- ===== src/Kept.antt =====
-- Code that leaves a part of the memory as it was, whenever it returns.
use libcomm.Prelude.{ℕ, Bool, true, false, Option, none, some, ◌≡◌, ◌∙◌, if◌then◌else◌}
use libcomm.Os.{World, M, when, ◌>>=◌}
use libcomm.Memory.{is_live, touch}
use libcomm.Returns.{Returns}
use libcomm.Zoom.{zoom}

-- What `f` reads of the memory after a run, if it meets no fault, is `v`.
abbrev pub Leaves : {S V A : Type 0} → (S → V) → V → Option (A × World S) → Type 0
Leaves f v none = Unit
Leaves f v (some (_, w)) = f w.store ≡ v

-- The action keeps `v` as what `f` reads.
abbrev pub Kept : {S V A : Type 0} → (S → V) → V → M S A → Type 0
Kept {S} f v m = (w : World S) → f w.store ≡ v → Leaves f v (m w)

module _ {S V : Type 0} (f : S → V) (v : V) where
  pub Kept-bind :
      {A B : Type 0} (m : M S A) (k : A → M S B)
      → Kept f v m
      → ((a : A) → Kept f v (k a))
      → Kept f v (m >>= k)
  Kept-bind {A} m k h l w e = go (m w) (h w e)
    where
      go :
          (r : Option (A × World S))
          → Leaves f v r
          → Leaves f v (let m' : M S A = λ _. r in (m' >>= k) w)
      go none _ = tt
      go (some (a, w')) e' = l a w' e'

  pub Kept-if :
      {A : Type 0} (b : Bool) (m k : M S A)
      → Kept f v m
      → Kept f v k
      → Kept f v (if b then m else k)
  Kept-if true m k h l = h
  Kept-if false m k h l = l

  pub Kept-when : (b : Bool) (m : M S (Unit {0})) → Kept f v m → Kept f v (when b m)
  Kept-when true m h w e = h w e
  Kept-when false m h w e = e

  pub Kept-touch :
      {A : Type 0} (p : ℕ) (g : World S → A × World S)
      → ((w : World S) → f (g w).1.store ≡ f w.store)
      → Kept f v (touch p g)
  Kept-touch {A} p g h w e = go (is_live w.history p)
    where
      go : (b : Bool) → Leaves f v (elim b [ true ↦ some (g w) | false ↦ none ])
      go true = h w ∙ e
      go false = tt

  pub Kept-zoom :
      {T A : Type 0} (get : S → T) (put : T → S → S) (m : M T A)
      → ((t : T) (s : S) → f (put t s) ≡ f s)
      → Kept f v (zoom get put m)
  unfolding zoom
  Kept-zoom {T} {A} get put m h w e = go (m _)
    where
      go :
          (r : Option (A × World T))
          → Leaves f v (elim r [
            | none ↦ none
            | some (a, t) ↦ some (a, record { history = t.history; store = put t.store w.store })
          ])
      go none = tt
      go (some (a, t)) = h t.store w.store ∙ e

  -- A run that meets no fault keeps it.
  pub Returns-Kept :
      {A : Type 0} (r : Option (A × World S)) (P : A → World S → Type 0)
      → Returns r P
      → Leaves f v r
      → Returns r (λ a w'. P a w' × (f w'.store ≡ v))
  Returns-Kept none P h l = h
  Returns-Kept (some _) P h l = (h, l)

-- And so for all that several functions read.
pub Returns-all-Kept :
    {S V A I : Type 0} (f : I → S → V) (v : I → V) (r : Option (A × World S))
    (P : A → World S → Type 0)
    → Returns r P
    → ((i : I) → Leaves (f i) (v i) r)
    → Returns r (λ a w'. P a w' × ((i : I) → f i w'.store ≡ v i))
Returns-all-Kept f v none P h l = h
Returns-all-Kept f v (some _) P h l = (h, l)
