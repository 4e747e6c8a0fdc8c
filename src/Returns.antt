-- ===== src/Returns.antt =====
-- Statements about every outcome of a run, with the rules that prove them along the code.
use libcomm.Prelude.{ℕ, Bool, true, false, Option, none, some, ◌≡◌, if◌then◌else◌}
use libcomm.Os.{World, M, ◌>>=◌}
use libcomm.Memory.{is_live, touch}

-- The outcome of a run: it meets no fault, and the result and the world satisfy `P`.
abbrev pub Returns : {S A : Type 0} → Option (A × World S) → (A → World S → Type 0) → Type 0
Returns none P = ⊥
Returns (some (a, w)) P = P a w

pub Returns-bind :
    {S A B : Type 0} (m : M S A) (f : A → M S B) (w : World S) (Q : A → World S → Type 0)
    (P : B → World S → Type 0)
    → Returns (m w) Q
    → ((a : A) (w' : World S) → Q a w' → Returns (f a w') P)
    → Returns ((m >>= f) w) P
Returns-bind {S} {A} m f w Q P = go (m w)
  where
    go :
        (r : Option (A × World S))
        → Returns r Q
        → ((a : A) (w' : World S) → Q a w' → Returns (f a w') P)
        → Returns (let m' : M S A = λ _. r in (m' >>= f) w) P
    go none h k = h
    go (some (a, w')) h k = k a w' h

pub Returns-mono :
    {S A : Type 0} (r : Option (A × World S)) (P Q : A → World S → Type 0)
    → Returns r P
    → ((a : A) (w : World S) → P a w → Q a w)
    → Returns r Q
Returns-mono none P Q h k = h
Returns-mono (some (a, w)) P Q h k = k a w h

pub Returns-both :
    {S A : Type 0} (r : Option (A × World S)) (P Q R : A → World S → Type 0)
    → Returns r P
    → Returns r Q
    → ((a : A) (w : World S) → P a w → Q a w → R a w)
    → Returns r R
Returns-both none P Q R h k l = h
Returns-both (some (a, w)) P Q R h k l = l a w h k

module _ {S A : Type 0} where
  pub Returns-if :
      (b : Bool) (m k : M S A) (w : World S) (P : A → World S → Type 0)
      → (b ≡ true → Returns (m w) P)
      → (b ≡ false → Returns (k w) P)
      → Returns ((if b then m else k) w) P
  Returns-if true m k w P h l = h (λ i. true)
  Returns-if false m k w P h l = l (λ i. false)

  -- A use of memory that is allocated goes on.
  pub Returns-touch :
      {B : Type 0} (p : ℕ) (f : World S → B × World S) (k : B → M S A) (w : World S)
      (P : A → World S → Type 0)
      → is_live w.history p ≡ true
      → Returns (k (f w).0 (f w).1) P
      → Returns ((touch p f >>= k) w) P
  Returns-touch p f k w P live h = rw (live, Returns) h
