-- ===== src/Zoom.antt =====
-- Code on one part of a memory, run on the whole of it.
use libcomm.Prelude.{Option, none, some}
use libcomm.Os.{World, M}
use libcomm.Returns.{Returns}

module _ {S T : Type 0} (get : S → T) (put : T → S → S) where
  abbrev pub view : World S → World T
  view w = record { history = w.history; store = get w.store }

  abbrev pub restore : World S → World T → World S
  restore w t = record { history = t.history; store = put t.store w.store }

  unfoldable pub zoom : {A : Type 0} → M T A → M S A
  zoom m w = elim (m (view w)) [ none ↦ none | some (a, t) ↦ some (a, restore w t) ]

  pub Returns-zoom :
      {A : Type 0} (m : M T A) (w : World S) (P : A → World T → Type 0) (Q : A → World S → Type 0)
      → Returns (m (view w)) P
      → ((a : A) (t : World T) → P a t → Q a (restore w t))
      → Returns (zoom m w) Q
  unfolding zoom
  Returns-zoom m w P Q h k = go (m (view w)) h
    where
      go :
          (r : Option (_ × World T))
          → Returns r P
          → Returns (elim r [ none ↦ none | some (a, t) ↦ some (a, restore w t) ]) Q
      go none h = h
      go (some (a, t)) h = k a t h
