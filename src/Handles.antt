-- ===== src/Handles.antt =====
-- What the endpoints of source/ have in common: a handle is a block of memory with a descriptor,
-- which an initialization makes and an un-initialization takes away.
pub mod Make
use libcomm.Prelude.{
  ℕ, zero, suc, ◌≡◌, ◌≢◌, refl, sym, ◌∙◌, true, false, arith, ℤ, pos, is_negative, is_positive,
  eq_ℤ, eq_ℤ-sound, eq_ℤ-complete, Bool-cases, inl, inr, some,
}
use native.Mathlib.Decide.{ℕ_discrete}
use libcomm.Os.{History, World, M, ◌>>=◌}
use libcomm.Memory.{is_live, is_open}
use libcomm.Returns.{Returns, Returns-bind, Returns-mono}

-- The same memory is allocated, and the same descriptors are open.
abbrev pub Same : History → History → Type 0
Same h h' = ((r : ℕ) → is_live h' r ≡ is_live h r) × ((fd : ℤ) → is_open h' fd ≡ is_open h fd)

-- The same memory is allocated, and the same descriptors are open but for 0.
abbrev pub Unchanged : History → History → Type 0
Unchanged h h' =
    ((r : ℕ) → is_live h' r ≡ is_live h r) × ((fd : ℤ) → fd ≢ pos 0 → is_open h' fd ≡ is_open h fd)

-- The block `p` and the descriptor `fd` are new.
pub record Opened (p : ℕ) (fd : ℤ) (h h' : History) : Type 0 where
  pub newly : is_live h p ≡ false
  pub lives : is_live h' p ≡ true
  pub other_blocks : (r : ℕ) → r ≢ p → is_live h' r ≡ is_live h r
  pub valid : is_negative fd ≡ false
  pub fresh : is_open h fd ≡ false
  pub other_fds : (d : ℤ) → d ≢ fd → is_open h' d ≡ is_open h d

-- The block `p` is gone, and the descriptor `fd` is closed unless it is 0 or negative.
pub record Freed (p : ℕ) (fd : ℤ) (h h' : History) : Type 0 where
  pub gone : is_live h' p ≡ false
  pub other_blocks : (r : ℕ) → r ≢ p → is_live h' r ≡ is_live h r
  pub closed : is_positive fd ≡ true → is_open h' fd ≡ false
  pub other_fds : (d : ℤ) → d ≢ fd → is_open h' d ≡ is_open h d

pub Opened-Freed :
    (p : ℕ) (fd : ℤ) (h h1 h' : History) → Opened p fd h h1 → Freed p fd h1 h' → Unchanged h h'
Opened-Freed p fd h h1 h' o f = (
  λ r. elim (ℕ_discrete r p) [
    | yes e ↦ rw e (f.gone ∙ sym o.newly)
    | no ne ↦ f.other_blocks r ne ∙ o.other_blocks r ne
  ],
  λ d nz. elim (Bool-cases (eq_ℤ d fd)) [
    | inl e ↦ ground (arith, eq_ℤ-sound d fd e, o.valid, o.fresh, f.closed)
    | inr e ↦ let ne = eq_ℤ-complete d fd e in f.other_fds d ne ∙ o.other_fds d ne
  ],
)

-- What an initialization comes to, whose handle `q` has the descriptor `fd_of q`.
abbrev pub Initialized : {S : Type 0} → (S → ℕ → ℤ) → World S → ℕ → World S → Type 0
Initialized fd_of w q w' =
    (q ≡ 0 → Unchanged w.history w'.history)
    × (q ≢ 0 → Opened q (fd_of w'.store q) w.history w'.history)

-- A handle that is made and taken away again leaves nothing behind.
pub init-uninit-Unchanged :
    {S : Type 0} (fd_of : S → ℕ → ℤ) (init : M S ℕ) (uninit : ℕ → M S (Unit {0})) (w : World S)
    → Returns (init w) (Initialized fd_of w)
    → ((w1 : World S) → uninit 0 w1 ≡ some (tt, w1))
    → ((p : ℕ) (w1 : World S)
        → p ≢ 0
        → is_live w1.history p ≡ true
        → Returns (uninit p w1) (λ _ w'. Freed p (fd_of w1.store p) w1.history w'.history))
    → Returns ((init >>= uninit) w) (λ _ w'. Unchanged w.history w'.history)
init-uninit-Unchanged {S} fd_of init uninit w made nothing freed =
    Returns-bind init uninit w (Initialized fd_of w) (λ _ w'. Unchanged w.history w'.history) made
      ended
  where
    ended :
        (p : ℕ) (w1 : World S)
        → Initialized fd_of w p w1
        → Returns (uninit p w1) (λ _ w'. Unchanged w.history w'.history)
    ended zero w1 (same, _) = rw (nothing w1) (same refl)
    ended (suc p) w1 (_, o) =
        let nz : suc p ≢ 0 = λ z. omega (arith, z) in
        Returns-mono (uninit (suc p) w1)
          (λ _ w'. Freed (suc p) (fd_of w1.store (suc p)) w1.history w'.history)
          (λ _ w'. Unchanged w.history w'.history) (freed (suc p) w1 nz (o nz).lives)
          (λ _ w'.
            Opened-Freed (suc p) (fd_of w1.store (suc p)) w.history w1.history w'.history (o nz))
