-- ===== src/Handles/Make.antt =====
-- The initializations of source/: a block is allocated, a descriptor acquired, a thread started, and
-- what was done is undone where the next step fails.
use libcomm.Prelude.{
  ℕ, ◌≡◌, ◌≢◌, refl, sym, subst, ◌∙◌, ap, true, false, not, arith, ℤ, is_negative, is_zero,
  Bool-cases, inl, inr, ◌∷◌, ◌==◌, if◌then◌else◌,
}
use native.Mathlib.Decide.{ℕ_discrete}
use libcomm.Os.{History, World, Os, M, ◌>>=◌, ◌>>◌, pure, call, malloc}
use libcomm.Memory.{is_live, is_open, is_live-null, release, FreshBlocks}
use libcomm.Returns.{Returns, Returns-bind, Returns-mono}
use libcomm.Handles.{Same, Unchanged, Opened, Freed, Opened-Freed, Initialized}

-- The block `p` is new, and no descriptor has changed.
pub record Allocated (p : ℕ) (h h' : History) : Type 0 where
  pub newly : is_live h p ≡ false
  pub lives : is_live h' p ≡ true
  pub other_blocks : (r : ℕ) → r ≢ p → is_live h' r ≡ is_live h r
  pub same_open : (d : ℤ) → is_open h' d ≡ is_open h d

-- An attempt to get a descriptor: nothing is left, or `fd` is new.
pub record Acquired (fd e : ℤ) (h h' : History) : Type 0 where
  pub same_live : (r : ℕ) → is_live h' r ≡ is_live h r
  pub none_left : is_zero e ≡ false → (d : ℤ) → is_open h' d ≡ is_open h d
  pub valid : is_zero e ≡ true → is_negative fd ≡ false
  pub fresh : is_zero e ≡ true → is_open h fd ≡ false
  pub others : is_zero e ≡ true → (d : ℤ) → d ≢ fd → is_open h' d ≡ is_open h d

pub Same-Acquired :
    (fd e : ℤ) (h h1 h2 : History) → Same h h1 → Acquired fd e h1 h2 → Acquired fd e h h2
Same-Acquired fd e h h1 h2 s a = record {
  same_live = λ r. a.same_live r ∙ s.0 r;
  none_left = λ z d. a.none_left z d ∙ s.1 d;
  valid = a.valid;
  fresh = λ z. sym (s.1 fd) ∙ a.fresh z;
  others = λ z d n. a.others z d n ∙ s.1 d;
}

-- What a start leaves of the handle `p`.
abbrev pub Started : {S : Type 0} → (S → ℕ → ℤ) → ℕ → World S → ℕ → World S → Type 0
Started fd_of p w q w' =
    (q ≡ 0 → Freed p (fd_of w.store p) w.history w'.history)
    × (q ≢ 0 → (q ≡ p) × Same w.history w'.history × (fd_of w'.store p ≡ fd_of w.store p))

Allocated-Opened :
    (p : ℕ) (fd e : ℤ) (h h1 h2 : History)
    → Allocated p h h1
    → Acquired fd e h1 h2
    → is_zero e ≡ true
    → Opened p fd h h2
Allocated-Opened p fd e h h1 h2 a t z = record {
  newly = a.newly;
  lives = t.same_live p ∙ a.lives;
  other_blocks = λ r n. t.same_live r ∙ a.other_blocks r n;
  valid = t.valid z;
  fresh = sym (a.same_open fd) ∙ t.fresh z;
  other_fds = λ d n. t.others z d n ∙ a.same_open d;
}

Opened-Same :
    (p : ℕ) (fd : ℤ) (h h1 h2 : History) → Opened p fd h h1 → Same h1 h2 → Opened p fd h h2
Opened-Same p fd h h1 h2 o s = record {
  newly = o.newly;
  lives = s.0 p ∙ o.lives;
  other_blocks = λ r n. s.0 r ∙ o.other_blocks r n;
  valid = o.valid;
  fresh = o.fresh;
  other_fds = λ d n. s.1 d ∙ o.other_fds d n;
}

Started-Initialized :
    {S : Type 0} (fd_of : S → ℕ → ℤ) (p : ℕ) (w w2 : World S)
    → Opened p (fd_of w2.store p) w.history w2.history
    → (q : ℕ) (w' : World S) → Started fd_of p w2 q w'
    → Initialized fd_of w q w'
Started-Initialized fd_of p w w2 o q w' (failed, done) = (
  λ z. Opened-Freed p (fd_of w2.store p) w.history w2.history w'.history o (failed z),
  λ nz.
      let (e, same, same_fd) = done nz in
      subst (λ r. Opened r (fd_of w'.store r) w.history w'.history) (sym e)
        (subst (λ d. Opened p d w.history w'.history) (sym same_fd)
          (Opened-Same p (fd_of w2.store p) w.history w2.history w'.history o same)),
)

nonzero : (p : ℕ) → p ≢ 0 → (p == 0) ≡ false
nonzero p nz = ground arith

is_null : (p : ℕ) → p ≡ 0 → (p == 0) ≡ true
is_null p z = ground arith

module _ {S : Type 0} (os : Os) where
  -- The world once `malloc` has answered.
  abbrev asked : World S → World S
  asked w = record w { history = (malloc, os.reply w.history malloc) ∷ w.history }

  abbrev given : World S → ℕ
  given w = (os.reply w.history malloc).pointer

  given-Allocated :
      (w : World S) → FreshBlocks os → given w ≢ 0 → Allocated (given w) w.history (asked w).history
  given-Allocated w blocks nz = record {
    newly = blocks w.history;
    lives = ground arith;
    other_blocks = λ r h. ground arith;
    same_open = λ fd. refl;
  }

  given_none : (w : World S) → given w ≡ 0 → Unchanged w.history (asked w).history
  given_none w z = (λ r. ground (arith, is_live-null w.history), λ fd h. refl)

  -- The block is released again, and the result is NULL.
  abbrev abort : ℕ → M S ℕ
  abort p = release os p >> pure 0

  abort-Initialized :
      (fd_of : S → ℕ → ℤ) (p : ℕ) (fd e : ℤ) (w w1 w2 : World S)
      → Allocated p w.history w1.history
      → Acquired fd e w1.history w2.history
      → is_zero e ≡ false
      → Returns (abort p w2) (Initialized fd_of w)
  abort-Initialized fd_of p fd e w w1 w2 a t z =
      rw (t.same_live p ∙ a.lives, release, Returns)
        ((λ _. ((λ r. released r), (λ d _. t.none_left z d ∙ a.same_open d))), λ h. absurd (h refl))
    where
      released : (r : ℕ) → (if p == r then false else is_live w2.history r) ≡ is_live w.history r
      released r = elim (ℕ_discrete p r) [
        | yes h ↦ ground (arith, h, ap (is_live w.history) h, a.newly)
        | no h ↦ ground (arith, h, t.same_live r, a.other_blocks r (λ k. h (sym k)))
      ]

-- The initializations all have this form: `set` fills the block in, `get` acquires the descriptor
-- and `start` starts the thread.
abbrev pub make : {S : Type 0} → Os → (ℕ → M S (Unit {0})) → (ℕ → M S ℤ) → (ℕ → M S ℕ) → M S ℕ
make os set get start = do
  m ← call os malloc
  if m.pointer == 0 then pure 0 else (do
    let p = m.pointer
    set p
    e ← get p
    if not (is_zero e) then (do release os p; pure 0) else start p)

-- `Ready` is what `set` establishes for `get`.
pub record IsMaking {S : Type 0} (fd_of : S → ℕ → ℤ) (Ready : ℕ → World S → Type 0)
    (set : ℕ → M S (Unit {0})) (get : ℕ → M S ℤ) (start : ℕ → M S ℕ) : Type 0 where
  pub sets :
      (p : ℕ) (w : World S)
      → is_live w.history p ≡ true
      → Returns (set p w) (λ _ w'. (w'.history ≡ w.history) × Ready p w')
  pub gets :
      (p : ℕ) (w : World S)
      → is_live w.history p ≡ true
      → Ready p w
      → Returns (get p w) (λ e w'. Acquired (fd_of w'.store p) e w.history w'.history)
  pub starts :
      (p : ℕ) (w : World S)
      → p ≢ 0
      → is_live w.history p ≡ true
      → Returns (start p w) (Started fd_of p w)

module _ {S : Type 0} (os : Os) (blocks : FreshBlocks os) (fd_of : S → ℕ → ℤ)
    (Ready : ℕ → World S → Type 0) (set : ℕ → M S (Unit {0})) (get : ℕ → M S ℤ) (start : ℕ → M S ℕ)
    (laws : IsMaking fd_of Ready set get start) where
  -- What follows the attempt to get a descriptor.
  abbrev go_on : ℕ → ℤ → M S ℕ
  go_on p e = if not (is_zero e) then abort os p else start p

  go_on-Initialized :
      (p : ℕ) (w w1 w2 : World S) (e : ℤ)
      → p ≢ 0
      → Allocated p w.history w1.history
      → Acquired (fd_of w2.store p) e w1.history w2.history
      → Returns (go_on p e w2) (Initialized fd_of w)
  go_on-Initialized p w w1 w2 e nz a t = elim (Bool-cases (is_zero e)) [
    | inl z ↦ rw z (
        let o = Allocated-Opened p (fd_of w2.store p) e w.history w1.history w2.history a t z in
        Returns-mono (start p w2) (Started fd_of p w2) (Initialized fd_of w)
          (laws.starts p w2 nz o.lives) (Started-Initialized fd_of p w w2 o))
    | inr z ↦ rw z (abort-Initialized os fd_of p (fd_of w2.store p) e w w1 w2 a t z)
  ]

  pub make-Initialized : (w : World S) → Returns (make os set get start w) (Initialized fd_of w)
  make-Initialized w = elim (ℕ_discrete (given os w) 0) [
    | yes z ↦ rw (is_null (given os w) z) ((λ _. given_none os w z), λ h. absurd (h refl))
    | no nz ↦ rw (nonzero (given os w) nz) (setting nz)
  ]
    where
      p : ℕ
      p = given os w

      getting :
          p ≢ 0
          → (w1 : World S) → Allocated p w.history w1.history
          → Ready p w1
          → Returns ((get p >>= go_on p) w1) (Initialized fd_of w)
      getting nz w1 a ready =
          Returns-bind (get p) (go_on p) w1
            (λ e w2. Acquired (fd_of w2.store p) e w1.history w2.history) (Initialized fd_of w)
            (laws.gets p w1 a.lives ready) (λ e w2. go_on-Initialized p w w1 w2 e nz a)

      setting : p ≢ 0 → Returns ((set p >> (get p >>= go_on p)) (asked os w)) (Initialized fd_of w)
      setting nz =
          let a = given-Allocated os w blocks nz in
          Returns-bind (set p) (λ _. get p >>= go_on p) (asked os w)
            (λ _ w1. (w1.history ≡ (asked os w).history) × Ready p w1) (Initialized fd_of w)
            (laws.sets p (asked os w) a.lives)
            (λ _ w1 x. getting nz w1 (subst (λ h. Allocated p w.history h) (sym x.0) a) x.1)
