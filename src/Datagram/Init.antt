-- ===== src/Datagram/Init.antt =====
-- source/comm_udp.c, source/comm_ipc_dgram.c and source/comm_raw.c: an endpoint that is initialized
-- and then un-initialized.
use libcomm.Prelude.{
  subst, ℕ, ◌≡◌, ◌≢◌, refl, sym, ap, ◌∙◌, true, false, not, arith, ℤ, is_zero, ◌∷◌, ◌==◌,
  if◌then◌else◌, inl, inr, Bool-cases,
}
use native.Mathlib.Decide.{ℕ_discrete}
use libcomm.Os.{World, Os, malloc, ◌>>=◌}
use libcomm.Memory.{is_live-null, is_live, is_open, update, release, FreshBlocks}
use libcomm.Returns.{Returns, Returns-touch, Returns-bind, Returns-mono}
use libcomm.Datagram.{Context, Heap, Act, Kind, new_context, start_receiving, init, uninit, uninit}
use libcomm.Datagram.Laws.{Attempted, IsKind}
use libcomm.Datagram.Life.{
  nonzero, Unchanged, Opened, Freed, Opened-Freed, Started, abort, uninit-Freed,
  start_receiving-Started,
}

-- The block at `p` is new, and holds a context at `place` with the callback `recv_func`.
record Allocated {Place : Type 0} (place : Place) (recv_func p : ℕ) (w w' : World (Heap Place))
    : Type 0 where
  newly : is_live w.history p ≡ false
  lives : is_live w'.history p ≡ true
  other_blocks : (r : ℕ) → r ≢ p → is_live w'.history r ≡ is_live w.history r
  same_open : (fd : ℤ) → is_open w'.history fd ≡ is_open w.history fd
  placed : (w'.store p).place ≡ place
  callback : (w'.store p).p_recv_func ≡ recv_func

is_null : (p : ℕ) → p ≡ 0 → (p == 0) ≡ true
is_null p z = ground arith

-- The world once `malloc` has answered and the context `c` is written.
abbrev after_malloc :
    {Place : Type 0} → Os → Context Place → World (Heap Place) → World (Heap Place)
after_malloc os c w =
    let m = os.reply w.history malloc in
    record { history = (malloc, m) ∷ w.history; store = update w.store m.pointer c }

after_malloc-Allocated :
    {Place : Type 0} (os : Os) (c : Context Place) (w : World (Heap Place))
    → FreshBlocks os
    → (os.reply w.history malloc).pointer ≢ 0
    → Allocated c.place c.p_recv_func (os.reply w.history malloc).pointer w (after_malloc os c w)
after_malloc-Allocated os c w blocks nz = record {
  newly = blocks w.history;
  lives = ground arith;
  other_blocks = λ r h. ground arith;
  same_open = λ fd. refl;
  placed = ground arith;
  callback = ground arith;
}

module _ {Place : Type 0} (os : Os) (kind : Kind Place) {Fits : Place → Type 0}
    (laws : IsKind kind Fits) where
  -- What an initialization comes to.
  abbrev pub Initialized : ℕ → World (Heap Place) → ℕ → World (Heap Place) → Type 0
  Initialized recv_func w q w' = (q ≡ 0 → Unchanged w w') × (q ≢ 0 → Opened recv_func q w w')

  abort-Initialized :
      {place : Place} (recv_func p : ℕ) (w w1 w2 : World (Heap Place)) (e : ℤ)
      → Allocated place recv_func p w w1
      → Attempted p w1 e w2
      → is_zero e ≡ false
      → Returns (abort os kind laws p w2) (Initialized recv_func w)
  abort-Initialized recv_func p w w1 w2 e a t z =
      rw (t.same_live p ∙ a.lives, release, Returns)
        (
          (λ _. ((λ r. released r), (λ fd _. t.none_left z fd ∙ a.same_open fd))),
          λ h. absurd (h refl),
        )
    where
      released : (r : ℕ) → (if p == r then false else is_live w2.history r) ≡ is_live w.history r
      released r = elim (ℕ_discrete p r) [
        | yes h ↦ ground (arith, h, ap (is_live w.history) h, a.newly)
        | no h ↦ ground (arith, h, t.same_live r, a.other_blocks r (λ k. h (sym k)))
      ]

  Attempted-Opened :
      {place : Place} (recv_func p : ℕ) (w w1 w2 : World (Heap Place)) (e : ℤ)
      → Allocated place recv_func p w w1
      → Attempted p w1 e w2
      → is_zero e ≡ true
      → Opened recv_func p w w2
  Attempted-Opened recv_func p w w1 w2 e a t z = record {
    newly = a.newly;
    lives = t.same_live p ∙ a.lives;
    other_blocks = λ r h. t.same_live r ∙ a.other_blocks r h;
    valid = t.valid z;
    fresh = sym (a.same_open (w2.store p).fd) ∙ t.fresh z;
    other_fds = λ fd h. t.others z fd h ∙ a.same_open fd;
    callback = t.same_func ∙ a.callback;
  }

  Started-Initialized :
      (recv_func p : ℕ) (w w2 : World (Heap Place))
      → Opened recv_func p w w2
      → (q : ℕ) (w' : World (Heap Place)) → Started os kind laws p w2 q w'
      → Initialized recv_func w q w'
  Started-Initialized recv_func p w w2 o q w' (failed, done) = (
    (λ z. Opened-Freed recv_func p w w2 w' o (failed z)),
    λ nz.
        let (e, (same_live, same_open), same_fd, same_func) = done nz in
        subst (λ r. Opened recv_func r w w') (sym e)
          (record {
            newly = o.newly;
            lives = same_live p ∙ o.lives;
            other_blocks = λ r h. same_live r ∙ o.other_blocks r h;
            valid = rw same_fd o.valid;
            fresh = rw same_fd o.fresh;
            other_fds = λ fd h. same_open fd ∙ o.other_fds fd (λ k. h (k ∙ sym same_fd));
            callback = same_func ∙ o.callback;
          }),
  )

  -- What follows `open_socket`.
  abbrev go_on : ℕ → ℤ → Act Place ℕ
  go_on p e = if not (is_zero e) then abort os kind laws p else start_receiving os kind p

  go_on-Initialized :
      {place : Place} (recv_func p : ℕ) (w w1 w2 : World (Heap Place)) (e : ℤ)
      → p ≢ 0
      → Allocated place recv_func p w w1
      → Attempted p w1 e w2
      → Returns (go_on p e w2) (Initialized recv_func w)
  go_on-Initialized recv_func p w w1 w2 e nz a t = elim (Bool-cases (is_zero e)) [
    | inl z ↦ rw z (
        Returns-mono (start_receiving os kind p w2) (Started os kind laws p w2)
          (Initialized recv_func w)
          (start_receiving-Started os kind laws p w2 nz (t.same_live p ∙ a.lives))
          (Started-Initialized recv_func p w w2 (Attempted-Opened recv_func p w w1 w2 e a t z)))
    | inr z ↦ rw z (abort-Initialized recv_func p w w1 w2 e a t z)
  ]

  pub init-Initialized :
      (place : Place) (recv_func arg : ℕ) (w : World (Heap Place))
      → Fits place
      → FreshBlocks os
      → Returns (init os kind place recv_func arg w) (Initialized recv_func w)
  unfolding init new_context
  init-Initialized place recv_func arg w fit blocks = elim (ℕ_discrete p 0) [
    | yes z ↦
        rw (is_null p z) (
          (λ _. ((λ r. ground (arith, is_live-null w.history)), λ fd h. refl)),
          λ h. absurd (h refl),
        )
    | no nz ↦ rw (nonzero p nz) (
        Returns-touch p (λ w0. (tt, record w0 { store = update w0.store p new }))
          (λ _. kind.open_socket p >>= go_on p) asked (Initialized recv_func w)
          (after_malloc-Allocated os new w blocks nz).lives (opening nz))
  ]
    where
      new : Context Place
      new = new_context place recv_func arg

      p : ℕ
      p = (os.reply w.history malloc).pointer

      asked : World (Heap Place)
      asked = record w { history = (malloc, os.reply w.history malloc) ∷ w.history }

      opening :
          p ≢ 0
          → Returns
              ((kind.open_socket p >>= go_on p) (after_malloc os new w))
              (Initialized recv_func w)
      opening nz =
          let a = after_malloc-Allocated os new w blocks nz in
          Returns-bind (kind.open_socket p) (go_on p) (after_malloc os new w)
            (Attempted p (after_malloc os new w)) (Initialized recv_func w)
            (laws.opens p (after_malloc os new w) a.lives (subst Fits (sym a.placed) fit))
            (λ e w2. go_on-Initialized recv_func p w (after_malloc os new w) w2 e nz a)

  -- An endpoint that is initialized and then un-initialized leaves nothing behind.
  pub init-uninit-Unchanged :
      (place : Place) (recv_func arg : ℕ) (w : World (Heap Place))
      → Fits place
      → FreshBlocks os
      → Returns ((init os kind place recv_func arg >>= uninit os kind) w) (λ _. Unchanged w)
  unfolding uninit
  init-uninit-Unchanged place recv_func arg w fit blocks =
      Returns-bind (init os kind place recv_func arg) (uninit os kind) w (Initialized recv_func w)
        (λ _. Unchanged w) (init-Initialized place recv_func arg w fit blocks) ended
    where
      ended :
          (p : ℕ) (w1 : World (Heap Place))
          → Initialized recv_func w p w1
          → Returns (uninit os kind p w1) (λ _. Unchanged w)
      ended p w1 (failed, opened) = elim (ℕ_discrete p 0) [
        | yes z ↦ rw (is_null p z) (failed z)
        | no nz ↦
            Returns-mono (uninit os kind p w1) (λ _. Freed p w1) (λ _. Unchanged w)
              (uninit-Freed os kind laws p w1 nz (opened nz).lives)
              (λ _ w'. Opened-Freed recv_func p w w1 w' (opened nz))
      ]
