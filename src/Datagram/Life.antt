-- ===== src/Datagram/Life.antt =====
-- source/comm_udp.c, source/comm_ipc_dgram.c and source/comm_raw.c: from the initialization of an
-- endpoint to its un-initialization.
use libcomm.Prelude.{
  ℕ, ◌≡◌, ◌≢◌, refl, sym, ap, ◌∙◌, true, false, arith, ℤ, pos, is_negative, is_positive, ◌∷◌, ◌==◌,
  inl, inr, Bool-cases, eq_ℤ, eq_ℤ-sound, eq_ℤ-complete,
}
use native.Mathlib.Decide.{ℕ_discrete}
use libcomm.Os.{History, Task, Detach, thread_create, World, Os, pure, ◌>>◌}
use libcomm.Memory.{is_live, is_open, update, release}
use libcomm.Returns.{Returns, Returns-bind, Returns-mono}
use libcomm.Datagram.{
  Context, Heap, Act, Kind, start_receiving, free_endpoint, cancel_receiving, uninit,
}
use libcomm.Datagram.Laws.{SameUse, Closed, IsKind}

pub nonzero : (p : ℕ) → p ≢ 0 → (p == 0) ≡ false
nonzero p nz = ground arith

module _ {Place : Type 0} where
  -- The same memory is allocated, and the same descriptors are open but for 0.
  abbrev pub Unchanged : World (Heap Place) → World (Heap Place) → Type 0
  Unchanged w w' =
      ((r : ℕ) → is_live w'.history r ≡ is_live w.history r)
      × ((fd : ℤ) → fd ≢ pos 0 → is_open w'.history fd ≡ is_open w.history fd)

  -- The handle `p` is a new block, whose socket is new and open.
  pub record Opened (recv_func p : ℕ) (w w' : World (Heap Place)) : Type 0 where
    pub newly : is_live w.history p ≡ false
    pub lives : is_live w'.history p ≡ true
    pub other_blocks : (r : ℕ) → r ≢ p → is_live w'.history r ≡ is_live w.history r
    pub valid : is_negative (w'.store p).fd ≡ false
    pub fresh : is_open w.history (w'.store p).fd ≡ false
    pub other_fds : (fd : ℤ) → fd ≢ (w'.store p).fd → is_open w'.history fd ≡ is_open w.history fd
    pub callback : (w'.store p).p_recv_func ≡ recv_func

  -- The handle is gone, and its socket closed.
  pub record Freed (p : ℕ) (w w' : World (Heap Place)) : Type 0 where
    pub gone : is_live w'.history p ≡ false
    pub other_blocks : (r : ℕ) → r ≢ p → is_live w'.history r ≡ is_live w.history r
    pub closed : is_positive (w.store p).fd ≡ true → is_open w'.history (w.store p).fd ≡ false
    pub other_fds : (fd : ℤ) → fd ≢ (w.store p).fd → is_open w'.history fd ≡ is_open w.history fd

module _ {Place : Type 0} where
  -- What comes before the socket is closed has used and released nothing.
  abbrev Paused : ℕ → World (Heap Place) → World (Heap Place) → Type 0
  Paused p w w' =
      SameUse w w'
      × ((w'.store p).fd ≡ (w.store p).fd)
      × ((w'.store p).p_recv_func ≡ (w.store p).p_recv_func)

  Paused-Freed :
      (p : ℕ) (w w1 w' : World (Heap Place)) → Paused p w w1 → Freed p w1 w' → Freed p w w'
  Paused-Freed p w w1 w' (same_use, same, _) f = record {
    gone = f.gone;
    other_blocks = λ r h. f.other_blocks r h ∙ same_use.0 r;
    closed = rw (← same) f.closed;
    other_fds = λ fd h. f.other_fds fd (λ e. h (e ∙ same)) ∙ same_use.1 fd;
  }

  -- Opening an endpoint and closing it again has changed nothing.
  pub Opened-Freed :
      (recv_func p : ℕ) (w w1 w' : World (Heap Place))
      → Opened recv_func p w w1
      → Freed p w1 w'
      → Unchanged w w'
  Opened-Freed recv_func p w w1 w' o f = (
    λ r. elim (ℕ_discrete r p) [
      | yes e ↦ rw e (f.gone ∙ sym o.newly)
      | no h ↦ f.other_blocks r h ∙ o.other_blocks r h
    ],
    λ fd nz. elim (Bool-cases (eq_ℤ fd (w1.store p).fd)) [
      | inl e ↦ ground (arith, eq_ℤ-sound fd (w1.store p).fd e, o.valid, o.fresh, f.closed)
      | inr e ↦ let h = eq_ℤ-complete fd (w1.store p).fd e in f.other_fds fd h ∙ o.other_fds fd h
    ],
  )

module _ {Place : Type 0} (os : Os) (kind : Kind Place) {Fits : Place → Type 0}
    (laws : IsKind kind Fits) where
  free_endpoint-Freed :
      (p : ℕ) (w w1 : World (Heap Place))
      → is_live w1.history p ≡ true
      → Closed p w w1
      → Returns (free_endpoint os kind p w1) (λ _. Freed p w)
  unfolding free_endpoint
  free_endpoint-Freed p w w1 live c = ground (arith, c.closed, c.same_live, c.others)

  cancel_receiving-Paused :
      (p : ℕ) (w : World (Heap Place))
      → is_live w.history p ≡ true
      → Returns (cancel_receiving os kind p w) (λ _. Paused p w)
  unfolding cancel_receiving
  cancel_receiving-Paused p w live = ground arith

  close-Freed :
      (p : ℕ) (w : World (Heap Place))
      → is_live w.history p ≡ true
      → Returns ((kind.close_socket p >> free_endpoint os kind p) w) (λ _. Freed p w)
  close-Freed p w live =
      Returns-bind (kind.close_socket p) (λ _. free_endpoint os kind p) w (λ _. Closed p w)
        (λ _. Freed p w) (laws.closes p w live)
        (λ _ w1 c. free_endpoint-Freed p w w1 (c.same_live p ∙ live) c)

  -- What comes next, once the endpoint is paused.
  Paused-then :
      (m : Act Place (Unit {0})) (k : Act Place (Unit {0})) (p : ℕ) (w : World (Heap Place))
      → is_live w.history p ≡ true
      → Returns (m w) (λ _. Paused p w)
      → ((w1 : World (Heap Place)) → is_live w1.history p ≡ true → Returns (k w1) (λ _. Freed p w1))
      → Returns ((m >> k) w) (λ _. Freed p w)
  Paused-then m k p w live paused next =
      Returns-bind m (λ _. k) w (λ _. Paused p w) (λ _. Freed p w) paused
        (λ _ w1 x.
          Returns-mono (k w1) (λ _. Freed p w1) (λ _. Freed p w) (next w1 (x.0.0 p ∙ live))
            (λ _ w2. Paused-Freed p w w1 w2 x))

  pub uninit-Freed :
      (p : ℕ) (w : World (Heap Place))
      → p ≢ 0
      → is_live w.history p ≡ true
      → Returns (uninit os kind p w) (λ _. Freed p w)
  unfolding uninit
  uninit-Freed p w nz live = rw (nonzero p nz) (
      Paused-then (cancel_receiving os kind p) (kind.stop p >> rest) p w live
        (cancel_receiving-Paused p w live)
        (λ w1 live1.
          Paused-then (kind.stop p) rest p w1 live1 (laws.stops p w1 live1) (close-Freed p)))
    where
      rest : Act Place (Unit {0})
      rest = kind.close_socket p >> free_endpoint os kind p

  -- The context is released, and the result is NULL.
  abbrev pub abort : ℕ → Act Place ℕ
  abort p = release os p >> pure 0

  release-Freed :
      (p : ℕ) (w w1 w2 : World (Heap Place))
      → is_live w1.history p ≡ true
      → (w1.store p).fd ≡ (w.store p).fd
      → ((r : ℕ) → is_live w1.history r ≡ is_live w.history r)
      → ((fd : ℤ) → is_open w1.history fd ≡ is_open w.history fd)
      → Closed p w1 w2
      → Returns (abort p w2) (λ q w'. (q ≡ 0) × Freed p w w')
  release-Freed p w w1 w2 live same same_live same_open c =
      rw (c.same_live p ∙ live, release, Returns)
        (
          refl,
          record {
            gone = ground arith;
            other_blocks = λ r h. ground (arith, c.same_live r, same_live r);
            closed = λ h. rw (← same) (c.closed (rw same h));
            other_fds = λ fd h. c.others fd (λ e. h (e ∙ same)) ∙ same_open fd;
          },
        )

  -- What is left by `start_receiving`, whose context has a descriptor `fd`.
  abbrev pub Started : ℕ → World (Heap Place) → ℕ → World (Heap Place) → Type 0
  Started p w q w' =
      (q ≡ 0 → Freed p w w')
      × (q ≢ 0
          → (q ≡ p)
            × SameUse w w'
            × ((w'.store p).fd ≡ (w.store p).fd)
            × ((w'.store p).p_recv_func ≡ (w.store p).p_recv_func))

  pub start_receiving-Started :
      (p : ℕ) (w : World (Heap Place))
      → p ≢ 0
      → is_live w.history p ≡ true
      → Returns (start_receiving os kind p w) (Started p w)
  unfolding start_receiving
  start_receiving-Started p w nz live = ground (arith, failed)
    where
      c : Context Place
      c = w.store p

      h : History
      h =
          (
            thread_create Detach.joinable (Task.datagram_recv_task p),
            os.reply w.history (thread_create Detach.joinable (Task.datagram_recv_task p)),
          )
          ∷ w.history

      w1 : World (Heap Place)
      w1 = record { history = h; store = update w.store p (record c { running = true }) }

      self : w1.store p ≡ record c { running = true }
      self = ground arith

      failed : Returns ((kind.close_socket p >> abort p) w1) (λ q w'. (q ≡ 0) × Freed p w w')
      failed =
          Returns-bind (kind.close_socket p) (λ _. abort p) w1 (λ _. Closed p w1)
            (λ q w'. (q ≡ 0) × Freed p w w') (laws.closes p w1 live)
            (λ _ w2 c.
              release-Freed p w w1 w2 live (ap (λ (k : Context Place). k.fd) self) (λ r. refl)
                (λ fd. refl) c)
