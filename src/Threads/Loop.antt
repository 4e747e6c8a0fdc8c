-- ===== src/Threads/Loop.antt =====
-- A loop of rounds, in any of the thread functions of source/: what its rounds keep, and its end.
use libcomm.Prelude.{ℕ, zero, suc, ◌+◌, ◌≤◌, ◌<◌, ◌≡◌, ◌≢◌, refl, arith}
use libcomm.Os.{M, World}
use libcomm.Returns.{Returns, Returns-bind, Returns-both, Returns-mono}
use libcomm.Threads.{Round, again, leave, cancelled, proceed, loop}

-- `Inv` is what a round relies on, and `Rel` what some rounds do.
pub record IsLoop {S : Type 0} (round : M S Round) (Inv : World S → Type 0)
    (Rel : World S → Round → World S → Type 0) : Type 0 where
  pub begin : (w : World S) → Inv w → Rel w again w
  pub one : (w : World S) → Inv w → Returns (round w) (Rel w)
  pub next : (w w1 : World S) → Inv w → Rel w again w1 → Inv w1
  pub compose :
      (w w1 : World S) (o : Round) (w' : World S) → Rel w again w1 → Rel w1 o w' → Rel w o w'

module _ {S : Type 0} {round : M S Round} {Inv : World S → Type 0}
    {Rel : World S → Round → World S → Type 0} (laws : IsLoop round Inv Rel) where
  pub loop-Rel : (fuel : ℕ) (w : World S) → Inv w → Returns (loop round fuel w) (Rel w)
  unfolding loop
  loop-Rel zero w i = laws.begin w i
  loop-Rel (suc fuel) w i =
      Returns-bind round (proceed (loop round fuel)) w (Rel w) (Rel w) (laws.one w i)
        (step (loop-Rel fuel))
    where
      step :
          ((w1 : World S) → Inv w1 → Returns (loop round fuel w1) (Rel w1))
          → (o : Round) (w1 : World S) → Rel w o w1
          → Returns (proceed (loop round fuel) o w1) (Rel w)
      step rest again w1 r =
          Returns-mono (loop round fuel w1) (Rel w1) (Rel w) (rest w1 (laws.next w w1 i r))
            (λ o w'. laws.compose w w1 o w' r)
      step rest leave w1 r = r
      step rest cancelled w1 r = r

  -- Rounds that go on use up a budget, so a loop of more rounds than that does not run out.
  module _ (budget : World S → ℕ)
      (uses : (w : World S)
        → Inv w
        → Returns (round w) (λ o w'. o ≡ again → budget w' < budget w)) where
    abbrev Used : ℕ → World S → Round → World S → Type 0
    Used fuel w o w' = o ≡ again → budget w' + fuel ≤ budget w

    loop-Used : (fuel : ℕ) (w : World S) → Inv w → Returns (loop round fuel w) (Used fuel w)
    unfolding loop
    loop-Used zero w i = λ _. omega arith
    loop-Used (suc fuel) w i =
        Returns-bind round (proceed (loop round fuel)) w
          (λ o w1. Rel w o w1 × (o ≡ again → budget w1 < budget w)) (Used (suc fuel) w)
          (Returns-both (round w) (Rel w) _ _ (laws.one w i) (uses w i) (λ o w1 x y. (x, y)))
          (step (loop-Used fuel))
      where
        step :
            ((w1 : World S) → Inv w1 → Returns (loop round fuel w1) (Used fuel w1))
            → (o : Round) (w1 : World S) → Rel w o w1 × (o ≡ again → budget w1 < budget w)
            → Returns (proceed (loop round fuel) o w1) (Used (suc fuel) w)
        step rest again w1 (r, less) =
            Returns-mono (loop round fuel w1) (Used fuel w1) (Used (suc fuel) w)
              (rest w1 (laws.next w w1 i r)) (λ o w' u e. omega (arith, u e, less refl))
        step rest leave w1 x = λ e. cc
        step rest cancelled w1 x = λ e. cc

    pub loop_ends :
        (fuel : ℕ) (w : World S)
        → Inv w
        → budget w < fuel
        → Returns (loop round fuel w) (λ o w'. Rel w o w' × (o ≢ again))
    loop_ends fuel w i enough =
        Returns-both (loop round fuel w) (Rel w) (Used fuel w) _ (loop-Rel fuel w i)
          (loop-Used fuel w i) (λ o w' r u. (r, λ e. omega (arith, u e)))
