-- ===== src/TcpServer/ListenTask.antt =====
-- source/comm_tcp_server.c: the thread that accepts clients, over any number of rounds.
use libcomm.Prelude.{
  eq_ℤ, eq_ℤ-sound, Bool-cases, subst, ℕ, zero, suc, ◌≡◌, ◌≢◌, refl, sym, ◌∙◌, ◌⊎◌, inl, inr, true,
  false, arith, ℤ, ◌==◌, ◌∷◌,
}
use libcomm.Os.{
  History, World, Os, Address, Reply, accept, close, thread_testcancel, pure, ◌>>=◌, ◌>>◌, when,
  perform,
}
use libcomm.Memory.{is_open, FreshBlocks}
use libcomm.Returns.{Returns, Returns-both, Returns-bind}
use libcomm.TcpServer.{Heap, Act, accept_client}
use libcomm.TcpServer.Tasks.{Round, again, leave, cancelled, proceed, listen_round, listen_loop}
use libcomm.TcpServer.Invariant.{IsValid, Same-IsValid}
use libcomm.TcpServer.Listen.{Holds, Accepted-Holds, Accepted-new, accept_client_opens}
use libcomm.TcpServer.Accept.{Accepted, accept_client-IsValid}

-- Each descriptor that is open was open in `w0`, or is that of a user in the table.
abbrev pub Covered : ℕ → World Heap → World Heap → Type 0
Covered p w0 w =
    (fd : ℤ) → is_open w.history fd ≡ true → (is_open w0.history fd ≡ true) ⊎ Holds p w fd

-- The same, but for `fd`.
abbrev CoveredBut : ℤ → ℕ → World Heap → World Heap → Type 0
CoveredBut fd p w0 w =
    (fd' : ℤ)
    → eq_ℤ fd fd' ≡ false
    → is_open w.history fd' ≡ true
    → (is_open w0.history fd' ≡ true) ⊎ Holds p w fd'

module _ (os : Os) (fresh : FreshBlocks os) (p : ℕ) (w0 : World Heap) where
  abbrev pub Kept : Round → World Heap → Type 0
  Kept o w = IsValid p w × (o ≢ cancelled → Covered p w0 w)

  -- What a round does with the connection on `fd`.
  abbrev settle : Address → ℤ → Act Round
  settle addr fd =
      accept_client os p addr fd >>= λ q. when (q == 0) (perform os (close fd)) >> pure again

  settle_outcome :
      (addr : Address) (fd : ℤ) (w : World Heap)
      → IsValid p w
      → CoveredBut fd p w0 w
      → Returns (settle addr fd w) Kept
  settle_outcome addr fd w v but =
      Returns-bind (accept_client os p addr fd)
        (λ q. when (q == 0) (perform os (close fd)) >> pure again) w
        (λ q w'.
          (IsValid p w' × Accepted p addr fd w q w')
          × ((fd' : ℤ) → is_open w'.history fd' ≡ is_open w.history fd'))
        Kept
        (Returns-both (accept_client os p addr fd w) _ _ _
          (accept_client-IsValid os fresh p addr fd w v)
          (accept_client_opens os fresh p addr fd w v.alive) (λ q w' x y. (x, y)))
        (λ q w' x. finish q w' x.0.0 x.0.1 x.1)
    where
      kept_by :
          (q : ℕ) (w' : World Heap)
          → Accepted p addr fd w q w'
          → ((fd' : ℤ) → is_open w'.history fd' ≡ is_open w.history fd')
          → CoveredBut fd p w0 w'
      kept_by q w' a opens fd' ne h = elim (but fd' ne (sym (opens fd') ∙ h)) [
        | inl x ↦ inl x
        | inr x ↦ inr (Accepted-Holds os fresh p addr fd q w w' v a fd' x)
      ]

      closed :
          (w' : World Heap)
          → IsValid p w'
          → CoveredBut fd p w0 w'
          → Kept again
              (record w' { history = (close fd, os.reply w'.history (close fd)) ∷ w'.history })
      closed w' valid but' = (
        Same-IsValid valid (λ r. (refl, λ _. refl, λ _. refl)),
        λ _ fd' h. ground (arith, but' fd'),
      )

      accepted :
          (q : ℕ) (w' : World Heap)
          → IsValid p w'
          → Accepted p addr fd w q w'
          → CoveredBut fd p w0 w'
          → q ≢ 0
          → Kept again w'
      accepted q w' valid a but' nz = (
        valid,
        λ _ fd' h. elim (Bool-cases (eq_ℤ fd fd')) [
          | inl e ↦ inr (
              subst (Holds p w') (eq_ℤ-sound fd fd' e)
                (Accepted-new os fresh p addr fd q w w' v a nz))
          | inr e ↦ but' fd' e h
        ],
      )

      finish :
          (q : ℕ) (w' : World Heap)
          → IsValid p w'
          → Accepted p addr fd w q w'
          → ((fd' : ℤ) → is_open w'.history fd' ≡ is_open w.history fd')
          → Returns ((when (q == 0) (perform os (close fd)) >> pure again) w') Kept
      finish q w' valid a opens = ground (
        arith,
        closed w' valid (kept_by q w' a opens),
        accepted q w' valid a (kept_by q w' a opens),
      )

  round-Kept : (w : World Heap) → IsValid p w → Covered p w0 w → Returns (listen_round os p w) Kept
  unfolding listen_round
  round-Kept w v covered = ground (arith, v.alive, settled)
    where
      h1 : History
      h1 = (thread_testcancel, os.reply w.history thread_testcancel) ∷ w.history

      fd : ℤ
      fd = (w.store.contexts p).fd

      r : Reply
      r = os.reply h1 (accept fd)

      w1 : World Heap
      w1 = record w { history = (accept fd, r) ∷ h1 }

      w2 : World Heap
      w2 = record w {
        history = (thread_testcancel, os.reply w1.history thread_testcancel) ∷ w1.history;
      }

      settled : Returns (settle r.source r.value w2) Kept
      settled =
          settle_outcome r.source r.value w2 (Same-IsValid v (λ r. (refl, λ _. refl, λ _. refl)))
            (λ fd' e h. ground (arith, covered fd'))

  pub loop-Kept :
      (fuel : ℕ) (w : World Heap)
      → IsValid p w
      → Covered p w0 w
      → Returns (listen_loop os fuel p w) Kept
  unfolding listen_loop
  loop-Kept zero w v covered = (v, λ _. covered)
  loop-Kept (suc fuel) w v covered =
      Returns-bind (listen_round os p) (proceed (listen_loop os fuel p)) w Kept Kept
        (round-Kept w v covered) (step (loop-Kept fuel))
    where
      step :
          ((w1 : World Heap)
            → IsValid p w1
            → Covered p w0 w1
            → Returns (listen_loop os fuel p w1) Kept)
          → (o : Round) (w1 : World Heap) → Kept o w1
          → Returns (proceed (listen_loop os fuel p) o w1) Kept
      step rest again w1 (v1, k) = rest w1 v1 (k (λ c. cc))
      step rest leave w1 k = k
      step rest cancelled w1 k = k
