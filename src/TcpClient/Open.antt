-- ===== src/TcpClient/Open.antt =====
-- source/comm_tcp_client.c: opening, connecting and closing a client.
use libcomm.Prelude.{
  eq_ℤ, eq_ℤ-sound, eq_ℤ-complete, Bool-cases, inl, inr, ℕ, zero, suc, ◌≡◌, ◌≢◌, ◌⊎◌, refl, sym,
  ◌∙◌, true, false, arith, ℤ, pos, minus_one, is_negative, is_zero, is_positive, List, ◌∷◌,
}
use native.Mathlib.Decide.{ℕ_discrete}
use libcomm.Os.{World, Os, Family, SocketType, malloc, ◌>>=◌}
use libcomm.Memory.{is_live, is_open, FreshBlocks, FreshSockets}
use libcomm.Returns.{Returns, Returns-bind, Returns-mono}
use libcomm.TcpClient.{Heap, init_client, uninit_client, new_context}
use libcomm.TcpClient.Api.{client_init, client_uninit, client_connect, start_receiving}

-- A start that gave NULL has left nothing behind.
abbrev pub Restored : World Heap → World Heap → Type 0
Restored w w' =
    ((r : ℕ) → is_live w'.history r ≡ is_live w.history r)
    × ((fd : ℤ) → is_open w'.history fd ≡ is_open w.history fd)

-- A start that gave the handle `p` has made one block and opened one descriptor.
abbrev pub Opened : ℕ → ℕ → ℕ → World Heap → World Heap → Type 0
Opened recv_func exit_func p w w' =
    (is_live w.history p ≡ false)
    × (is_live w'.history p ≡ true)
    × ((r : ℕ) → r ≢ p → is_live w'.history r ≡ is_live w.history r)
    × (is_negative (w'.store p).fd ≡ false)
    × (is_open w.history (w'.store p).fd ≡ false)
    × (is_open w'.history (w'.store p).fd ≡ true)
    × ((fd : ℤ) → fd ≢ (w'.store p).fd → is_open w'.history fd ≡ is_open w.history fd)
    × ((w'.store p).running ≡ false)
    × ((w'.store p).p_client_recv_func ≡ recv_func)
    × ((w'.store p).p_client_exit_func ≡ exit_func)

-- The client at `p` has the one block and the one descriptor that were made since.
abbrev pub Held : ℕ → World Heap → World Heap → Type 0
Held p w w' =
    (is_live w.history p ≡ false)
    × (is_live w'.history p ≡ true)
    × ((r : ℕ) → r ≢ p → is_live w'.history r ≡ is_live w.history r)
    × (is_negative (w'.store p).fd ≡ false)
    × (is_open w.history (w'.store p).fd ≡ false)
    × (is_open w'.history (w'.store p).fd ≡ true)
    × ((fd : ℤ) → fd ≢ (w'.store p).fd → is_open w'.history fd ≡ is_open w.history fd)

-- Closing the client at `p` has freed its block and closed its descriptor, and nothing else.
abbrev pub Shut : ℕ → World Heap → World Heap → Type 0
Shut p w w' =
    (is_live w'.history p ≡ false)
    × ((r : ℕ) → r ≢ p → is_live w'.history r ≡ is_live w.history r)
    × (is_positive (w.store p).fd ≡ true → is_open w'.history (w.store p).fd ≡ false)
    × ((fd : ℤ) → fd ≢ (w.store p).fd → is_open w'.history fd ≡ is_open w.history fd)

-- The same memory is allocated, and the same descriptors are open but for 0.
abbrev pub Unchanged : World Heap → World Heap → Type 0
Unchanged w w' =
    ((r : ℕ) → is_live w'.history r ≡ is_live w.history r)
    × ((fd : ℤ) → fd ≢ pos 0 → is_open w'.history fd ≡ is_open w.history fd)

module _ (os : Os) (blocks : FreshBlocks os) (sockets : FreshSockets os) where
  pub client_init_opens :
      (family : Family) (port recv_func exit_func arg : ℕ) (w : World Heap)
      → Returns
          (client_init os family port recv_func exit_func arg w)
          (λ p w'. (p ≡ 0 → Restored w w') × (p ≢ 0 → Opened recv_func exit_func p w w'))
  unfolding client_init init_client new_context
  client_init_opens family port recv_func exit_func arg w = ground (
    arith,
    blocks w.history,
    sockets ((malloc, os.reply w.history malloc) ∷ w.history) family SocketType.stream,
  )

module _ (os : Os) where
  client_uninit_outcome :
      (p : ℕ) (w : World Heap)
      → p ≢ 0
      → is_live w.history p ≡ true
      → Returns (client_uninit os p w) (λ _. Shut p w)
  unfolding client_uninit uninit_client
  client_uninit_outcome p w nz live = ground arith

  -- Connecting an allocated client that is not running meets no fault and gives 0 or -1; the
  -- client is running exactly if it is 0. Its descriptor, the other clients, the memory allocated
  -- and the descriptors open stay as they are.
  client_connect_runs :
      (resolve : Family → List ℕ → ℕ) (family : Family) (p : ℕ) (address : List ℕ) (port : ℕ)
      (w : World Heap)
      → is_live w.history p ≡ true
      → (w.store p).running ≡ false
      → Returns (client_connect os resolve family p address port w) (λ e w'.
        ((e ≡ pos 0) ⊎ (e ≡ minus_one))
        × ((w'.store p).running ≡ is_zero e)
        × ((w'.store p).fd ≡ (w.store p).fd)
        × ((r : ℕ) → is_live w'.history r ≡ is_live w.history r)
        × ((fd : ℤ) → is_open w'.history fd ≡ is_open w.history fd)
        × ((r : ℕ) → r ≢ p → w'.store r ≡ w.store r))
  unfolding client_connect start_receiving
  client_connect_runs resolve family p address port w live idle = ground arith

-- Opening a client and closing it again has changed nothing.
pub Held-Shut :
    (w : World Heap) (p : ℕ) (w1 w' : World Heap) → Held p w w1 → Shut p w1 w' → Unchanged w w'
Held-Shut w p w1 w' o c = (
  λ r. elim (ℕ_discrete r p) [ yes e ↦ rw e (c.0 ∙ sym o.0) | no ne ↦ c.1 r ne ∙ o.2 r ne ],
  λ fd nz. elim (Bool-cases (eq_ℤ fd (w1.store p).fd)) [
    | inl e ↦ ground (arith, eq_ℤ-sound fd (w1.store p).fd e, o, c)
    | inr e ↦
        c.3 fd (eq_ℤ-complete fd (w1.store p).fd e) ∙ o.6 fd (eq_ℤ-complete fd (w1.store p).fd e)
  ],
)

pub Opened-Shut :
    (recv_func exit_func : ℕ) (w : World Heap) (p : ℕ) (w1 w' : World Heap)
    → Opened recv_func exit_func p w w1
    → Shut p w1 w'
    → Unchanged w w'
Opened-Shut recv_func exit_func w p w1 w' o c =
    Held-Shut w p w1 w' (o.0, o.1, o.2, o.3, o.4, o.5, o.6) c

module _ (os : Os) (blocks : FreshBlocks os) (sockets : FreshSockets os) where
  -- If malloc gives fresh blocks and socket fresh descriptors, a client that is initialized and
  -- then un-initialized meets no fault and leaves the same memory allocated, and the same
  -- descriptors open but for 0, whether or not it could be opened.
  client_init_uninit_restores :
      (family : Family) (port recv_func exit_func arg : ℕ) (w : World Heap)
      → Returns
          ((client_init os family port recv_func exit_func arg >>= client_uninit os) w)
          (λ _. Unchanged w)
  unfolding client_uninit
  client_init_uninit_restores family port recv_func exit_func arg w =
      Returns-bind (client_init os family port recv_func exit_func arg) (client_uninit os) w
        (λ p w'. (p ≡ 0 → Restored w w') × (p ≢ 0 → Opened recv_func exit_func p w w')) _
        (client_init_opens os blocks sockets family port recv_func exit_func arg w) closing
    where
      closing :
          (p : ℕ) (w1 : World Heap)
          → (p ≡ 0 → Restored w w1) × (p ≢ 0 → Opened recv_func exit_func p w w1)
          → Returns (client_uninit os p w1) (λ _. Unchanged w)
      closing zero w1 (same, _) = ground (arith, same refl)
      closing (suc p) w1 (_, o) =
          Returns-mono (client_uninit os (suc p) w1) _ _
            (client_uninit_outcome os (suc p) w1 (λ z. omega (arith, z))
              (o (λ z. omega (arith, z))).1)
            (λ _ w' c.
              Opened-Shut recv_func exit_func w (suc p) w1 w' (o (λ z. omega (arith, z))) c)
