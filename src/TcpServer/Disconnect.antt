-- ===== src/TcpServer/Disconnect.antt =====
-- source/comm_tcp_server.c: disconnecting a client keeps the server's invariant.
use libcomm.Prelude.{
  ℕ, ◌-◌, ◌<◌, ◌≡◌, ◌≢◌, refl, ap, sym, subst, ◌∙◌, ◌⊎◌, inl, inr, true, false, arith, pos_part,
  set, length-set, get_or-set_self, get_or-set_ne, is_positive, Option-cases,
}
use native.Mathlib.Decide.{ℕ_discrete}
use libcomm.Os.{World, Os}
use libcomm.Memory.{is_live, is_open, update}
use libcomm.Returns.{Returns, Returns-mono}
use libcomm.TcpServer.{Context, User, Heap, clear_slot, remove_user, drop_user, disconnect_client}
use libcomm.TcpServer.Table.{occupied, clear_slot-none, clear_slot-some, occupied-clear}
use libcomm.TcpServer.Invariant.{slot, limit, IsTable, IsSound, IsValid}

module _ (c : Context) (q : ℕ) (nz : q ≢ 0) (v : IsTable c) where
  -- What the loop over the table does: it clears the slot of `q`, or finds that there is none.
  abbrev pub Removal : Type 0
  Removal =
      ((remove_user c q ≡ c) × ((i : ℕ) → slot c i ≢ q))
      ⊎ ((i : ℕ) × (i < limit c)
          × (slot c i ≡ q)
          × ((remove_user c q).p_user ≡ set c.p_user i 0)
          × ((remove_user c q).user_num ≡ c.user_num - 1)
          × ((remove_user c q).max_user_num ≡ c.max_user_num))

  -- What the loop over the table does: it clears the slot of `q`, or finds that there is none.
  pub remove_user_cases : Removal
  unfolding remove_user
  remove_user_cases = elim (Option-cases (clear_slot q (limit c) c.p_user)) [
    | inl missing ↦ inl (
      rw (missing, remove_user) refl,
      λ i e.
          ground
            (arith, clear_slot-none q (limit c) i c.p_user missing, v.within i, v.width, v.bounded),
    )
    | inr (slots, found) ↦
        let (i, below, inside, held, written) = clear_slot-some q (limit c) c.p_user slots found in
        inr (i, below, held, ground arith, ground arith, ground arith)
  ]

  pub slot_after :
      (i j : ℕ)
      → (remove_user c q).p_user ≡ set c.p_user i 0
      → i < limit c
      → ((i ≡ j) × (slot (remove_user c q) j ≡ 0))
        ⊎ ((i ≢ j) × (slot (remove_user c q) j ≡ slot c j))
  slot_after i j written below = elim (ℕ_discrete i j) [
    | yes e ↦
        inl (
          e,
          rw (written, ← e) (get_or-set_self c.p_user i 0 0 (omega (arith, v.width, v.bounded))),
        )
    | no n ↦ inr (n, rw written (get_or-set_ne c.p_user i j 0 0 n))
  ]

  -- No slot holds `q` any more, and no other slot has changed.
  pub slot-remove_user :
      (j : ℕ)
      → (slot (remove_user c q) j ≢ q)
        × (slot (remove_user c q) j ≢ 0 → slot (remove_user c q) j ≡ slot c j)
  slot-remove_user j = elim remove_user_cases [
    | inl (e, missing) ↦ rw e (missing j, λ _. refl)
    | inr (i, below, held, written, _, _) ↦
        ground (arith, slot_after i j written below, v.distinct i j)
  ]

  -- If slot `i` held `q`, it is the one that was cleared.
  pub slot-remove_user_at :
      (i : ℕ)
      → slot c i ≡ q
      → (slot (remove_user c q) i ≡ 0) × ((j : ℕ) → i ≢ j → slot (remove_user c q) j ≡ slot c j)
  slot-remove_user_at i e = elim remove_user_cases [
    | inl (_, missing) ↦ absurd (missing i e)
    | inr (k, below, held, written, _, _) ↦
        let same : k ≡ i = v.distinct k i (λ z. nz (sym held ∙ z)) (held ∙ sym e) in
        (
          ground (arith, slot_after k i written below),
          λ j h. ground (arith, slot_after k j written below),
        )
  ]

  -- The loop leaves the rest of the context alone.
  pub remove_user_rest :
      ((remove_user c q).max_user_num ≡ c.max_user_num)
      × ((remove_user c q).fd ≡ c.fd)
      × ((remove_user c q).thread ≡ c.thread)
  unfolding remove_user
  remove_user_rest = ground arith

  pub remove_user-IsTable : IsTable (remove_user c q)
  remove_user-IsTable = elim remove_user_cases [
    | inl (e, _) ↦ subst IsTable (sym e) v
    | inr (i, below, held, written, fewer, same_limit) ↦ record {
      width = ground (arith, written, length-set c.p_user i 0, v.width);
      bounded = ground (arith, same_limit, v.bounded);
      within = λ j h. ground (arith, slot-remove_user j, v.within j, ap pos_part same_limit);
      distinct = λ j k h e. ground (arith, slot-remove_user j, slot-remove_user k, v.distinct j k);
    }
  ]

  -- The count of users goes down with the users.
  pub remove_user_counted :
      c.user_num ≡ occupied (limit c) c.p_user
      → (remove_user c q).user_num ≡ occupied (limit (remove_user c q)) (remove_user c q).p_user
  remove_user_counted counted = elim remove_user_cases [
    | inl (e, _) ↦ rw e counted
    | inr (i, below, held, written, fewer, same_limit) ↦
        rw (written, same_limit)
          (ground (arith, fewer, counted, occupied-clear (limit c) c.p_user i below))
  ]

-- The user at `q` is gone, and the rest of the memory is as it was.
pub record Dropped (p q : ℕ) (w w' : World Heap) : Type 0 where
  pub freed : is_live w'.history q ≡ false
  pub others_live : (r : ℕ) → r ≢ q → is_live w'.history r ≡ is_live w.history r
  pub removed : w'.store.contexts p ≡ remove_user (w.store.contexts p) q
  pub other_contexts : (r : ℕ) → r ≢ p → w'.store.contexts r ≡ w.store.contexts r
  pub other_users : (r : ℕ) → r ≢ q → w'.store.users r ≡ w.store.users r
  pub closed :
      is_positive (w.store.users q).fd ≡ true → is_open w'.history (w.store.users q).fd ≡ false

module _ (os : Os) (p q : ℕ) where
  drop_user_outcome :
      (w : World Heap)
      → is_live w.history q ≡ true
      → Returns (drop_user os q w) (λ _ w'.
        (is_live w'.history q ≡ false)
        × ((r : ℕ) → r ≢ q → is_live w'.history r ≡ is_live w.history r)
        × (w'.store.contexts ≡ w.store.contexts)
        × ((r : ℕ) → r ≢ q → w'.store.users r ≡ w.store.users r)
        × (is_positive (w.store.users q).fd ≡ true
            → is_open w'.history (w.store.users q).fd ≡ false))
  unfolding drop_user
  drop_user_outcome w live = ground arith

  disconnect_client_outcome :
      (w : World Heap)
      → q ≢ 0
      → is_live w.history p ≡ true
      → is_live w.history q ≡ true
      → Returns (disconnect_client os p q w) (λ _ w'. Dropped p q w w')
  unfolding disconnect_client
  disconnect_client_outcome w nz live_p live_q = ground (arith, drop_user_outcome w1 live_q)
    where
      w1 : World Heap
      w1 = record w {
        store = record w.store {
          contexts = update w.store.contexts p (remove_user (w.store.contexts p) q);
        };
      }

-- Disconnecting a user keeps the server sound. The user's memory is freed and its socket closed,
-- it is in no slot any more, and the other slots and users stay as they were.
pub disconnect_client-IsSound :
    (os : Os) (p q : ℕ) (w : World Heap)
    → IsSound p w
    → q ≢ 0
    → q ≢ p
    → is_live w.history q ≡ true
    → Returns
        (disconnect_client os p q w)
        (λ _ w'. IsSound p w' × Dropped p q w w' × ((j : ℕ) → slot (w'.store.contexts p) j ≢ q))
disconnect_client-IsSound os p q w v nz apart live =
    Returns-mono (disconnect_client os p q w) (λ _ w'. Dropped p q w w') _
      (disconnect_client_outcome os p q w nz v.alive live)
      (λ _ w' d. (Dropped-IsSound w' d, d, λ j. rw d.removed (slot-remove_user c q nz v.table j).0))
  where
    c : Context
    c = w.store.contexts p

    -- A slot that still holds a user held it before, and it is another one than `q`.
    still :
        (w' : World Heap)
        → Dropped p q w w'
        → (j : ℕ) → slot (w'.store.contexts p) j ≢ 0
        → (slot (w'.store.contexts p) j ≡ slot c j) × (slot c j ≢ q) × (slot c j ≢ 0)
    still w' d j h =
        let (other, same) = slot-remove_user c q nz v.table j in
        ground (arith, ap (λ (k : Context). slot k j) d.removed)

    Dropped-IsSound : (w' : World Heap) → Dropped p q w w' → IsSound p w'
    Dropped-IsSound w' d = record {
      alive = d.others_live p (λ e. apart (sym e)) ∙ v.alive;
      table = rw d.removed (remove_user-IsTable c q nz v.table);
      users_live = λ j h.
          let (e, other, held) = still w' d j h in
          rw e (d.others_live (slot c j) other ∙ v.users_live j held);
      users_apart = λ j h. let (e, other, held) = still w' d j h in rw e (v.users_apart j held);
      users_mine = λ j h.
          let (e, other, held) = still w' d j h in
          rw e
            (ap (λ (u : User). u.p_server) (d.other_users (slot c j) other) ∙ v.users_mine j held);
    }

-- Disconnecting an allocated user at q, which is not NULL and not the server, keeps a valid
-- server valid, frees the user and nothing else, and leaves it in no slot of the table.
pub disconnect_client-IsValid :
    (os : Os) (p q : ℕ) (w : World Heap)
    → IsValid p w
    → q ≢ 0
    → q ≢ p
    → is_live w.history q ≡ true
    → Returns
        (disconnect_client os p q w)
        (λ _ w'. IsValid p w' × Dropped p q w w' × ((j : ℕ) → slot (w'.store.contexts p) j ≢ q))
disconnect_client-IsValid os p q w v nz apart live =
    Returns-mono (disconnect_client os p q w) _ _
      (disconnect_client-IsSound os p q w v.sound nz apart live)
      (λ _ w' (sound, d, removed). (
        record {
          sound = sound;
          counted = rw d.removed (remove_user_counted (w.store.contexts p) q nz v.table v.counted);
        },
        d,
        removed,
      ))
