-- ===== src/TcpServer/Accept.antt =====
-- source/comm_tcp_server.c: accepting a client keeps the server's invariant.
use libcomm.Prelude.{
  ℕ, suc, ◌<◌, ◌≡◌, ◌≢◌, refl, ap, sym, ◌∙◌, ◌⊎◌, inl, inr, ◌↔◌, ◌∷◌, is_zero, true, false, Option,
  none, some, arith, pos_part, ℤ, set, length, length-set, get_or-set_self, get_or-set_ne,
}
use native.Mathlib.Decide.{ℕ_discrete}
use libcomm.Os.{Address, World, Os, Task, Detach, malloc, set_no_delay, thread_create}
use libcomm.Memory.{is_live, FreshBlocks}
use libcomm.Returns.{Returns, Returns-both, Returns-mono}
use libcomm.TcpServer.{Context, User, Heap, free_slot, fill_slot, take_slot, accept_client}
use libcomm.TcpServer.Table.{free_slot-none, free_slot-some, occupied-set}
use libcomm.TcpServer.Invariant.{slot, limit, IsTable, IsValid, Same, Same-IsValid}

-- The user at `q` is new, and stands in slot `i` of the server at `p`.
pub record Filled (p : ℕ) (addr : Address) (fd : ℤ) (i q : ℕ) (w w' : World Heap) : Type 0 where
  pub newly : is_live w.history q ≡ false
  pub lives : is_live w'.history q ≡ true
  pub others_live : (r : ℕ) → r ≢ q → is_live w'.history r ≡ is_live w.history r
  pub same_limit : (w'.store.contexts p).max_user_num ≡ (w.store.contexts p).max_user_num
  pub filled : (w'.store.contexts p).p_user ≡ set (w.store.contexts p).p_user i q
  pub one_more : (w'.store.contexts p).user_num ≡ suc (w.store.contexts p).user_num
  pub mine : (w'.store.users q).p_server ≡ p
  pub its_fd : (w'.store.users q).fd ≡ fd
  pub its_addr : (w'.store.users q).addr ≡ addr
  pub other_users : (r : ℕ) → r ≢ q → w'.store.users r ≡ w.store.users r

-- What accepting a client comes to: a refusal that changes nothing, or one slot filled.
abbrev pub Accepted : ℕ → Address → ℤ → World Heap → ℕ → World Heap → Type 0
Accepted p addr fd w q w' =
    ((q ≡ 0) × Same w w')
    ⊎ ((i : ℕ) × (q ≢ 0)
        × (free_slot (limit (w.store.contexts p)) (w.store.contexts p).p_user ≡ some i)
        × Filled p addr fd i q w w')

module _ (os : Os) (fresh : FreshBlocks os) where
  fill_slot_refused :
      (p : ℕ) (addr : Address) (fd : ℤ) (i : ℕ) (w : World Heap)
      → is_live w.history p ≡ true
      → Returns (fill_slot os p addr fd i w) (λ q w'. q ≡ 0 → Same w w')
  unfolding fill_slot
  fill_slot_refused p addr fd i w live = ground (arith, fresh w.history)

  fill_slot-Filled :
      (p : ℕ) (addr : Address) (fd : ℤ) (i : ℕ) (w : World Heap)
      → is_live w.history p ≡ true
      → Returns (fill_slot os p addr fd i w) (λ q w'. q ≢ 0 → Filled p addr fd i q w w')
  unfolding fill_slot
  fill_slot-Filled p addr fd i w live = ground (arith, fresh w.history)

  take_slot_outcome :
      (p : ℕ) (addr : Address) (fd : ℤ) (w : World Heap) (found : Option ℕ)
      → is_live w.history p ≡ true
      → free_slot (limit (w.store.contexts p)) (w.store.contexts p).p_user ≡ found
      → Returns (take_slot os p addr fd found w) (Accepted p addr fd w)
  unfolding take_slot
  take_slot_outcome p addr fd w none live e = inl (refl, λ r. (refl, λ _. refl, λ _. refl))
  take_slot_outcome p addr fd w (some i) live e =
      Returns-both (fill_slot os p addr fd i w) _ _ (Accepted p addr fd w)
        (fill_slot_refused p addr fd i w live) (fill_slot-Filled p addr fd i w live)
        (λ q w' same filled. elim (ℕ_discrete q 0) [
          | yes z ↦ inl (z, same z)
          | no nz ↦ inr (i, nz, e, filled nz)
        ])

  -- Accepting a client ends in one of the two ways.
  pub accept_client_outcome :
      (p : ℕ) (addr : Address) (fd : ℤ) (w : World Heap)
      → is_live w.history p ≡ true
      → Returns (accept_client os p addr fd w) (Accepted p addr fd w)
  unfolding accept_client
  accept_client_outcome p addr fd w live =
      ground (arith, refused, take_slot_outcome p addr fd w _ live refl)
    where
      refused : Accepted p addr fd w 0 w
      refused = inl (refl, λ r. (refl, λ _. refl, λ _. refl))

module _ (p : ℕ) (addr : Address) (fd : ℤ) (i q : ℕ) (w w' : World Heap) (v : IsValid p w)
    (nz : q ≢ 0)
    (found : free_slot (limit (w.store.contexts p)) (w.store.contexts p).p_user ≡ some i)
    (f : Filled p addr fd i q w w') where
  abbrev c : Context
  c = w.store.contexts p

  pub here : (i < limit c) × (i < length c.p_user) × (slot c i ≡ 0)
  here = free_slot-some (limit c) c.p_user i found

  -- A slot of the new table is the filled one, or holds what it held.
  pub slot_cases :
      (j : ℕ)
      → ((i ≡ j) × (slot (w'.store.contexts p) j ≡ q))
        ⊎ ((i ≢ j) × (slot (w'.store.contexts p) j ≡ slot c j))
  slot_cases j = elim (ℕ_discrete i j) [
    | yes e ↦ inl (e, rw (f.filled, ← e) (get_or-set_self c.p_user i q 0 here.1))
    | no n ↦ inr (n, rw f.filled (get_or-set_ne c.p_user i j q 0 n))
  ]

  -- The new user is in no other slot, since the users there were allocated before.
  pub not_before : (j : ℕ) → slot c j ≢ q
  not_before j e = ground (arith, v.users_live j, ap (is_live w.history) e, f.newly)

  Filled-IsTable : IsTable (w'.store.contexts p)
  Filled-IsTable = record {
    width = ground (arith, f.filled, length-set c.p_user i q);
    bounded = ground (arith, f.same_limit);
    within = λ j h. ground (arith, slot_cases j, here, v.table.within j, ap pos_part f.same_limit);
    distinct = λ j k h e.
        ground
          (arith, slot_cases j, slot_cases k, not_before j, not_before k, v.table.distinct j k);
  }

  new_pointer : q ≢ p
  new_pointer e = ground (arith, ap (is_live w.history) e, f.newly, v.alive)

  -- A slot of the new table holds a user that is allocated and belongs to the server.
  Filled-user :
      (j : ℕ)
      → slot (w'.store.contexts p) j ≢ 0
      → (is_live w'.history (slot (w'.store.contexts p) j) ≡ true)
        × (slot (w'.store.contexts p) j ≢ p)
        × ((w'.store.users (slot (w'.store.contexts p) j)).p_server ≡ p)
  Filled-user j h = elim (slot_cases j) [
    | inl (_, e) ↦ rw e (f.lives, new_pointer, f.mine)
    | inr (_, e) ↦ rw e (
      f.others_live (slot c j) (not_before j) ∙ v.users_live j (λ z. h (e ∙ z)),
      v.users_apart j (λ z. h (e ∙ z)),
      ap (λ (u : User). u.p_server) (f.other_users (slot c j) (not_before j))
          ∙ v.users_mine j (λ z. h (e ∙ z)),
    )
  ]

  pub Filled-IsValid : IsValid p w'
  Filled-IsValid = record {
    sound = record {
      alive = f.others_live p (λ e. new_pointer (sym e)) ∙ v.alive;
      table = Filled-IsTable;
      users_live = λ j h. (Filled-user j h).0;
      users_apart = λ j h. (Filled-user j h).1;
      users_mine = λ j h. (Filled-user j h).2;
    };
    counted =
        rw (f.one_more, f.filled, f.same_limit)
          (ground (arith, v.counted, occupied-set (limit c) c.p_user i q, here));
  }

-- If malloc gives fresh blocks, accepting a client keeps a valid server valid, and ends in a
-- refusal that changes nothing allocated or with a new user in one slot, the one that free_slot
-- finds.
pub accept_client-IsValid :
    (os : Os) (fresh : FreshBlocks os) (p : ℕ) (addr : Address) (fd : ℤ) (w : World Heap)
    → IsValid p w
    → Returns (accept_client os p addr fd w) (λ q w'. IsValid p w' × Accepted p addr fd w q w')
accept_client-IsValid os fresh p addr fd w v =
    Returns-mono (accept_client os p addr fd w) (Accepted p addr fd w) _
      (accept_client_outcome os fresh p addr fd w v.alive) keep
  where
    keep :
        (q : ℕ) (w' : World Heap)
        → Accepted p addr fd w q w'
        → IsValid p w' × Accepted p addr fd w q w'
    keep q w' (inl (z, same)) = (Same-IsValid v same, inl (z, same))
    keep q w' (inr (i, nz, found, f)) =
        (Filled-IsValid p addr fd i q w w' v nz found f, inr (i, nz, found, f))

-- What the system has to grant: memory for the user, and its thread.
abbrev pub CanCreate : Os → ℤ → World Heap → Type 0
CanCreate os fd w =
    let m = os.reply w.history malloc in
    let h =
      (set_no_delay fd, os.reply ((malloc, m) ∷ w.history) (set_no_delay fd))
      ∷ (malloc, m)
      ∷ w.history in
    (m.pointer ≢ 0)
    × (is_zero (os.reply h (thread_create Detach.detached (Task.recv_task m.pointer))).value ≡ true)

fill_slot_when :
    (os : Os) (p : ℕ) (addr : Address) (fd : ℤ) (i : ℕ) (w : World Heap)
    → FreshBlocks os
    → is_live w.history p ≡ true
    → Returns (fill_slot os p addr fd i w) (λ q w'. (q ≢ 0) ↔ CanCreate os fd w)
unfolding fill_slot
fill_slot_when os p addr fd i w fresh live = ground (arith, fresh w.history)

take_slot_when :
    (os : Os) (p : ℕ) (addr : Address) (fd : ℤ) (w : World Heap) (found : Option ℕ)
    → FreshBlocks os
    → is_live w.history p ≡ true
    → found ≢ none
    → Returns (take_slot os p addr fd found w) (λ q w'. (q ≢ 0) ↔ CanCreate os fd w)
unfolding take_slot
take_slot_when os p addr fd w none fresh live h = absurd (h refl)
take_slot_when os p addr fd w (some i) fresh live h = fill_slot_when os p addr fd i w fresh live

-- If malloc gives fresh blocks, a valid server accepts a client exactly if it has fewer users
-- than its limit and the system grants the memory and the thread: with room in the table its
-- search never fails.
pub accept_client_when :
    (os : Os) (fresh : FreshBlocks os) (p : ℕ) (addr : Address) (fd : ℤ) (w : World Heap)
    → IsValid p w
    → Returns (accept_client os p addr fd w) (λ q w'.
      (q ≢ 0) ↔ ((w.store.contexts p).user_num < limit (w.store.contexts p)) × CanCreate os fd w)
unfolding accept_client
accept_client_when os fresh p addr fd w v = ground (
  arith,
  v.alive,
  v.counted,
  taken,
  take_slot_when os p addr fd w (free_slot (limit c) c.p_user) fresh v.alive,
)
  where
    c : Context
    c = w.store.contexts p

    taken : free_slot (limit c) c.p_user ≡ none → c.user_num ≡ limit c
    taken e = ground (arith, free_slot-none (limit c) c.p_user, v.table, v.counted)
