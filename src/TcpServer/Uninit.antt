-- ===== src/TcpServer/Uninit.antt =====
-- source/comm_tcp_server.c: the loop that disconnects the clients of a server.
use libcomm.Prelude.{
  ℕ, zero, suc, ◌+◌, ◌≤◌, ◌≡◌, ◌≢◌, refl, ap, sym, subst, ◌∙◌, false, arith, get_or, pos_part,
}
use native.Mathlib.Decide.{ℕ_discrete}
use libcomm.Os.{World, Os, ◌>>◌}
use libcomm.Memory.{is_live}
use libcomm.Returns.{Returns, Returns-mono, Returns-bind, Returns-touch}
use libcomm.TcpServer.{Context, Heap, remove_user, disconnect_client}
use libcomm.TcpServer.Api.{disconnect_from}
use libcomm.TcpServer.Invariant.{slot, limit, IsSound}
use libcomm.TcpServer.Disconnect.{
  Dropped, slot-remove_user_at, remove_user_rest, disconnect_client-IsSound,
}

-- The users in the slots from `i` on are gone, and nothing else.
pub record Cleared (p i : ℕ) (w w' : World Heap) : Type 0 where
  pub sound : IsSound p w'
  pub kept :
      (j : ℕ)
      → slot (w'.store.contexts p) j ≢ 0
      → slot (w'.store.contexts p) j ≡ slot (w.store.contexts p) j
  pub empty : (j : ℕ) → i ≤ j → slot (w'.store.contexts p) j ≡ 0
  pub freed :
      (j : ℕ)
      → i ≤ j
      → slot (w.store.contexts p) j ≢ 0
      → is_live w'.history (slot (w.store.contexts p) j) ≡ false
  pub others :
      (r : ℕ)
      → ((j : ℕ) → i ≤ j → slot (w.store.contexts p) j ≢ r)
      → is_live w'.history r ≡ is_live w.history r
  pub same_fd : (w'.store.contexts p).fd ≡ (w.store.contexts p).fd

module _ (os : Os) (p : ℕ) where
  -- One round of the loop, at slot `i`.
  abbrev Stepped : ℕ → World Heap → World Heap → Type 0
  Stepped i w w1 =
      IsSound p w1
      × ((j : ℕ) → i ≢ j → slot (w1.store.contexts p) j ≡ slot (w.store.contexts p) j)
      × (slot (w1.store.contexts p) i ≡ 0)
      × (limit (w1.store.contexts p) ≡ limit (w.store.contexts p))
      × ((w1.store.contexts p).fd ≡ (w.store.contexts p).fd)
      × ((r : ℕ) → slot (w.store.contexts p) i ≢ r → is_live w1.history r ≡ is_live w.history r)
      × (slot (w.store.contexts p) i ≢ 0 → is_live w1.history (slot (w.store.contexts p) i) ≡ false)

  disconnect_null :
      (q : ℕ) (w : World Heap) (P : World Heap → Type 0)
      → q ≡ 0
      → P w
      → Returns (disconnect_client os p q w) (λ _ w'. P w')
  unfolding disconnect_client
  disconnect_null q w P e h =
      subst (λ k. Returns (disconnect_client os p k w) (λ _ w'. P w')) (sym e) h

  Dropped-Stepped :
      (i : ℕ) (w w1 : World Heap)
      → IsSound p w
      → slot (w.store.contexts p) i ≢ 0
      → IsSound p w1
        × Dropped p (slot (w.store.contexts p) i) w w1
        × ((j : ℕ) → slot (w1.store.contexts p) j ≢ slot (w.store.contexts p) i)
      → Stepped i w w1
  Dropped-Stepped i w w1 v held (sound, d, _) = (
    sound,
    λ j h. rw d.removed (cleared.1 j h),
    rw d.removed cleared.0,
    rw d.removed (ap pos_part rest.0),
    rw d.removed rest.1,
    λ r h. d.others_live r (λ e. h (sym e)),
    λ _. d.freed,
  )
    where
      c : Context
      c = w.store.contexts p

      cleared :
          (slot (remove_user c (slot c i)) i ≡ 0)
          × ((j : ℕ) → i ≢ j → slot (remove_user c (slot c i)) j ≡ slot c j)
      cleared = slot-remove_user_at c (slot c i) held v.table i refl

      rest :
          ((remove_user c (slot c i)).max_user_num ≡ c.max_user_num)
          × ((remove_user c (slot c i)).fd ≡ c.fd)
          × ((remove_user c (slot c i)).thread ≡ c.thread)
      rest = remove_user_rest c (slot c i) held v.table

  step_outcome :
      (i : ℕ) (w : World Heap)
      → IsSound p w
      → Returns (disconnect_client os p (slot (w.store.contexts p) i) w) (λ _ w1. Stepped i w w1)
  step_outcome i w v = elim (ℕ_discrete (slot (w.store.contexts p) i) 0) [
    | yes none_there ↦
        disconnect_null (slot (w.store.contexts p) i) w (Stepped i w) none_there
          (v, λ j h. refl, none_there, refl, refl, λ r h. refl, λ h. absurd (h none_there))
    | no held ↦
        Returns-mono (disconnect_client os p (slot (w.store.contexts p) i) w) _
          (λ _ w1. Stepped i w w1)
          (disconnect_client-IsSound os p (slot (w.store.contexts p) i) w v held
            (v.users_apart i held) (v.users_live i held))
          (λ _ w1. Dropped-Stepped i w w1 v held)
  ]

  Stepped-Cleared :
      (i : ℕ) (w w1 w' : World Heap)
      → IsSound p w
      → Stepped i w w1
      → Cleared p (suc i) w1 w'
      → Cleared p i w w'
  Stepped-Cleared i w w1 w' v (sound, same, emptied, _, fd, others, freed) c = record {
    sound = c.sound;
    kept = λ j h. elim (ℕ_discrete i j) [
      | yes e ↦ absurd (h (c.kept j h ∙ subst (λ k. slot (w1.store.contexts p) k ≡ 0) e emptied))
      | no n ↦ c.kept j h ∙ same j n
    ];
    empty = λ j h. elim (ℕ_discrete i j) [
      | yes e ↦ subst (λ k. slot (w'.store.contexts p) k ≡ 0) e here
      | no n ↦ c.empty j (omega arith)
    ];
    freed = λ j h held. elim (ℕ_discrete i j) [
      | yes e ↦
          subst (λ k. is_live w'.history (slot (w.store.contexts p) k) ≡ false) e
            (gone (λ z. held (ap (λ (k : ℕ). slot (w.store.contexts p) k) (sym e) ∙ z)))
      | no n ↦
          subst (λ q. is_live w'.history q ≡ false) (same j n)
            (c.freed j (omega arith) (λ z. held (sym (same j n) ∙ z)))
    ];
    others =
        λ r h. c.others r (λ j k e. ground (arith, same j, h j)) ∙ others r (h i (omega arith));
    same_fd = c.same_fd ∙ fd;
  }
    where
      here : slot (w'.store.contexts p) i ≡ 0
      here = elim (ℕ_discrete (slot (w'.store.contexts p) i) 0) [
        | yes z ↦ z
        | no n ↦ absurd (n (c.kept i n ∙ emptied))
      ]

      apart : (j : ℕ) → suc i ≤ j → i ≢ j
      apart j h e = omega arith

      gone :
          slot (w.store.contexts p) i ≢ 0 → is_live w'.history (slot (w.store.contexts p) i) ≡ false
      gone held =
          c.others (slot (w.store.contexts p) i)
            (λ j h e. apart j h (v.table.distinct i j held (sym e ∙ same j (apart j h))))
          ∙ freed held

  pub disconnect_from_outcome :
      (n i : ℕ) (w : World Heap)
      → IsSound p w
      → i + n ≡ limit (w.store.contexts p)
      → Returns (disconnect_from os p n i w) (λ _ w'. Cleared p i w w')
  unfolding disconnect_from
  disconnect_from_outcome zero i w v e = record {
    sound = v;
    kept = λ j h. refl;
    empty = λ j h. ground (arith, v.table.within j);
    freed = λ j h held. ground (arith, v.table.within j);
    others = λ r h. refl;
    same_fd = refl;
  }
  disconnect_from_outcome (suc n) i w v e =
      Returns-touch p (λ w1. (w1.store.contexts p, w1))
        (λ c w1.
          (disconnect_client os p (get_or c.p_user i 0) >> disconnect_from os p n (suc i)) w1)
        w (λ _ w'. Cleared p i w w') v.alive
        (Returns-bind (disconnect_client os p (slot (w.store.contexts p) i))
          (λ _. disconnect_from os p n (suc i)) w (λ _ w1. Stepped i w w1)
          (λ _ w'. Cleared p i w w') (step_outcome i w v)
          (λ _ w1 s.
            Returns-mono (disconnect_from os p n (suc i) w1) (λ _ w'. Cleared p (suc i) w1 w')
              (λ _ w'. Cleared p i w w')
              (disconnect_from_outcome n (suc i) w1 s.0 (omega (arith, s.3)))
              (λ _ w'. Stepped-Cleared i w w1 w' v s)))
