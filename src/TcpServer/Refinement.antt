-- ===== src/TcpServer/Refinement.antt =====
-- source/comm_tcp_server.c: the table of users implements a list in which each user stands once.
use libcomm.Prelude.{
  ℕ, suc, ◌≡◌, ◌≢◌, ◌⊎◌, inl, inr, refl, ap, sym, subst, ◌∙◌, arith, ℤ, List, ◌∷◌, length, true,
  some,
}
use libcomm.Os.{World, Os, Address}
use libcomm.Memory.{is_live, FreshBlocks}
use libcomm.Returns.{Returns, Returns-mono}
use libcomm.TcpServer.{Context, Heap, accept_client, disconnect_client, remove_user, free_slot}
use libcomm.TcpServer.Api.{client_num}
use libcomm.TcpServer.Invariant.{slot, limit, IsTable, IsValid}
use libcomm.TcpServer.Accept.{Accepted, Filled, accept_client-IsValid, slot_cases, not_before, here}
use libcomm.TcpServer.Disconnect.{
  disconnect_client-IsValid, slot-remove_user, slot_after, remove_user_cases,
}
use libcomm.TcpServer.Members.{
  Member, Distinct, remove, Member-remove, remove-Member, remove_gone, remove-Distinct,
  length-remove, remove_missing,
}

-- The users in the table are those of the list, and are counted.
pub record Represents (c : Context) (us : List ℕ) : Type 0 where
  pub listed : (i : ℕ) → slot c i ≢ 0 → Member (slot c i) us
  pub held : (q : ℕ) → Member q us → (q ≢ 0) × (i : ℕ) × (slot c i ≡ q)
  pub once : Distinct us
  pub number : c.user_num ≡ length us

module _ (p : ℕ) (addr : Address) (fd : ℤ) (i q : ℕ) (w w' : World Heap) (v : IsValid p w)
    (nz : q ≢ 0)
    (found : free_slot (limit (w.store.contexts p)) (w.store.contexts p).p_user ≡ some i)
    (f : Filled p addr fd i q w w') (us : List ℕ) (r : Represents (w.store.contexts p) us) where
  cases :
      (j : ℕ)
      → ((i ≡ j) × (slot (w'.store.contexts p) j ≡ q))
        ⊎ ((i ≢ j) × (slot (w'.store.contexts p) j ≡ slot (w.store.contexts p) j))
  cases = slot_cases p addr fd i q w w' v nz found f

  enter-Represents : Represents (w'.store.contexts p) (q ∷ us)
  enter-Represents = record {
    listed = λ j h. elim (cases j) [
      | inl (_, e) ↦ inl e
      | inr (_, e) ↦ inr (subst (λ x. Member x us) (sym e) (r.listed j (λ z. h (e ∙ z))))
    ];
    held = λ x m. elim m [
      | inl e ↦ (λ z. nz (sym e ∙ z), i, at_slot ∙ sym e)
      | inr m' ↦ let (nz', j, e) = r.held x m' in (nz', j, before x j nz' e)
    ];
    once =
        (λ m. let (_, j, e) = r.held q m in not_before p addr fd i q w w' v nz found f j e, r.once);
    number = f.one_more ∙ ap suc r.number;
  }
    where
      at_slot : slot (w'.store.contexts p) i ≡ q
      at_slot = elim (cases i) [ inl (_, e) ↦ e | inr (n, _) ↦ absurd (n refl) ]

      before :
          (x j : ℕ) → x ≢ 0 → slot (w.store.contexts p) j ≡ x → slot (w'.store.contexts p) j ≡ x
      before x j nz' e = elim (cases j) [
        | inl (same, _) ↦ absurd (
            nz' (
              sym e
              ∙ (ap (λ k. slot (w.store.contexts p) k) (sym same)
                  ∙ (here p addr fd i q w w' v nz found f).2)))
        | inr (_, e') ↦ e' ∙ e
      ]

module _ (c : Context) (q : ℕ) (nz : q ≢ 0) (v : IsTable c) (us : List ℕ)
    (r : Represents c us) where
  still : (x j : ℕ) → x ≢ q → slot c j ≡ x → slot (remove_user c q) j ≡ x
  still x j ne e = elim (remove_user_cases c q nz v) [
    | inl (same, _) ↦ rw same e
    | inr (i, below, held, written, _, _) ↦ elim (slot_after c q nz v i j written below) [
      | inl (same, _) ↦ absurd (ne (sym e ∙ (ap (λ k. slot c k) (sym same) ∙ held)))
      | inr (_, e') ↦ e' ∙ e
    ]
  ]

  fewer : (remove_user c q).user_num ≡ length (remove q us)
  fewer = elim (remove_user_cases c q nz v) [
    | inl (same, missing) ↦
        rw (same, remove_missing q us (λ m. let (_, j, e) = r.held q m in missing j e)) r.number
    | inr (i, below, held, written, less, _) ↦
        let m : Member q us = subst (λ x. Member x us) held (r.listed i (λ z. nz (sym held ∙ z))) in
        omega (arith, less, r.number, length-remove q us m)
  ]

  leave-Represents : Represents (remove_user c q) (remove q us)
  leave-Represents = record {
    listed = λ j h.
        let (other, same) = slot-remove_user c q nz v j in
        Member-remove q (slot (remove_user c q) j) us
          (subst (λ x. Member x us) (sym (same h)) (r.listed j (λ z. h (same h ∙ z)))) other;
    held = λ x m.
        let (nz', j, e) = r.held x (remove-Member q x us m) in
        (
          nz',
          j,
          still x j (λ z. remove_gone q us r.once (subst (λ y. Member y (remove q us)) z m)) e,
        );
    once = remove-Distinct q us r.once;
    number = fewer;
  }

-- Let the table of a valid server represent a list: the users in the table are those of the list,
-- none of them is NULL, each stands once in the list, and user_num is its length. If malloc gives
-- fresh blocks, accepting a client meets no fault, keeps the server valid, and gives NULL with
-- the list represented unchanged, or a new user that is put in front of it. Disconnecting an
-- allocated user that is neither NULL nor the server meets no fault, keeps the server valid, and
-- the table then represents the list without that user. comm_tcpIpv4ServerGetClientNum gives the
-- length of the list and changes nothing.
pub server_refines :
    (os : Os) (p : ℕ) (addr : Address) (fd : ℤ) (q : ℕ) (w : World Heap) (us : List ℕ)
    → FreshBlocks os
    → IsValid p w
    → Represents (w.store.contexts p) us
    → q ≢ 0
    → q ≢ p
    → is_live w.history q ≡ true
    → Returns (accept_client os p addr fd w) (λ u w'.
      IsValid p w'
      × (((u ≡ 0) × Represents (w'.store.contexts p) us)
          ⊎ ((u ≢ 0) × Represents (w'.store.contexts p) (u ∷ us))))
      × Returns
          (disconnect_client os p q w)
          (λ _ w'. IsValid p w' × Represents (w'.store.contexts p) (remove q us))
      × Returns (client_num p w) (λ n w'. (n ≡ length us) × (w' ≡ w))
unfolding client_num
server_refines os p addr fd q w us blocks v r nz apart live = (
  Returns-mono (accept_client os p addr fd w) (λ u w'. IsValid p w' × Accepted p addr fd w u w') _
      (accept_client-IsValid os blocks p addr fd w v) (λ u w' (valid, a). (valid, entered u w' a)),
  Returns-mono (disconnect_client os p q w) _ _ (disconnect_client-IsValid os p q w v nz apart live)
      (λ _ w' (valid, d, _). (
        valid,
        subst (λ c. Represents c (remove q us)) (sym d.removed)
            (leave-Represents (w.store.contexts p) q nz v.table us r),
      )),
  rw (v.alive, Returns) (r.number, refl),
)
  where
    entered :
        (u : ℕ) (w' : World Heap)
        → Accepted p addr fd w u w'
        → ((u ≡ 0) × Represents (w'.store.contexts p) us)
          ⊎ ((u ≢ 0) × Represents (w'.store.contexts p) (u ∷ us))
    entered u w' (inl (z, same)) =
        inl (z, subst (λ c. Represents c us) (sym ((same p).1 v.alive)) r)
    entered u w' (inr (i, nz', found, f)) =
        inr (nz', enter-Represents p addr fd i u w w' v nz' found f us r)
