-- ===== src/TcpServer/Listen.antt =====
-- source/comm_tcp_server.c: the descriptors of the users in the table, as a client is accepted.
use libcomm.Prelude.{
  ℕ, ◌≡◌, ◌≢◌, ap, sym, ◌∙◌, inl, inr, true, arith, ℤ, get_or-set_self, get_or-set_ne,
}
use libcomm.Os.{World, Os, Address}
use libcomm.Memory.{is_live, is_open, FreshBlocks}
use libcomm.Returns.{Returns}
use libcomm.TcpServer.{Context, Heap, fill_slot, take_slot, accept_client}
use libcomm.TcpServer.Table.{free_slot-some}
use libcomm.TcpServer.Invariant.{slot, limit, IsValid, Same}
use libcomm.TcpServer.Accept.{Accepted, Filled}

-- A user in the table of the server at `p` has the descriptor `fd`.
abbrev pub Holds : ℕ → World Heap → ℤ → Type 0
Holds p w fd =
    (j : ℕ) × (slot (w.store.contexts p) j ≢ 0)
    × ((w.store.users (slot (w.store.contexts p) j)).fd ≡ fd)

module _ (os : Os) (fresh : FreshBlocks os) (p : ℕ) where
  pub accept_client_opens :
      (addr : Address) (fd : ℤ) (w : World Heap)
      → is_live w.history p ≡ true
      → Returns
          (accept_client os p addr fd w)
          (λ q w'. (fd' : ℤ) → is_open w'.history fd' ≡ is_open w.history fd')
  unfolding accept_client take_slot fill_slot
  accept_client_opens addr fd w live = ground (arith, fresh w.history)

  Same-Holds :
      (w w' : World Heap) → IsValid p w → Same w w' → (fd : ℤ) → Holds p w fd → Holds p w' fd
  Same-Holds w w' v s fd (j, nz, e) =
      (j, rw at nz, rw (at, (s (slot (w.store.contexts p) j)).2 (v.users_live j nz)) e)
    where
      at : slot (w'.store.contexts p) j ≡ slot (w.store.contexts p) j
      at = ap (λ (c : Context). slot c j) ((s p).1 v.alive)

  Filled-Holds :
      (addr : Address) (fd : ℤ) (i q : ℕ) (w w' : World Heap)
      → IsValid p w
      → slot (w.store.contexts p) i ≡ 0
      → Filled p addr fd i q w w'
      → (fd' : ℤ) → Holds p w fd'
      → Holds p w' fd'
  Filled-Holds addr fd i q w w' v e f fd' (j, nz, e') =
      (j, rw at nz, rw (at, f.other_users (slot (w.store.contexts p) j) not_new) e')
    where
      apart : i ≢ j
      apart h = nz (ap (slot (w.store.contexts p)) (sym h) ∙ e)

      at : slot (w'.store.contexts p) j ≡ slot (w.store.contexts p) j
      at = rw f.filled (get_or-set_ne (w.store.contexts p).p_user i j q 0 apart)

      not_new : slot (w.store.contexts p) j ≢ q
      not_new h = ground (arith, v.users_live j, ap (is_live w.history) h, f.newly)

  pub Accepted-Holds :
      (addr : Address) (fd : ℤ) (q : ℕ) (w w' : World Heap)
      → IsValid p w
      → Accepted p addr fd w q w'
      → (fd' : ℤ) → Holds p w fd'
      → Holds p w' fd'
  Accepted-Holds addr fd q w w' v (inl (_, same)) = Same-Holds w w' v same
  Accepted-Holds addr fd q w w' v (inr (i, nz, found, f)) =
      Filled-Holds addr fd i q w w' v
        (free_slot-some (limit (w.store.contexts p)) (w.store.contexts p).p_user i found).2 f

  pub Accepted-new :
      (addr : Address) (fd : ℤ) (q : ℕ) (w w' : World Heap)
      → IsValid p w
      → Accepted p addr fd w q w'
      → q ≢ 0
      → Holds p w' fd
  Accepted-new addr fd q w w' v (inl (z, _)) nz = absurd (nz z)
  Accepted-new addr fd q w w' v (inr (i, _, found, f)) nz =
      (i, (λ z. nz (sym at ∙ z)), rw at f.its_fd)
    where
      at : slot (w'.store.contexts p) i ≡ q
      at = rw f.filled (
          get_or-set_self (w.store.contexts p).p_user i q 0
            (free_slot-some (limit (w.store.contexts p)) (w.store.contexts p).p_user i found).1)
