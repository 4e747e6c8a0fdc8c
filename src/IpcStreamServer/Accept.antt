-- ===== src/IpcStreamServer/Accept.antt =====
-- source/comm_ipc_stream.c: accepting a client keeps the invariant of a server.
use libcomm.Prelude.{
  ℕ, ◌<◌, ◌≡◌, ◌≢◌, refl, inl, inr, true, Option, none, some, arith, ℤ, List, length,
}
use native.Mathlib.Decide.{ℕ_discrete}
use libcomm.Os.{World, Os}
use libcomm.Memory.{is_live, FreshBlocks}
use libcomm.Returns.{Returns, Returns-both, Returns-mono}
use libcomm.IpcStreamClient.{unix_address, path_size}
use libcomm.TcpServer.{Heap, free_slot}
use libcomm.TcpServer.Invariant.{limit, IsValid, Same, Same-IsValid}
use libcomm.TcpServer.Accept.{Filled, Accepted, Filled-IsValid}
use libcomm.IpcStreamServer.{fill_slot, take_slot, accept_client}

module _ (os : Os) (fresh : FreshBlocks os) (p : ℕ) (file_name : List ℕ) (fd : ℤ)
    (short : length file_name < path_size) where
  fill_slot_refused :
      (i : ℕ) (w : World Heap)
      → is_live w.history p ≡ true
      → Returns (fill_slot os p file_name fd i w) (λ q w'. q ≡ 0 → Same w w')
  unfolding fill_slot
  fill_slot_refused i w live = ground (arith, fresh w.history, short)

  fill_slot-Filled :
      (i : ℕ) (w : World Heap)
      → is_live w.history p ≡ true
      → Returns
          (fill_slot os p file_name fd i w)
          (λ q w'. q ≢ 0 → Filled p (unix_address file_name) fd i q w w')
  unfolding fill_slot
  fill_slot-Filled i w live = ground (arith, fresh w.history, short)

  take_slot-Accepted :
      (w : World Heap) (found : Option ℕ)
      → is_live w.history p ≡ true
      → free_slot (limit (w.store.contexts p)) (w.store.contexts p).p_user ≡ found
      → Returns (take_slot os p file_name fd found w) (Accepted p (unix_address file_name) fd w)
  unfolding take_slot
  take_slot-Accepted w none live e = inl (refl, λ r. (refl, λ _. refl, λ _. refl))
  take_slot-Accepted w (some i) live e =
      Returns-both (fill_slot os p file_name fd i w) _ _ (Accepted p (unix_address file_name) fd w)
        (fill_slot_refused i w live) (fill_slot-Filled i w live)
        (λ q w' same filled. elim (ℕ_discrete q 0) [
          | yes z ↦ inl (z, same z)
          | no nz ↦ inr (i, nz, e, filled nz)
        ])

  accept_client-Accepted :
      (w : World Heap)
      → is_live w.history p ≡ true
      → Returns (accept_client os p file_name fd w) (Accepted p (unix_address file_name) fd w)
  unfolding accept_client
  accept_client-Accepted w live = ground (arith, refused, take_slot-Accepted w _ live refl)
    where
      refused : Accepted p (unix_address file_name) fd w 0 w
      refused = inl (refl, λ r. (refl, λ _. refl, λ _. refl))

  -- If malloc gives fresh blocks and the path of the client is shorter than fileName, accepting a
  -- client of a UNIX socket meets no fault and keeps a valid server valid, and ends in a refusal
  -- that changes nothing allocated or with a new user in one slot, the one that free_slot finds.
  pub ipc_accept_client-IsValid :
      (w : World Heap)
      → IsValid p w
      → Returns
          (accept_client os p file_name fd w)
          (λ q w'. IsValid p w' × Accepted p (unix_address file_name) fd w q w')
  ipc_accept_client-IsValid w v =
      Returns-mono (accept_client os p file_name fd w) (Accepted p (unix_address file_name) fd w) _
        (accept_client-Accepted w v.alive) keep
    where
      keep :
          (q : ℕ) (w' : World Heap)
          → Accepted p (unix_address file_name) fd w q w'
          → IsValid p w' × Accepted p (unix_address file_name) fd w q w'
      keep q w' (inl (z, same)) = (Same-IsValid v same, inl (z, same))
      keep q w' (inr (i, nz, found, f)) = (
        Filled-IsValid p (unix_address file_name) fd i q w w' v nz found f,
        inr (i, nz, found, f),
      )
