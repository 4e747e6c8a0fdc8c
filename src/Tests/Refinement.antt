-- ===== src/Tests/Refinement.antt =====
-- The table of a server of two users, before and after it accepts one.
use libcomm.Prelude.{
  ℕ, zero, suc, pos, ◌≡◌, ◌≢◌, ◌⊎◌, inl, inr, refl, sym, arith, get_or-replicate, [], ◌∷◌,
}
use libcomm.Returns.{Returns}
use libcomm.TcpServer.Accept.{accept_client-IsValid}
use libcomm.TcpServer.Members.{Member, remove}
use libcomm.TcpServer.{
  init_server, uninit_server, accept_client, disconnect_client, take_slot, free_slot, fill_slot,
}
use libcomm.TcpServer.Api.{client_num, new_context, start_listening, server_init, user_limit}
use libcomm.TcpServer.Invariant.{slot, IsValid}
use libcomm.TcpServer.Refinement.{Represents, server_refines}
use libcomm.Tests.Machine.{machine, machine-FreshBlocks}
use libcomm.Tests.TcpServer.{started, served, client, started-IsValid}

served-IsValid : IsValid 1 served
unfolding server_init init_server start_listening uninit_server new_context user_limit accept_client
    take_slot free_slot fill_slot
served-IsValid =
    (accept_client-IsValid machine machine-FreshBlocks 1 client (pos 8) started started-IsValid).0

served-Represents : Represents (served.store.contexts 1) (2 ∷ [])
unfolding server_init init_server start_listening uninit_server new_context user_limit accept_client
    take_slot free_slot fill_slot
served-Represents = record {
  listed = one;
  held = λ q m. elim m [ inl e ↦ (λ z. omega (arith, z, e), 0, sym e) | inr m' ↦ absurd m' ];
  once = (λ m. m, record {});
  number = refl;
}
  where
    one :
        (i : ℕ)
        → slot (served.store.contexts 1) i ≢ 0
        → Member (slot (served.store.contexts 1) i) (2 ∷ [])
    one zero h = inl refl
    one (suc i) h = absurd (h (get_or-replicate 31 i 0))

server_refines_example :
    Returns (accept_client machine 1 client (pos 9) served) (λ u w'.
      IsValid 1 w'
      × (((u ≡ 0) × Represents (w'.store.contexts 1) (2 ∷ []))
          ⊎ ((u ≢ 0) × Represents (w'.store.contexts 1) (u ∷ 2 ∷ []))))
    × Returns
        (disconnect_client machine 1 2 served)
        (λ _ w'. IsValid 1 w' × Represents (w'.store.contexts 1) (remove 2 (2 ∷ [])))
    × Returns (client_num 1 served) (λ n w'. (n ≡ 1) × (w' ≡ served))
unfolding server_init init_server start_listening uninit_server new_context user_limit accept_client
    take_slot free_slot fill_slot
server_refines_example =
    server_refines machine 1 client (pos 9) 2 served (2 ∷ []) machine-FreshBlocks served-IsValid
      served-Represents (λ z. omega (arith, z)) (λ z. omega (arith, z)) refl
