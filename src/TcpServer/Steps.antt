-- ===== src/TcpServer/Steps.antt =====
-- source/comm_tcp_server.c: a server over its life, as a sequence of operations in any order.
use libcomm.Prelude.{ℕ, ℤ, ◌≡◌, ◌≢◌, true, Option, some}
use libcomm.Os.{World, Os, Address}
use libcomm.Memory.{is_live, FreshBlocks, RecvFits}
use libcomm.Prelude.{is_positive, subst}
use libcomm.Returns.{Returns}
use libcomm.Threads.{Ending}
use libcomm.TcpServer.{Heap, accept_client, disconnect_client}
use libcomm.TcpServer.Tasks.{recv_task, listen_task}
use libcomm.TcpServer.Api.{server_uninit}
use libcomm.TcpServer.Invariant.{IsValid}
use libcomm.TcpServer.Accept.{accept_client-IsValid}
use libcomm.TcpServer.Disconnect.{disconnect_client-IsValid}
use libcomm.TcpServer.ListenEnd.{listen_task_outcome}
use libcomm.TcpServer.RecvTask.{Ready}
use libcomm.TcpServer.RecvEnd.{recv_task_outcome}
use libcomm.TcpServer.UninitAll.{Freed, server_uninit_frees}

-- One operation on the server at `p`, with any outcome.
pub data Step (os : Os) (p : ℕ) : World Heap → World Heap → Type 0 where
  accepts :
      {w w' : World Heap} (addr : Address) (fd : ℤ) (q : ℕ)
      → accept_client os p addr fd w ≡ some (q, w')
      → Step os p w w'
  listens :
      {w w' : World Heap} (fuel : ℕ) (e : Ending)
      → listen_task os fuel p w ≡ some (e, w')
      → Step os p w w'
  receives :
      {w w' : World Heap} (fuel q : ℕ) (e : Ending)
      → Ready p q w
      → q ≢ 0
      → q ≢ p
      → is_positive (w.store.users q).fd ≡ true
      → recv_task os fuel q w ≡ some (e, w')
      → Step os p w w'
  disconnects :
      {w w' : World Heap} (q : ℕ)
      → is_live w.history q ≡ true
      → q ≢ 0
      → q ≢ p
      → disconnect_client os p q w ≡ some (tt, w')
      → Step os p w w'

infixr 5 ◌then◌
pub data Steps (os : Os) (p : ℕ) : World Heap → World Heap → Type 0 where
  done : {w : World Heap} → Steps os p w w
  ◌then◌ : {w w1 w' : World Heap} → Step os p w w1 → Steps os p w1 w' → Steps os p w w'

-- What a statement about every outcome says of one.
of_outcome :
    {S A : Type 0} (r : Option (A × World S)) (P : A → World S → Type 0) (a : A) (w : World S)
    → r ≡ some (a, w)
    → Returns r P
    → P a w
of_outcome r P a w e h = subst (λ r. Returns r P) e h

module _ (os : Os) (fresh : FreshBlocks os) (fits : RecvFits os) (p : ℕ) where
  Step-IsValid : {w w' : World Heap} → Step os p w w' → IsValid p w → IsValid p w'
  Step-IsValid {w} {w'} (accepts addr fd q e) v =
      (of_outcome _ _ q w' e (accept_client-IsValid os fresh p addr fd w v)).0
  Step-IsValid {w} {w'} (listens fuel e h) v =
      (of_outcome _ _ e w' h (listen_task_outcome os fresh p w v fuel)).0
  Step-IsValid {w} {w'} (receives fuel q e ready nz apart connected h) v =
      (of_outcome _ _ e w' h (recv_task_outcome os fits p q w v ready nz apart connected fuel)).0
  Step-IsValid {w} {w'} (disconnects q live nz apart h) v =
      (of_outcome _ _ tt w' h (disconnect_client-IsValid os p q w v nz apart live)).0

  Steps-IsValid : {w w' : World Heap} → Steps os p w w' → IsValid p w → IsValid p w'
  Steps-IsValid done v = v
  Steps-IsValid (s then rest) v = Steps-IsValid rest (Step-IsValid s v)

  -- If malloc gives fresh blocks and recv writes as many bytes as it says, then a valid server at
  -- p, which is not NULL, is valid after any sequence of operations that end: accepting a client,
  -- the listening thread, the receiving thread of a connected user (with a receive callback, on a
  -- user that is neither NULL nor p), and disconnecting an allocated user that is neither NULL
  -- nor p. Un-initializing it then meets no fault, and frees the server and the users that are in
  -- its table and nothing else.
  pub Steps-uninit_frees :
      (w w' : World Heap)
      → IsValid p w
      → p ≢ 0
      → Steps os p w w'
      → IsValid p w' × Returns (server_uninit os p w') (λ _ w2. Freed p w' w2)
  Steps-uninit_frees w w' v nz steps =
      let v' = Steps-IsValid steps v in (v', server_uninit_frees os p w' v' nz)
