-- ===== src/TcpServer.antt =====
-- source/comm_tcp_server.c: the server's state, its listening socket and the life of a connection.
-- The IPv4 and the IPv6 half differ in the address family alone, which is an argument here;
-- `Ipv6` instantiates it. Log output is left out: it changes none of this state.
pub mod Tasks
pub mod Api
pub mod Table
pub mod Invariant
pub mod Accept
pub mod Disconnect
pub mod Receive
pub mod RecvTask
pub mod RecvEnd
pub mod Termination
pub mod Uninit
pub mod UninitAll
pub mod Apart
pub mod Init
pub mod Listen
pub mod ListenTask
pub mod ListenEnd
pub mod Race
pub mod Send
pub mod Ipv6
pub mod Lifecycle
pub mod Steps
pub mod Members
pub mod Refinement
use libcomm.Prelude.{
  ℕ, zero, suc, ◌+◌, ◌-◌, ℤ, pos, minus_one, pos_part, is_negative, is_positive, is_zero, geb_ℤ,
  Bool, not, List, [], ◌∷◌, Option, none, some, ◌==◌, ltb, if◌then◌else◌, set, replicate,
}
use libcomm.Os.{
  Address, Family, SocketType, Task, Detach, Os, M, pure, ◌>>=◌, ◌>>◌, when, call, perform, malloc,
  socket, set_reuse_addr, set_no_delay, bind, close, thread_create, thread_cancel, acpt_callback,
}
pub use libcomm.Threads.{comm_buf_size}
use libcomm.Memory.{touch, release, update}

-- TCP_USER_NUM.
abbrev pub tcp_user_num : ℕ
tcp_user_num = 32

-- `p_user` holds pointers to users, NULL where a slot is free. A callback that is NULL is 0.
pub record Context : Type 0 where
  pub local_addr : Address
  pub fd : ℤ
  pub p_user : List ℕ
  pub user_num : ℕ
  pub max_user_num : ℤ
  pub p_server_acpt_func : ℕ
  pub p_server_exit_func : ℕ
  pub p_server_recv_func : ℕ
  pub p_server_arg : ℕ
  pub thread : ℕ
  pub running : Bool

-- `tTcpUser`. The two address fields of the source are one here: a user has the one of its server.
pub record User : Type 0 where
  pub p_server : ℕ
  pub addr : Address
  pub fd : ℤ
  pub thread : ℕ
  pub recv_msg : List ℕ

-- The contexts and the users in memory, by their pointers.
pub record Heap : Type 0 where
  pub contexts : ℕ → Context
  pub users : ℕ → User

abbrev pub Act : Type 0 → Type 0
Act A = M Heap A

abbrev pub load_context : ℕ → Act Context
load_context p = touch p (λ w. (w.store.contexts p, w))

abbrev pub save_context : ℕ → Context → Act (Unit {0})
save_context p c =
    touch p
      (λ w. (tt, record w { store = record w.store { contexts = update w.store.contexts p c } }))

abbrev pub load_user : ℕ → Act User
load_user p = touch p (λ w. (w.store.users p, w))

abbrev pub save_user : ℕ → User → Act (Unit {0})
save_user p u =
    touch p (λ w. (tt, record w { store = record w.store { users = update w.store.users p u } }))

module _ (os : Os) where
  -- socket, setsockopt and bind: 0, or -1 with nothing kept open.
  unfoldable pub init_server : Family → ℕ → Act ℤ
  init_server family p = do
    c ← load_context p
    s ← call os (socket family SocketType.stream)
    if is_negative s.value then pure minus_one else (do
      perform os (set_reuse_addr s.value)
      b ← call os (bind s.value c.local_addr)
      if is_negative b.value
          then (do perform os (close s.value); pure minus_one)
          else (do save_context p (record c { fd = s.value }); pure (pos 0)))

  unfoldable pub uninit_server : ℕ → Act (Unit {0})
  uninit_server p = do
    c ← load_context p
    when (is_positive c.fd)
        (do perform os (close c.fd); save_context p (record c { fd = minus_one }))

-- The first free slot among the first `n`: the loop `for (i = 0; i < n; i++)` over `pUser`.
-- The table has TCP_USER_NUM slots, and `n` is at most that.
unfoldable pub free_slot : ℕ → List ℕ → Option ℕ
free_slot zero slots = none
free_slot (suc n) [] = none
free_slot (suc n) (q ∷ slots) =
    if q == 0 then some 0 else elim (free_slot n slots) [ none ↦ none | some i ↦ some (suc i) ]

-- The table with the first slot among `n` that holds `p` cleared, or `none` if no slot holds it.
unfoldable pub clear_slot : ℕ → ℕ → List ℕ → Option (List ℕ)
clear_slot p zero slots = none
clear_slot p (suc n) [] = none
clear_slot p (suc n) (q ∷ slots) =
    if q == p
    then some (0 ∷ slots)
    else elim (clear_slot p n slots) [ none ↦ none | some rest ↦ some (q ∷ rest) ]

-- What the loop of `_tcpIpv4DisconnectClient` leaves of the context.
unfoldable pub remove_user : Context → ℕ → Context
remove_user c p = elim (clear_slot p (pos_part c.max_user_num) c.p_user) [
  | none ↦ c
  | some slots ↦ record c {
    p_user = slots;
    user_num = if ltb 0 c.user_num then c.user_num - 1 else c.user_num;
  }
]

-- `memset` to zero, then the fields that `_tcpIpv4AcceptClient` sets.
abbrev pub new_user : ℕ → Address → ℤ → User
new_user server addr fd = record {
  p_server = server;
  addr = addr;
  fd = fd;
  thread = 0;
  recv_msg = replicate (comm_buf_size + 1) 0;
}

module _ (os : Os) where
  -- The body of the loop of `_tcpIpv4AcceptClient` at the free slot `i`.
  unfoldable pub fill_slot : ℕ → Address → ℤ → ℕ → Act ℕ
  fill_slot p addr fd i = do
    m ← call os malloc
    if m.pointer == 0 then pure 0 else (do
      let q = m.pointer
      perform os (set_no_delay fd)
      save_user q (new_user p addr fd)
      t ← call os (thread_create Detach.detached (Task.recv_task q))
      if not (is_zero t.value) then (do release os q; pure 0) else (do
        save_user q (record (new_user p addr fd) { thread = t.pointer })
        c ← load_context p
        when (not (c.p_server_acpt_func == 0))
            (perform os (acpt_callback c.p_server_acpt_func c.p_server_arg q))
        save_context p (record c { p_user = set c.p_user i q; user_num = suc c.user_num })
        pure q))

  -- What follows the search of the table: NULL if "user memory was exhausted".
  unfoldable pub take_slot : ℕ → Address → ℤ → Option ℕ → Act ℕ
  take_slot p addr fd none = pure 0
  take_slot p addr fd (some i) = fill_slot p addr fd i

  -- A pointer to the new user, or NULL.
  unfoldable pub accept_client : ℕ → Address → ℤ → Act ℕ
  accept_client p addr fd = do
    c ← load_context p
    if geb_ℤ c.user_num c.max_user_num
        then pure 0
        else take_slot p addr fd (free_slot (pos_part c.max_user_num) c.p_user)

  -- The end of `_tcpIpv4DisconnectClient`, past its loop.
  unfoldable pub drop_user : ℕ → Act (Unit {0})
  drop_user q = do
    u ← load_user q
    when (is_positive u.fd) (do
      perform os (thread_cancel u.thread)
      perform os (close u.fd)
      save_user q (record u { fd = minus_one }))
    release os q

  unfoldable pub disconnect_client : ℕ → ℕ → Act (Unit {0})
  disconnect_client p q =
      when (not (q == 0)) (do c ← load_context p; save_context p (remove_user c q); drop_user q)
