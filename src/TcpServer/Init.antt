-- ===== src/TcpServer/Init.antt =====
-- source/comm_tcp_server.c: initializing a server gives a valid server or leaves nothing behind.
use libcomm.Prelude.{
  not, if◌then◌else◌, is_zero, ℕ, ◌∷◌, ◌≤◌, ◌≡◌, ◌≢◌, refl, sym, true, false, arith, ℤ, pos,
  is_negative, replicate, length-replicate, get_or-replicate, pos_part,
}
use libcomm.Os.{◌>>=◌, ◌>>◌, pure, Reply, World, Os, Family, malloc, SocketType}
use libcomm.Memory.{is_live, is_open, update, FreshBlocks, release, FreshSockets}
use libcomm.Returns.{Returns, Returns-bind, Returns-both}
use libcomm.TcpServer.{Context, Heap, tcp_user_num, init_server, uninit_server}
use libcomm.TcpServer.Table.{occupied-empty}
use libcomm.TcpServer.Api.{user_limit, new_context, start_listening, server_init}
use libcomm.TcpServer.Invariant.{slot, limit, IsValid}

-- No block is allocated or freed, and no descriptor but 0 is opened or closed.
abbrev pub Restored : World Heap → World Heap → Type 0
Restored w w' =
    ((r : ℕ) → is_live w'.history r ≡ is_live w.history r)
    × ((fd : ℤ) → fd ≢ pos 0 → is_open w'.history fd ≡ is_open w.history fd)

-- The context that `init_server` leaves of `c` if it returns 0.
abbrev pub Bound : Context → ℕ → World Heap → ℤ → World Heap → Type 0
Bound c p w e w' =
    let c' = w'.store.contexts p in
    (is_live w'.history p ≡ true)
    × (is_zero e ≡ true
        → (is_negative c'.fd ≡ false)
          × (is_open w.history c'.fd ≡ false)
          × (is_open w'.history c'.fd ≡ true)
          × (c'.p_user ≡ c.p_user)
          × (c'.user_num ≡ c.user_num)
          × (c'.max_user_num ≡ c.max_user_num))

-- The context at `p` is `c`, but it is running and has a new descriptor.
abbrev pub Listening : Context → ℕ → World Heap → World Heap → Type 0
Listening c p w w' =
    let c' = w'.store.contexts p in
    (is_live w'.history p ≡ true)
    × (c'.p_user ≡ c.p_user)
    × (c'.user_num ≡ c.user_num)
    × (c'.max_user_num ≡ c.max_user_num)
    × (c'.running ≡ true)
    × (is_negative c'.fd ≡ false)
    × (is_open w.history c'.fd ≡ false)
    × (is_open w'.history c'.fd ≡ true)

user_limit-le : (n : ℤ) → pos_part (user_limit n) ≤ tcp_user_num
unfolding user_limit
user_limit-le n = ground arith

-- A table without users, and no users counted, is a valid server.
pub empty-IsValid :
    (p : ℕ) (w : World Heap) (n : ℤ)
    → is_live w.history p ≡ true
    → (w.store.contexts p).p_user ≡ replicate tcp_user_num 0
    → (w.store.contexts p).user_num ≡ 0
    → (w.store.contexts p).max_user_num ≡ user_limit n
    → IsValid p w
empty-IsValid p w n live slots num room = record {
  sound = record {
    alive = live;
    table = record {
      width = rw slots (length-replicate {A = ℕ} tcp_user_num 0);
      bounded = rw room (user_limit-le n);
      within = λ i h. absurd (h (empty i));
      distinct = λ i j h e. absurd (h (empty i));
    };
    users_live = λ i h. absurd (h (empty i));
    users_apart = λ i h. absurd (h (empty i));
    users_mine = λ i h. absurd (h (empty i));
  };
  counted =
      rw (num, slots)
        (sym (
          occupied-empty (limit (w.store.contexts p)) (replicate tcp_user_num 0)
            (λ i. get_or-replicate tcp_user_num i 0)));
}
  where
    empty : (i : ℕ) → slot (w.store.contexts p) i ≡ 0
    empty i = rw slots (get_or-replicate tcp_user_num i 0)

module _ (os : Os) (blocks : FreshBlocks os) (sockets : FreshSockets os) where
  init_failed :
      (family : Family) (port : ℕ) (max_user_num : ℤ) (acpt exit recv arg : ℕ) (w : World Heap)
      → Returns
          (server_init os family port max_user_num acpt exit recv arg w)
          (λ p w'. p ≡ 0 → Restored w w')
  unfolding server_init init_server start_listening uninit_server
  init_failed family port max_user_num acpt exit recv arg w = ground (
    arith,
    blocks w.history,
    sockets ((malloc, os.reply w.history malloc) ∷ w.history) family SocketType.stream,
  )

  -- What the functions that follow `malloc` leave of a new context.
  start_listening_outcome :
      (c : Context) (p : ℕ) (w : World Heap)
      → w.store.contexts p ≡ c
      → is_live w.history p ≡ true
      → is_negative c.fd ≡ false
      → p ≢ 0
      → Returns (start_listening os p w) (λ q w'.
        q ≢ 0
        → (q ≡ p)
          × (is_live w'.history p ≡ true)
          × (is_open w'.history c.fd ≡ is_open w.history c.fd)
          × ((w'.store.contexts p).fd ≡ c.fd)
          × ((w'.store.contexts p).p_user ≡ c.p_user)
          × ((w'.store.contexts p).user_num ≡ c.user_num)
          × ((w'.store.contexts p).max_user_num ≡ c.max_user_num)
          × ((w'.store.contexts p).running ≡ true))
  unfolding start_listening uninit_server
  start_listening_outcome c p w e live nonneg nz = ground arith

  init_server_outcome :
      (c : Context) (family : Family) (p : ℕ) (w : World Heap)
      → w.store.contexts p ≡ c
      → is_live w.history p ≡ true
      → Returns (init_server os family p w) (Bound c p w)
  unfolding init_server
  init_server_outcome c family p w e live =
      ground (arith, sockets w.history family SocketType.stream)

  listen_if_bound :
      (c : Context) (family : Family) (p : ℕ) (w : World Heap)
      → w.store.contexts p ≡ c
      → is_live w.history p ≡ true
      → p ≢ 0
      → Returns
          ((init_server os family p >>= λ e.
              if not (is_zero e) then (release os p >> pure 0) else start_listening os p)
            w)
          (λ q w'. q ≢ 0 → (q ≡ p) × Listening c q w w')
  listen_if_bound c family p w e live nz =
      Returns-bind (init_server os family p)
        (λ e. if not (is_zero e) then (release os p >> pure 0) else start_listening os p) w
        (Bound c p w) (λ q w'. q ≢ 0 → (q ≡ p) × Listening c q w w')
        (init_server_outcome c family p w e live)
        (λ e w' b. ground (arith, start_listening_outcome (w'.store.contexts p) p w' refl))

  -- The other blocks are as they were.
  pub init_others :
      (family : Family) (port : ℕ) (max_user_num : ℤ) (acpt exit recv arg : ℕ) (w : World Heap)
      → Returns
          (server_init os family port max_user_num acpt exit recv arg w)
          (λ p w'. (r : ℕ) → r ≢ p → is_live w'.history r ≡ is_live w.history r)
  unfolding server_init init_server start_listening uninit_server
  init_others family port max_user_num acpt exit recv arg w = ground (arith, blocks w.history)

  pub started :
      (family : Family) (port : ℕ) (max_user_num : ℤ) (acpt exit recv arg : ℕ) (w : World Heap)
      → Returns (server_init os family port max_user_num acpt exit recv arg w) (λ p w'.
        p ≢ 0
        → (is_live w.history p ≡ false)
          × Listening (new_context family port max_user_num acpt exit recv arg) p w w')
  unfolding server_init
  started family port max_user_num acpt exit recv arg w =
      ground (arith, blocks w.history, listen_if_bound new family r.pointer w1)
    where
      new : Context
      new = new_context family port max_user_num acpt exit recv arg

      r : Reply
      r = os.reply w.history malloc

      w1 : World Heap
      w1 = record {
        history = (malloc, r) ∷ w.history;
        store = record w.store { contexts = update w.store.contexts r.pointer new };
      }

  -- If malloc gives fresh blocks and socket fresh descriptors, comm_tcpIpv4ServerInit meets no
  -- fault. If it gives NULL, no block is allocated or freed and no descriptor but 0 opened or
  -- closed. If it gives a handle, that is a new block with a valid server that is running on a
  -- new open socket, with the limit that user_limit gives.
  pub server_init-IsValid :
      (family : Family) (port : ℕ) (max_user_num : ℤ) (acpt exit recv arg : ℕ) (w : World Heap)
      → Returns (server_init os family port max_user_num acpt exit recv arg w) (λ p w'.
        (p ≡ 0 → Restored w w')
        × (p ≢ 0
            → IsValid p w'
              × (is_live w.history p ≡ false)
              × (is_open w.history (w'.store.contexts p).fd ≡ false)
              × (is_open w'.history (w'.store.contexts p).fd ≡ true)
              × ((w'.store.contexts p).running ≡ true)
              × ((w'.store.contexts p).max_user_num ≡ user_limit max_user_num)))
  unfolding new_context
  server_init-IsValid family port n acpt exit recv arg w =
      Returns-both (server_init os family port n acpt exit recv arg w)
        (λ p w'. p ≡ 0 → Restored w w')
        (λ p w'.
          p ≢ 0
          → (is_live w.history p ≡ false)
            × Listening (new_context family port n acpt exit recv arg) p w w')
        _ (init_failed family port n acpt exit recv arg w)
        (started family port n acpt exit recv arg w)
        (λ p w' failed h. (failed, λ nz. result p w' (h nz)))
    where
      result :
          (p : ℕ) (w' : World Heap)
          → (is_live w.history p ≡ false)
            × Listening (new_context family port n acpt exit recv arg) p w w'
          → IsValid p w'
            × (is_live w.history p ≡ false)
            × (is_open w.history (w'.store.contexts p).fd ≡ false)
            × (is_open w'.history (w'.store.contexts p).fd ≡ true)
            × ((w'.store.contexts p).running ≡ true)
            × ((w'.store.contexts p).max_user_num ≡ user_limit n)
      result p w' (dead, l) =
          let (live, slots, num, room, run, nonneg, closed, opened) = l in
          (empty-IsValid p w' n live slots num room, dead, closed, opened, run, room)
