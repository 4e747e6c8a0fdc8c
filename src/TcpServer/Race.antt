-- ===== src/TcpServer/Race.antt =====
-- source/comm_tcp_server.c: a receiving thread that runs before `_tcpIpv4AcceptClient`, which started it,
-- goes on to write the new user into the table.
use libcomm.Prelude.{
  ℕ, suc, ◌<◌, ◌≡◌, ◌≢◌, refl, ap, ◌∙◌, arith, ℤ, is_positive, is_zero, true, false, not, some, set,
  get_or-set_self, ◌==◌, if◌then◌else◌,
}
use native.Mathlib.Decide.{ℕ_discrete}
use libcomm.Os.{
  World, Os, Address, Detach, Task, pure, ◌>>=◌, ◌>>◌, when, call, perform, malloc, set_no_delay,
  thread_create, acpt_callback,
}
use libcomm.Memory.{is_live, release, update, update_self, FreshBlocks, RecvFits}
use libcomm.Returns.{Returns, Returns-bind}
use libcomm.TcpServer.{
  Context, Heap, Act, load_context, save_context, save_user, new_user, fill_slot, free_slot,
  tcp_user_num,
}
use libcomm.TcpServer.Tasks.{Ending, exited, running, recv_task}
use libcomm.TcpServer.Invariant.{slot, limit, IsValid}
use libcomm.TcpServer.RecvEnd.{Gone, recv_task_outcome}
use libcomm.TcpServer.Table.{free_slot-some}

module _ (os : Os) where
  -- The loop's body up to the write of the table, and that write.
  unfoldable pub start_user : ℕ → Address → ℤ → Act ℕ
  start_user p addr fd = do
    m ← call os malloc
    if m.pointer == 0 then pure 0 else (do
      let q = m.pointer
      perform os (set_no_delay fd)
      save_user q (new_user p addr fd)
      t ← call os (thread_create Detach.detached (Task.recv_task q))
      if not (is_zero t.value) then (do release os q; pure 0) else (do
        save_user q (record (new_user p addr fd) { thread = t.pointer })
        c ← load_context p
        when (not (c.p_server_acpt_func == 0))
            (perform os (acpt_callback c.p_server_acpt_func c.p_server_arg q))
        pure q))

  unfoldable pub enter_slot : ℕ → ℕ → ℕ → Act (Unit {0})
  enter_slot p i q = do
    c ← load_context p
    save_context p (record c { p_user = set c.p_user i q; user_num = suc c.user_num })

  abbrev entry : ℕ → ℕ → Context → Context
  entry i q c = record c { p_user = set c.p_user i q; user_num = suc c.user_num }

  enter_slot_lem :
      (p i q : ℕ) (w : World Heap)
      → is_live w.history p ≡ true
      → enter_slot p i q w
        ≡ some (
          tt,
          record w {
            store = record w.store {
              contexts = update w.store.contexts p (entry i q (w.store.contexts p));
            };
          },
        )
  unfolding enter_slot
  enter_slot_lem p i q w live = ground arith

  -- The whole body, with up to `fuel` rounds of the new thread before the write.
  unfoldable pub overtaken_fill_slot : ℕ → ℕ → Address → ℤ → ℕ → Act (ℕ × Ending)
  overtaken_fill_slot fuel p addr fd i = do
    q ← start_user p addr fd
    if q == 0
        then pure (0, running)
        else (do e ← recv_task os fuel q; enter_slot p i q; pure (q, e))

  -- Without the thread, the two parts are the whole.
  fill_slot-start_user :
      (p : ℕ) (addr : Address) (fd : ℤ) (i : ℕ) (w : World Heap)
      → FreshBlocks os
      → is_live w.history p ≡ true
      → fill_slot os p addr fd i w
        ≡ (do q ← start_user p addr fd; if q == 0 then pure 0 else (do enter_slot p i q; pure q)) w
  unfolding fill_slot start_user enter_slot
  fill_slot-start_user p addr fd i w fresh live = ground (arith, fresh w.history)

  -- What there is once the thread of the user `q` is started.
  abbrev Begun : ℕ → ℤ → ℕ → World Heap → World Heap → Type 0
  Begun p fd q w w' =
      (is_live w.history q ≡ false)
      × (is_live w'.history q ≡ true)
      × ((r : ℕ) → r ≢ q → is_live w'.history r ≡ is_live w.history r)
      × (w'.store.contexts p ≡ w.store.contexts p)
      × ((r : ℕ) → r ≢ q → w'.store.users r ≡ w.store.users r)
      × ((w'.store.users q).p_server ≡ p)
      × ((w'.store.users q).fd ≡ fd)

  start_user-Begun :
      (p : ℕ) (addr : Address) (fd : ℤ) (w : World Heap)
      → FreshBlocks os
      → is_live w.history p ≡ true
      → Returns (start_user p addr fd w) (λ q w'. q ≢ 0 → Begun p fd q w w')
  unfolding start_user
  start_user-Begun p addr fd w fresh live = ground (arith, fresh w.history)

  Begun-IsValid :
      (p : ℕ) (fd : ℤ) (q : ℕ) (w w' : World Heap) → IsValid p w → Begun p fd q w w' → IsValid p w'
  Begun-IsValid p fd q w w' v (dead, live, lives, same, users, mine, _) = record {
    sound = record {
      alive = lives p (other p v.alive) ∙ v.alive;
      table = rw same v.table;
      users_live =
          λ i h. rw at (lives (slot c i) (held i (rw at at h)) ∙ v.users_live i (rw at at h));
      users_apart = λ i h. rw at (v.users_apart i (rw at at h));
      users_mine =
          λ i h. rw (at, users (slot c i) (held i (rw at at h))) (v.users_mine i (rw at at h));
    };
    counted = rw same v.counted;
  }
    where
      c : Context
      c = w.store.contexts p

      at : w'.store.contexts p ≡ c
      at = same

      other : (r : ℕ) → is_live w.history r ≡ true → r ≢ q
      other r l e = ground (arith, ap (λ k. is_live w.history k) e, dead, l)

      held : (i : ℕ) → slot c i ≢ 0 → slot c i ≢ q
      held i h = other (slot c i) (v.users_live i h)

module _ (os : Os) (blocks : FreshBlocks os) (fits : RecvFits os) where
  -- Let a valid server with a receive callback fill the free slot that its search found, for a
  -- client with a positive descriptor, and let the receiving thread that it starts run for any
  -- number of rounds before the slot is written. If malloc gives fresh blocks and recv writes as
  -- many bytes as it says, this meets no fault; and if a user was made and its thread left its
  -- loop, the slot then holds a pointer to the user, which is freed.
  pub overtaken_fill_slot_dangles :
      (p : ℕ) (addr : Address) (fd : ℤ) (i fuel : ℕ) (w : World Heap)
      → IsValid p w
      → (w.store.contexts p).p_server_recv_func ≢ 0
      → is_positive fd ≡ true
      → free_slot (limit (w.store.contexts p)) (w.store.contexts p).p_user ≡ some i
      → Returns (overtaken_fill_slot os fuel p addr fd i w) (λ (q, e) w'.
        q ≢ 0 → e ≡ exited → (slot (w'.store.contexts p) i ≡ q) × (is_live w'.history q ≡ false))
  unfolding overtaken_fill_slot
  overtaken_fill_slot_dangles p addr fd i fuel w v callback positive found =
      Returns-bind (start_user os p addr fd) _ w (λ q w'. q ≢ 0 → Begun os p fd q w w') _
        (start_user-Begun os p addr fd w blocks v.alive)
        (λ q w1 begun. elim (ℕ_discrete q 0) [
          | yes z ↦ rw z (λ nz. absurd (nz refl))
          | no nz ↦
              let other : (q == 0) ≡ false = ground arith in
              rw other (
                Returns-bind (recv_task os fuel q) _ w1 (Ended q w1) _ (task q w1 nz (begun nz))
                  (entered q w1))
        ])
    where
      room : i < tcp_user_num
      room =
          let h : i < limit (w.store.contexts p) = (free_slot-some _ _ i found).0 in
          omega (arith, h, v.table.bounded)

      Ended : ℕ → World Heap → Ending → World Heap → Type 0
      Ended q w1 e w2 = IsValid p w2 × (e ≡ exited → Gone p q w1 w2)

      After : ℕ × Ending → World Heap → Type 0
      After (q, e) w' =
          q ≢ 0 → e ≡ exited → (slot (w'.store.contexts p) i ≡ q) × (is_live w'.history q ≡ false)

      written :
          (q : ℕ) (w2 : World Heap)
          → update w2.store.contexts p (entry os i q (w2.store.contexts p)) p
            ≡ entry os i q (w2.store.contexts p)
      written q w2 = update_self w2.store.contexts p (entry os i q (w2.store.contexts p))

      task :
          (q : ℕ) (w1 : World Heap)
          → q ≢ 0
          → Begun os p fd q w w1
          → Returns (recv_task os fuel q w1) (Ended q w1)
      task q w1 nz b =
          recv_task_outcome os fits p q w1 (Begun-IsValid os p fd q w w1 v b)
            (record {
              user_live = b.1;
              mine = b.5;
              server_live = (Begun-IsValid os p fd q w w1 v b).alive;
              callback = rw b.3 callback;
            })
            nz (λ e. ground (arith, ap (λ k. is_live w.history k) e, b.0, v.alive))
            (rw b.6 positive) fuel

      entered :
          (q : ℕ) (w1 : World Heap) (e : Ending) (w2 : World Heap)
          → Ended q w1 e w2
          → Returns ((enter_slot os p i q >> pure (q, e)) w2) After
      entered q w1 e w2 (valid, gone) =
          Returns-bind (enter_slot os p i q) (λ _. pure (q, e)) w2 (λ _ w'. After (q, e) w') After
            (rw (enter_slot_lem os p i q w2 valid.alive, Returns)
              (λ nz x. (
                ap (λ (c : Context). slot c i) (written q w2)
                    ∙ get_or-set_self (w2.store.contexts p).p_user i q 0
                        (omega (arith, room, valid.table.width)),
                (gone x).freed,
              )))
            (λ _ w' h. h)
