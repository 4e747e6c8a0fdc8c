-- ===== src/TcpServer/Invariant.antt =====
-- source/comm_tcp_server.c: what holds of a server between two calls.
use libcomm.Prelude.{
  ℕ, ◌≤◌, ◌<◌, ◌≡◌, ◌≢◌, sym, ap, subst, ◌∙◌, true, arith, pos_part, get_or, length, List,
}
use libcomm.Os.{World}
use libcomm.Memory.{is_live}
use libcomm.TcpServer.{Context, Heap, tcp_user_num}
use libcomm.TcpServer.Table.{occupied}

abbrev pub slot : Context → ℕ → ℕ
slot c i = get_or c.p_user i 0

abbrev pub limit : Context → ℕ
limit c = pos_part c.max_user_num

-- The table alone: its size, the range of its users, and no user twice.
pub record IsTable (c : Context) : Type 0 where
  pub width : length c.p_user ≡ tcp_user_num
  pub bounded : limit c ≤ tcp_user_num
  pub within : (i : ℕ) → slot c i ≢ 0 → i < limit c
  pub distinct : (i j : ℕ) → slot c i ≢ 0 → slot c i ≡ slot c j → i ≡ j

-- Each user in the table of the server at `p` is allocated, and points back to the server.
pub record IsSound (p : ℕ) (w : World Heap) : Type 0 where
  pub alive : is_live w.history p ≡ true
  pub table : IsTable (w.store.contexts p)
  pub users_live :
      (i : ℕ)
      → slot (w.store.contexts p) i ≢ 0
      → is_live w.history (slot (w.store.contexts p) i) ≡ true
  pub users_apart : (i : ℕ) → slot (w.store.contexts p) i ≢ 0 → slot (w.store.contexts p) i ≢ p
  pub users_mine :
      (i : ℕ)
      → slot (w.store.contexts p) i ≢ 0
      → (w.store.users (slot (w.store.contexts p) i)).p_server ≡ p

-- And the number of users is that of the slots in use.
pub record IsValid (p : ℕ) (w : World Heap) : Type 0 where
  pub sound : IsSound p w
  pub open sound use *
  pub counted :
      (w.store.contexts p).user_num
      ≡ occupied (limit (w.store.contexts p)) (w.store.contexts p).p_user

-- What the invariant reads is the same in two worlds.
pub record Alike (p : ℕ) (w w' : World Heap) : Type 0 where
  pub live : (r : ℕ) → is_live w'.history r ≡ is_live w.history r
  pub slots : (w'.store.contexts p).p_user ≡ (w.store.contexts p).p_user
  pub room : (w'.store.contexts p).max_user_num ≡ (w.store.contexts p).max_user_num
  pub servers : (r : ℕ) → (w'.store.users r).p_server ≡ (w.store.users r).p_server

pub Alike-IsSound : {p : ℕ} {w w' : World Heap} → IsSound p w → Alike p w w' → IsSound p w'
Alike-IsSound {p} {w} {w'} v a = record {
  alive = a.live p ∙ v.alive;
  table = record {
    width = rw a.slots v.table.width;
    bounded = rw a.room v.table.bounded;
    within = λ i h. rw a.room (v.table.within i (λ z. h (at i ∙ z)));
    distinct = λ i j h e. v.table.distinct i j (λ z. h (at i ∙ z)) (sym (at i) ∙ (e ∙ at j));
  };
  users_live = λ i h. rw (at i, a.live) (v.users_live i (λ z. h (at i ∙ z)));
  users_apart = λ i h. rw (at i) (v.users_apart i (λ z. h (at i ∙ z)));
  users_mine = λ i h. rw (at i, a.servers) (v.users_mine i (λ z. h (at i ∙ z)));
}
  where
    at : (i : ℕ) → slot (w'.store.contexts p) i ≡ slot (w.store.contexts p) i
    at i = ap (λ (slots : List ℕ). get_or slots i 0) a.slots

-- Nothing that was allocated has changed, and nothing else is allocated.
abbrev pub Same : World Heap → World Heap → Type 0
Same w w' =
    (r : ℕ)
    → (is_live w'.history r ≡ is_live w.history r)
      × (is_live w.history r ≡ true → w'.store.contexts r ≡ w.store.contexts r)
      × (is_live w.history r ≡ true → w'.store.users r ≡ w.store.users r)

pub Same-IsSound : {p : ℕ} {w w' : World Heap} → IsSound p w → Same w w' → IsSound p w'
Same-IsSound {p} {w} {w'} v s = record {
  alive = (s p).0 ∙ v.alive;
  table = subst IsTable (sym ((s p).1 v.alive)) v.table;
  users_live = λ i h. ground (arith, same_context, at i, v.users_live i);
  users_apart = λ i h. ground (arith, same_context, v.users_apart i);
  users_mine = λ i h. ground (arith, same_context, at i, v.users_mine i, v.users_live i);
}
  where
    same_context : w'.store.contexts p ≡ w.store.contexts p
    same_context = (s p).1 v.alive

    at :
        (i : ℕ)
        → let q = slot (w'.store.contexts p) i in
          (is_live w'.history q ≡ is_live w.history q)
          × (is_live w.history q ≡ true → w'.store.users q ≡ w.store.users q)
    at i = ((s (slot (w'.store.contexts p) i)).0, (s (slot (w'.store.contexts p) i)).2)

pub Same-IsValid : {p : ℕ} {w w' : World Heap} → IsValid p w → Same w w' → IsValid p w'
Same-IsValid {p} {w} {w'} v s = record {
  sound = Same-IsSound v.sound s;
  counted = rw ((s p).1 v.alive) v.counted;
}
