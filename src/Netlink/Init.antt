-- ===== src/Netlink/Init.antt =====
-- source/comm_netlink.c: `_netlinkInit` either makes a socket and two buffers or leaves nothing behind.
use libcomm.Prelude.{
  ℕ, ◌≡◌, ◌≢◌, true, false, arith, ℤ, is_negative, is_zero, ◌∷◌, eq_ℤ, eq_ℤ-sound, eq_ℤ-complete,
  sym, ap, ◌∙◌, Bool-cases, inl, inr, [],
}
use native.Mathlib.Decide.{ℕ_discrete}
use libcomm.Os.{World, Os, Family, SocketType, History, Reply, malloc, socket, bind, getpid}
use libcomm.Memory.{is_live, is_open, is_live-null, update, FreshBlocks, FreshSockets}
use libcomm.Returns.{Returns, Returns-mono}
use libcomm.Datagram.Life.{nonzero}
use libcomm.Netlink.{Heap, init_receive, init_buffers, init_netlink, new_message}

-- The buffers `s` and `r` are new blocks, and no other block has changed.
pub record Buffers (s r : ℕ) (h h' : History) : Type 0 where
  pub new_send : is_live h s ≡ false
  pub new_recv : is_live h r ≡ false
  pub apart : s ≢ r
  pub live_send : is_live h' s ≡ true
  pub live_recv : is_live h' r ≡ true
  pub other_blocks : (q : ℕ) → q ≢ s → q ≢ r → is_live h' q ≡ is_live h q

-- What is left by the steps from the buffers on, with the descriptor `fd`.
pub record Made (p : ℕ) (fd e : ℤ) (w w' : World Heap) : Type 0 where
  pub none_live : is_zero e ≡ false → (q : ℕ) → is_live w'.history q ≡ is_live w.history q
  pub shut : is_zero e ≡ false → is_open w'.history fd ≡ false
  pub others : (d : ℤ) → d ≢ fd → is_open w'.history d ≡ is_open w.history d
  pub kept : is_zero e ≡ true → is_open w'.history fd ≡ is_open w.history fd
  pub its_fd : is_zero e ≡ true → (w'.store.contexts p).fd ≡ fd
  pub buffers :
      is_zero e ≡ true
      → Buffers
          (w'.store.contexts p).p_send_nl_hdr
          (w'.store.contexts p).p_recv_nl_hdr
          w.history
          w'.history

module _ (os : Os) (blocks : FreshBlocks os) (p : ℕ) where
  -- Once the buffer `s` is there.
  record Received (fd : ℤ) (s : ℕ) (e : ℤ) (w w' : World Heap) : Type 0 where
    gone : is_zero e ≡ false → is_live w'.history s ≡ false
    none_live : is_zero e ≡ false → (q : ℕ) → q ≢ s → is_live w'.history q ≡ is_live w.history q
    shut : is_zero e ≡ false → is_open w'.history fd ≡ false
    others : (d : ℤ) → d ≢ fd → is_open w'.history d ≡ is_open w.history d
    kept : is_zero e ≡ true → is_open w'.history fd ≡ is_open w.history fd
    its_fd : is_zero e ≡ true → (w'.store.contexts p).fd ≡ fd
    its_send : is_zero e ≡ true → (w'.store.contexts p).p_send_nl_hdr ≡ s
    newly : is_zero e ≡ true → is_live w.history (w'.store.contexts p).p_recv_nl_hdr ≡ false
    lives : is_zero e ≡ true → is_live w'.history (w'.store.contexts p).p_recv_nl_hdr ≡ true
    same :
        is_zero e ≡ true
        → (q : ℕ) → q ≢ (w'.store.contexts p).p_recv_nl_hdr
        → is_live w'.history q ≡ is_live w.history q

  init_receive-Received :
      (fd : ℤ) (s : ℕ) (w : World Heap)
      → is_live w.history p ≡ true
      → is_live w.history s ≡ true
      → Returns (init_receive os p fd s w) (λ e w'. Received fd s e w w')
  unfolding init_receive
  init_receive-Received fd s w live buffer =
      ground (arith, blocks w.history, is_live-null w.history)

  -- The world once the buffer to send from is filled in.
  abbrev filled : World Heap → World Heap
  filled w =
      let m = os.reply w.history malloc in
      let h : History = (malloc, m) ∷ w.history in
      let i = os.reply h getpid in
      record {
        history = (getpid, i) ∷ h;
        store = record w.store {
          messages = update w.store.messages m.pointer (new_message i.pointer (0 ∷ []));
        };
      }

  abbrev given : World Heap → ℕ
  given w = (os.reply w.history malloc).pointer

  given_new :
      (w : World Heap)
      → given w ≢ 0
      → (is_live w.history (given w) ≡ false)
        × (is_live (filled w).history (given w) ≡ true)
        × ((q : ℕ) → q ≢ given w → is_live (filled w).history q ≡ is_live w.history q)
  given_new w nz = (blocks w.history, ground arith, λ q h. ground arith)

  Received-Made :
      (fd e : ℤ) (w w' : World Heap)
      → given w ≢ 0
      → Received fd (given w) e (filled w) w'
      → Made p fd e w w'
  Received-Made fd e w w' nz r =
      let (newly, lives, same) = given_new w nz in
      record {
        none_live = λ z q. elim (ℕ_discrete q (given w)) [
          | yes x ↦ rw x (r.gone z ∙ sym newly)
          | no n ↦ r.none_live z q n ∙ same q n
        ];
        shut = r.shut;
        others = r.others;
        kept = r.kept;
        its_fd = r.its_fd;
        buffers = λ z. rw (r.its_send z) (
            let apart : given w ≢ (w'.store.contexts p).p_recv_nl_hdr =
              λ x. ground (arith, lives, r.newly z, ap (is_live (filled w).history) x) in
            record {
              new_send = newly;
              new_recv = sym (same _ (λ x. apart (sym x))) ∙ r.newly z;
              apart = apart;
              live_send = r.same z (given w) apart ∙ lives;
              live_recv = r.lives z;
              other_blocks = λ q n k. r.same z q k ∙ same q n;
            });
      }

  init_buffers-Made :
      (fd : ℤ) (w : World Heap)
      → is_live w.history p ≡ true
      → Returns (init_buffers os p fd w) (λ e w'. Made p fd e w w')
  unfolding init_buffers
  init_buffers-Made fd w live = elim (ℕ_discrete (given w) 0) [
    | yes z ↦ ground (arith, z, is_live-null w.history)
    | no nz ↦
        let (newly, lives, same) = given_new w nz in
        rw (nonzero (given w) nz, lives, Returns)
          (Returns-mono (init_receive os p fd (given w) (filled w))
            (λ e w'. Received fd (given w) e (filled w) w') (λ e w'. Made p fd e w w')
            (init_receive-Received fd (given w) (filled w)
              (same p (λ x. ground (arith, live, newly, ap (is_live w.history) x)) ∙ live) lives)
            (λ e w' r. Received-Made fd e w w' nz r))
  ]

-- What `_netlinkInit` comes to.
pub record Opened (p : ℕ) (e : ℤ) (w w' : World Heap) : Type 0 where
  pub none_live : is_zero e ≡ false → (q : ℕ) → is_live w'.history q ≡ is_live w.history q
  pub none_open : is_zero e ≡ false → (d : ℤ) → is_open w'.history d ≡ is_open w.history d
  pub valid : is_zero e ≡ true → is_negative (w'.store.contexts p).fd ≡ false
  pub fresh : is_zero e ≡ true → is_open w.history (w'.store.contexts p).fd ≡ false
  pub opened : is_zero e ≡ true → is_open w'.history (w'.store.contexts p).fd ≡ true
  pub others :
      is_zero e ≡ true
      → (d : ℤ) → d ≢ (w'.store.contexts p).fd
      → is_open w'.history d ≡ is_open w.history d
  pub buffers :
      is_zero e ≡ true
      → Buffers
          (w'.store.contexts p).p_send_nl_hdr
          (w'.store.contexts p).p_recv_nl_hdr
          w.history
          w'.history

module _ (os : Os) (blocks : FreshBlocks os) (sockets : FreshSockets os) (p : ℕ)
    (w : World Heap) where
  abbrev s : Reply
  s = os.reply w.history (socket Family.netlink SocketType.raw)

  -- The world once the socket is bound.
  abbrev bound : World Heap
  bound =
      let h : History = (socket Family.netlink SocketType.raw, s) ∷ w.history in
      let c = bind s.value (w.store.contexts p).local_addr in
      record w { history = (c, os.reply h c) ∷ h }

  Made-Opened :
      (e : ℤ) (w' : World Heap)
      → is_negative s.value ≡ false
      → Made p s.value e bound w'
      → Opened p e w w'
  Made-Opened e w' valid m = record {
    none_live = m.none_live;
    none_open = λ z d. elim (Bool-cases (eq_ℤ d s.value)) [
      | inl x ↦
          ground (
            arith,
            eq_ℤ-sound d s.value x,
            m.shut z,
            sockets w.history Family.netlink SocketType.raw,
          )
      | inr x ↦ ground (arith, eq_ℤ-complete d s.value x, m.others d)
    ];
    valid = λ z. rw (m.its_fd z) valid;
    fresh = λ z. rw (m.its_fd z) (sockets w.history Family.netlink SocketType.raw);
    opened = λ z. rw (m.its_fd z) (m.kept z ∙ ground (arith, valid));
    others = λ z d n. ground (arith, m.its_fd z, m.others d);
    buffers = λ z.
        let b = m.buffers z in
        record {
          new_send = b.new_send;
          new_recv = b.new_recv;
          apart = b.apart;
          live_send = b.live_send;
          live_recv = b.live_recv;
          other_blocks = b.other_blocks;
        };
  }

  -- If malloc gives fresh blocks and socket fresh descriptors, _netlinkInit of an allocated
  -- context meets no fault. If it fails, the same memory is allocated and the same descriptors
  -- are open as before. If it gives 0, the context has a new open descriptor and two new buffers
  -- that are not the same block, and no other memory and no other descriptor has changed.
  init_netlink-Opened :
      is_live w.history p ≡ true → Returns (init_netlink os p w) (λ e w'. Opened p e w w')
  unfolding init_netlink
  init_netlink-Opened live =
      ground (arith, live, sockets w.history Family.netlink SocketType.raw, made)
    where
      made :
          is_negative s.value ≡ false
          → Returns (init_buffers os p s.value bound) (λ e w'. Opened p e w w')
      made valid =
          Returns-mono (init_buffers os p s.value bound) (λ e w'. Made p s.value e bound w')
            (λ e w'. Opened p e w w') (init_buffers-Made os blocks p s.value bound live)
            (λ e w'. Made-Opened e w' valid)
