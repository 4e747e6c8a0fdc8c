-- ===== src/Datagram/Laws.antt =====
-- What source/comm_udp.c, source/comm_ipc_dgram.c and source/comm_raw.c promise of their sockets.
use libcomm.Prelude.{ℕ, ℤ, ◌≡◌, ◌≢◌, true, false, is_negative, is_positive, is_zero}
use libcomm.Os.{World}
use libcomm.Memory.{is_live, is_open}
use libcomm.Returns.{Returns}
use libcomm.Datagram.{Heap, Kind}

module _ {Place : Type 0} where
  -- The memory allocated and the descriptors open are the same in two worlds.
  abbrev pub SameUse : World (Heap Place) → World (Heap Place) → Type 0
  SameUse w w' =
      ((r : ℕ) → is_live w'.history r ≡ is_live w.history r)
      × ((fd : ℤ) → is_open w'.history fd ≡ is_open w.history fd)

  -- An attempt to open a socket for the context at `p`: nothing is left, or one new descriptor.
  pub record Attempted (p : ℕ) (w : World (Heap Place)) (e : ℤ) (w' : World (Heap Place))
      : Type 0 where
    pub same_live : (r : ℕ) → is_live w'.history r ≡ is_live w.history r
    pub same_func : (w'.store p).p_recv_func ≡ (w.store p).p_recv_func
    pub none_left : is_zero e ≡ false → (fd : ℤ) → is_open w'.history fd ≡ is_open w.history fd
    pub valid : is_zero e ≡ true → is_negative (w'.store p).fd ≡ false
    pub fresh : is_zero e ≡ true → is_open w.history (w'.store p).fd ≡ false
    pub others :
        is_zero e ≡ true
        → (fd : ℤ) → fd ≢ (w'.store p).fd
        → is_open w'.history fd ≡ is_open w.history fd

  -- The descriptor of the context at `p` is closed, unless it is 0 or negative.
  pub record Closed (p : ℕ) (w w' : World (Heap Place)) : Type 0 where
    pub same_live : (r : ℕ) → is_live w'.history r ≡ is_live w.history r
    pub same_func : (w'.store p).p_recv_func ≡ (w.store p).p_recv_func
    pub closed : is_positive (w.store p).fd ≡ true → is_open w'.history (w.store p).fd ≡ false
    pub others : (fd : ℤ) → fd ≢ (w.store p).fd → is_open w'.history fd ≡ is_open w.history fd

  -- A result of `recvfrom` that does not end the receiving is a length.
  abbrev pub Failing : Kind Place → Type 0
  Failing kind = (v : ℤ) → kind.fails v ≡ false → is_negative v ≡ false

  -- What each kind of endpoint has to show. `Fits` is what opening asks of the place.
  pub record IsKind (kind : Kind Place) (Fits : Place → Type 0) : Type 0 where
    pub opens :
        (p : ℕ) (w : World (Heap Place))
        → is_live w.history p ≡ true
        → Fits (w.store p).place
        → Returns (kind.open_socket p w) (Attempted p w)
    pub closes :
        (p : ℕ) (w : World (Heap Place))
        → is_live w.history p ≡ true
        → Returns (kind.close_socket p w) (λ _. Closed p w)
    pub stops :
        (p : ℕ) (w : World (Heap Place))
        → is_live w.history p ≡ true
        → Returns (kind.stop p w) (λ _ w'.
          SameUse w w'
          × ((w'.store p).fd ≡ (w.store p).fd)
          × ((w'.store p).p_recv_func ≡ (w.store p).p_recv_func))
    pub failing : Failing kind
