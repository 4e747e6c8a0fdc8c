-- ===== src/IpcStreamClient/Open.antt =====
-- source/comm_ipc_stream.c: opening, connecting and closing a client.
use libcomm.Prelude.{
  false, ◌==◌, not, if◌then◌else◌, none, ◌<◌, ◌≤◌, length, take, length-take-le, Bool-cases, inl,
  inr, ℕ, zero, suc, ◌≡◌, ◌≢◌, ◌⊎◌, refl, sym, ap, ◌∙◌, true, false, arith, ℤ, pos, minus_one,
  is_negative, is_zero, List, ◌∷◌,
}
use native.Mathlib.Decide.{ℕ_discrete}
use libcomm.Os.{
  pure, ◌>>◌, History, Reply, unlink, socket, World, Os, Family, SocketType, malloc, ◌>>=◌,
}
use libcomm.Memory.{release, update, is_live, is_open, FreshBlocks, FreshSockets}
use libcomm.Returns.{Returns, Returns-bind, Returns-mono}
use libcomm.TcpClient.{Act, Heap}
use libcomm.TcpClient.Api.{start_receiving}
use libcomm.TcpClient.Open.{Restored, Opened, Shut, Unchanged, Opened-Shut}
use libcomm.IpcStreamClient.{
  Context, sun_path_size, new_context, init_client, uninit_client, client_init, client_uninit,
  client_connect,
}

-- What `init_client` leaves of the context `c` at `p`.
abbrev Bound : Context → ℕ → World Heap → ℤ → World Heap → Type 0
Bound c p w e w' =
    ((r : ℕ) → is_live w'.history r ≡ is_live w.history r)
    × (is_zero e ≡ false → (fd : ℤ) → is_open w'.history fd ≡ is_open w.history fd)
    × (is_zero e ≡ true
        → (is_negative (w'.store p).fd ≡ false)
          × (is_open w.history (w'.store p).fd ≡ false)
          × (is_open w'.history (w'.store p).fd ≡ true)
          × ((fd : ℤ) → fd ≢ (w'.store p).fd → is_open w'.history fd ≡ is_open w.history fd)
          × ((w'.store p).running ≡ c.running)
          × ((w'.store p).p_client_recv_func ≡ c.p_client_recv_func)
          × ((w'.store p).p_client_exit_func ≡ c.p_client_exit_func))

-- The history once the old socket file is removed.
abbrev pub unlinked : Os → Context → World Heap → History
unlinked os c w =
    (unlink c.local_addr.path, os.reply w.history (unlink c.local_addr.path)) ∷ w.history

new_context_lem :
    (file_name : List ℕ) (recv_func exit_func arg : ℕ)
    → let new = new_context file_name recv_func exit_func arg in
      (new.running ≡ false)
      × (new.p_client_recv_func ≡ recv_func)
      × (new.p_client_exit_func ≡ exit_func)
      × (new.local_addr.path ≡ take 255 file_name)
unfolding new_context
new_context_lem file_name recv_func exit_func arg = (refl, refl, refl, refl)

-- What follows `init_client`.
abbrev finish : Os → ℕ → ℤ → Act ℕ
finish os q e = if not (is_zero e) then (release os q >> pure 0) else pure q

finish-Opened :
    (os : Os) (recv_func exit_func : ℕ) (new : Context) (q : ℕ) (w w1 w' : World Heap) (e : ℤ)
    → q ≢ 0
    → is_live w.history q ≡ false
    → is_live w1.history q ≡ true
    → ((r : ℕ) → r ≢ q → is_live w1.history r ≡ is_live w.history r)
    → ((fd : ℤ) → is_open w1.history fd ≡ is_open w.history fd)
    → new.running ≡ false
    → new.p_client_recv_func ≡ recv_func
    → new.p_client_exit_func ≡ exit_func
    → Bound new q w1 e w'
    → Returns
        (finish os q e w')
        (λ p w2. (p ≡ 0 → Restored w w2) × (p ≢ 0 → Opened recv_func exit_func p w w2))
finish-Opened os recv_func exit_func new q w w1 w' e nz dead live others same idle rf ef
      (lives, kept, opened) =
    elim (Bool-cases (is_zero e)) [
      | inl z ↦ rw z ((λ h. absurd (nz h)), (λ _. made (opened z)))
      | inr z ↦
          rw (z, lives q ∙ live, release, Returns)
            ((λ _. (freed, λ fd. kept z fd ∙ same fd)), (λ h. absurd (h refl)))
    ]
  where
    made :
        (is_negative (w'.store q).fd ≡ false)
          × (is_open w1.history (w'.store q).fd ≡ false)
          × (is_open w'.history (w'.store q).fd ≡ true)
          × ((fd : ℤ) → fd ≢ (w'.store q).fd → is_open w'.history fd ≡ is_open w1.history fd)
          × ((w'.store q).running ≡ new.running)
          × ((w'.store q).p_client_recv_func ≡ new.p_client_recv_func)
          × ((w'.store q).p_client_exit_func ≡ new.p_client_exit_func)
        → Opened recv_func exit_func q w w'
    made o = (
      dead,
      lives q ∙ live,
      λ r h. lives r ∙ others r h,
      o.0,
      sym (same (w'.store q).fd) ∙ o.1,
      o.2,
      λ fd h. o.3 fd h ∙ same fd,
      o.4 ∙ idle,
      o.5 ∙ rf,
      o.6 ∙ ef,
    )

    freed : (r : ℕ) → (if q == r then false else is_live w'.history r) ≡ is_live w.history r
    freed r = elim (ℕ_discrete q r) [
      | yes h ↦ ground (arith, h, ap (is_live w.history) h)
      | no h ↦ ground (arith, h, lives r, others r (λ k. h (sym k)))
    ]

module _ (os : Os) (blocks : FreshBlocks os) (sockets : FreshSockets os) where
  init_client-Bound :
      (c : Context) (p : ℕ) (w : World Heap)
      → w.store p ≡ c
      → is_live w.history p ≡ true
      → length c.local_addr.path < sun_path_size
      → Returns (init_client os p w) (Bound c p w)
  unfolding init_client
  init_client-Bound c p w e live short =
      ground (arith, sockets (unlinked os c w) Family.unix SocketType.stream)

  pub client_init_opens :
      (file_name : List ℕ) (recv_func exit_func arg : ℕ) (w : World Heap)
      → length file_name < sun_path_size
      → Returns
          (client_init os file_name recv_func exit_func arg w)
          (λ p w'. (p ≡ 0 → Restored w w') × (p ≢ 0 → Opened recv_func exit_func p w w'))
  unfolding client_init
  client_init_opens file_name recv_func exit_func arg w short =
      ground (arith, blocks w.history, opening)
    where
      new : Context
      new = new_context file_name recv_func exit_func arg

      m : Reply
      m = os.reply w.history malloc

      w1 : World Heap
      w1 = record { history = (malloc, m) ∷ w.history; store = update w.store m.pointer new }

      bound : m.pointer ≢ 0 → Returns (init_client os m.pointer w1) (Bound new m.pointer w1)
      bound nz = init_client-Bound new m.pointer w1 (ground arith) (ground arith) (
          rw (new_context_lem file_name recv_func exit_func arg).3
            (omega (arith, short, length-take-le 255 file_name)))

      fields :
          (new.running ≡ false)
          × (new.p_client_recv_func ≡ recv_func)
          × (new.p_client_exit_func ≡ exit_func)
          × (new.local_addr.path ≡ take 255 file_name)
      fields = new_context_lem file_name recv_func exit_func arg

      Result : ℕ → World Heap → Type 0
      Result p w' = (p ≡ 0 → Restored w w') × (p ≢ 0 → Opened recv_func exit_func p w w')

      opening :
          m.pointer ≢ 0 → Returns ((init_client os m.pointer >>= finish os m.pointer) w1) Result
      opening nz =
          Returns-bind (init_client os m.pointer) (finish os m.pointer) w1 (Bound new m.pointer w1)
            Result (bound nz)
            (λ e w' bd.
              finish-Opened os recv_func exit_func new m.pointer w w1 w' e nz (blocks w.history)
                (ground arith) (ground arith) (λ fd. refl) fields.0 fields.1 fields.2 bd)

module _ (os : Os) where
  pub client_uninit_outcome :
      (p : ℕ) (w : World Heap)
      → p ≢ 0
      → is_live w.history p ≡ true
      → Returns (client_uninit os p w) (λ _. Shut p w)
  unfolding client_uninit uninit_client
  client_uninit_outcome p w nz live = ground arith

  -- Connecting an allocated stream client of a UNIX socket that is not running, to a file name
  -- shorter than sun_path, meets no fault and gives 0 or -1; the client is running exactly if it
  -- is 0. Its descriptor, the other clients, the memory allocated and the descriptors open stay
  -- as they are.
  pub ipc_client_connect_runs :
      (p : ℕ) (file_name : List ℕ) (w : World Heap)
      → is_live w.history p ≡ true
      → (w.store p).running ≡ false
      → length file_name < sun_path_size
      → Returns (client_connect os p file_name w) (λ e w'.
        ((e ≡ pos 0) ⊎ (e ≡ minus_one))
        × ((w'.store p).running ≡ is_zero e)
        × ((w'.store p).fd ≡ (w.store p).fd)
        × ((r : ℕ) → is_live w'.history r ≡ is_live w.history r)
        × ((fd : ℤ) → is_open w'.history fd ≡ is_open w.history fd)
        × ((r : ℕ) → r ≢ p → w'.store r ≡ w.store r))
  unfolding client_connect start_receiving
  ipc_client_connect_runs p file_name w live idle short = ground arith

  -- If the local path of an allocated stream client has as many characters as sun_path or more,
  -- and the system grants a socket, then initializing it writes past the end of the address, a
  -- fault.
  init_client_overflows :
      (c : Context) (p : ℕ) (w : World Heap)
      → w.store p ≡ c
      → is_live w.history p ≡ true
      → sun_path_size ≤ length c.local_addr.path
      → is_negative (os.reply (unlinked os c w) (socket Family.unix SocketType.stream)).value
        ≡ false
      → init_client os p w ≡ none
  unfolding init_client
  init_client_overflows c p w e live long granted = ground arith

module _ (os : Os) (blocks : FreshBlocks os) (sockets : FreshSockets os) where
  -- If malloc gives fresh blocks, socket fresh descriptors, and the file name is shorter than
  -- sun_path, a stream client of a UNIX socket that is initialized and then un-initialized meets
  -- no fault and leaves the same memory allocated, and the same descriptors open but for 0,
  -- whether or not it could be opened.
  pub ipc_client_restores :
      (file_name : List ℕ) (recv_func exit_func arg : ℕ) (w : World Heap)
      → length file_name < sun_path_size
      → Returns
          ((client_init os file_name recv_func exit_func arg >>= client_uninit os) w)
          (λ _. Unchanged w)
  unfolding client_uninit
  ipc_client_restores file_name recv_func exit_func arg w short =
      Returns-bind (client_init os file_name recv_func exit_func arg) (client_uninit os) w
        (λ p w'. (p ≡ 0 → Restored w w') × (p ≢ 0 → Opened recv_func exit_func p w w')) _
        (client_init_opens os blocks sockets file_name recv_func exit_func arg w short) closing
    where
      closing :
          (p : ℕ) (w1 : World Heap)
          → (p ≡ 0 → Restored w w1) × (p ≢ 0 → Opened recv_func exit_func p w w1)
          → Returns (client_uninit os p w1) (λ _. Unchanged w)
      closing zero w1 (same, _) = ground (arith, same refl)
      closing (suc p) w1 (_, o) =
          Returns-mono (client_uninit os (suc p) w1) _ _
            (client_uninit_outcome os (suc p) w1 (λ z. omega (arith, z))
              (o (λ z. omega (arith, z))).1)
            (λ _ w' c.
              Opened-Shut recv_func exit_func w (suc p) w1 w' (o (λ z. omega (arith, z))) c)
