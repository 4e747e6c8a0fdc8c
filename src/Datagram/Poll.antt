-- ===== src/Datagram/Poll.antt =====
-- source/comm_udp.c, source/comm_ipc_dgram.c and source/comm_raw.c: the receiving call, for an
-- endpoint that has no callback.
use libcomm.Prelude.{
  ℕ, ◌≤◌, ◌≡◌, ◌≢◌, ◌⊎◌, refl, true, false, arith, ℤ, minus_one, is_negative, pos, pos_part, Bool,
  List, ◌∷◌, Option, some, none, length, take, take-append, drop, if◌then◌else◌,
}
use libcomm.Os.{World, Os, Reply, recvfrom}
use libcomm.Memory.{is_live, RecvfromFits}
use libcomm.Returns.{Returns}
use libcomm.Threads.{received, length-received}
use libcomm.Datagram.{Heap, Kind, receive}
use libcomm.Datagram.Laws.{Failing}
use libcomm.Datagram.Life.{nonzero}

-- What a result `v` and the bytes `after` left in the buffer are, where it held `before`.
pub record Polled (fails : ℤ → Bool) (size : ℕ) (message before : List ℕ) (v : ℤ) (after : List ℕ)
    : Type 0 where
  pub bounded : fails v ≡ false → pos_part v ≤ size
  pub same_length : length after ≡ length before
  pub front : fails v ≡ false → take (pos_part v) after ≡ message
  pub untouched : fails v ≡ true → after ≡ before

module _ {Place : Type 0} (os : Os) (fits : RecvfromFits os) (kind : Kind Place)
    (failing : Failing kind) (p : ℕ) where
  reply-Polled :
      (r : Reply) (size : ℕ) (buffer : List ℕ)
      → ((m : ℕ) → r.value ≡ pos m → (length r.payload ≡ m) × (m ≤ size))
      → size ≤ length buffer
      → Polled kind.fails size r.payload buffer r.value
          (if kind.fails r.value then buffer else received r.payload buffer)
  reply-Polled r size buffer h room = record {
    bounded = ground (arith, failing r.value, h (pos_part r.value));
    same_length =
        ground (arith, failing r.value, h (pos_part r.value), length-received r.payload buffer);
    front = ground (
      arith,
      failing r.value,
      h (pos_part r.value),
      take-append r.payload (drop (length r.payload) buffer),
    );
    untouched = ground arith;
  }

  -- With a descriptor, no callback and room in the buffer, one `recvfrom` is made.
  pub receive-Polled :
      (buffer : List ℕ) (size : ℕ) (w : World (Heap Place))
      → p ≢ 0
      → is_live w.history p ≡ true
      → is_negative (w.store p).fd ≡ false
      → (w.store p).p_recv_func ≡ 0
      → size ≢ 0
      → size ≤ length buffer
      → Returns (receive os kind p (some buffer) size w) (λ x w'.
        let r = os.reply w.history (recvfrom (w.store p).fd size) in
        (after : List ℕ) × (x ≡ (r.value, some after))
        × Polled kind.fails size r.payload buffer r.value after
        × (w' ≡ record w { history = (recvfrom (w.store p).fd size, r) ∷ w.history }))
  unfolding receive
  receive-Polled buffer size w nz live valid none_set some_size room =
      rw (nonzero p nz, live, valid, none_set, nonzero size some_size, Returns)
        (
          _,
          refl,
          reply-Polled (os.reply w.history (recvfrom (w.store p).fd size)) size buffer
              (fits w.history (w.store p).fd size) room,
          refl,
        )

module _ {Place : Type 0} (os : Os) (kind : Kind Place) (p : ℕ) where
  -- The receiving call of a datagram endpoint gives -1, makes no call and leaves buffer and
  -- memory as they are if its handle is NULL, its endpoint has no descriptor or has a callback,
  -- there is no buffer, or the size is 0; the endpoint at the handle is allocated.
  receive_rejects :
      (p_data : Option (List ℕ)) (size : ℕ) (w : World (Heap Place))
      → is_live w.history p ≡ true
      → (p ≡ 0)
        ⊎ (is_negative (w.store p).fd ≡ true)
        ⊎ ((w.store p).p_recv_func ≢ 0)
        ⊎ (p_data ≡ none)
        ⊎ (size ≡ 0)
      → receive os kind p p_data size w ≡ some ((minus_one, p_data), w)
  unfolding receive
  receive_rejects p_data size w live h = ground arith
