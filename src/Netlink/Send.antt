-- ===== src/Netlink/Send.antt =====
-- source/comm_netlink.c: what `comm_netlinkSendToKernel` sends, message after message.
use libcomm.Prelude.{
  ℕ, zero, suc, ◌≤◌, ◌≡◌, ◌≢◌, refl, ap, ◌∙◌, arith, ℤ, true, false, List, [], ◌∷◌, ◌++◌, some,
  take, drop, length, length-take-ge, length-take-most, is_negative,
}
use libcomm.Os.{World, Os, NlHeader, Call, History, sendmsg, ◌>>◌}
use libcomm.Memory.{is_live}
use libcomm.Returns.{Returns, Returns-bind, Returns-mono}
use libcomm.Netlink.{Act, Heap, Message, payload_size, send_to_kernel}

drop-append-le : (n : ℕ) (xs ys : List ℕ) → n ≤ length xs → drop n (xs ++ ys) ≡ drop n xs ++ ys
drop-append-le zero xs ys h = refl
drop-append-le (suc n) [] ys h = absurd (omega arith)
drop-append-le (suc n) (x ∷ xs) ys h = drop-append-le n xs ys (omega arith)

length-take : (n : ℕ) (xs : List ℕ) → n ≤ length xs → length (take n xs) ≡ n
length-take n xs h = omega (arith, length-take-ge n n xs (omega arith) h, length-take-most n xs)

-- What the application asks to be sent.
pub record Request : Type 0 where
  pub bytes : List ℕ
  pub size : ℕ
  pub type : ℕ
  pub flags : ℕ
  pub seq_num : ℕ

-- The header of a message with the process of `h`.
abbrev pub header_of : NlHeader → Request → NlHeader
header_of h m = record h {
  nlmsg_len = m.size;
  nlmsg_type = m.type;
  nlmsg_flags = m.flags;
  nlmsg_seq = m.seq_num;
}

-- The request has a size, its bytes, and room in the buffer.
pub record Fits (m : Request) : Type 0 where
  pub some_size : m.size ≢ 0
  pub given : m.size ≤ length m.bytes
  pub room : m.size ≤ payload_size

module _ (os : Os) (p : ℕ) where
  abbrev pub send : Request → Act ℤ
  send m = send_to_kernel os p (some m.bytes) m.size m.type m.flags m.seq_num

  -- What the socket at `p` is ready to send with.
  pub record Ready (w : World Heap) : Type 0 where
    pub handle : p ≢ 0
    pub alive : is_live w.history p ≡ true
    pub buffer : is_live w.history (w.store.contexts p).p_send_nl_hdr ≡ true
    pub valid : is_negative (w.store.contexts p).fd ≡ false

  -- The message in the buffer to send from.
  abbrev pub buffered : World Heap → Message
  buffered w = w.store.messages (w.store.contexts p).p_send_nl_hdr

  -- The bytes of the request, before what the buffer held past them.
  abbrev pub payload_of : Request → List ℕ → List ℕ
  payload_of m old = take m.size m.bytes ++ drop m.size old

  abbrev pub sending : Request → World Heap → Call
  sending m w =
      sendmsg (w.store.contexts p).fd (header_of (buffered w).header m)
        (payload_of m (buffered w).payload)

  -- One request is sent, with the result `v`.
  record Sent (m : Request) (w : World Heap) (v : ℤ) (w' : World Heap) : Type 0 where
    pub result : v ≡ (os.reply w.history (sending m w)).value
    pub called : w'.history ≡ (sending m w, os.reply w.history (sending m w)) ∷ w.history
    pub contexts : w'.store.contexts ≡ w.store.contexts
    pub filled : buffered w' ≡ record {
      header = header_of (buffered w).header m;
      payload = payload_of m (buffered w).payload;
    }

  -- The request `n` that is sent after `m`: what follows its bytes is the rest of those of `m`.
  abbrev pub resending : Request → Request → World Heap → Call
  resending m n w = sendmsg (w.store.contexts p).fd (header_of (buffered w).header n) (
      take n.size n.bytes
      ++ (drop n.size (take m.size m.bytes) ++ drop m.size (buffered w).payload))

  -- What the two calls leave, with the result `v` of the second.
  abbrev pub Resent : Request → Request → World Heap → ℤ → World Heap → Type 0
  Resent m n w v w' =
      let h : History = (sending m w, os.reply w.history (sending m w)) ∷ w.history in
      (v ≡ (os.reply h (resending m n w)).value)
      × (w'.history ≡ (resending m n w, os.reply h (resending m n w)) ∷ h)
      × (w'.store.contexts ≡ w.store.contexts)

  send-Sent : (m : Request) (w : World Heap) → Ready w → Fits m → Returns (send m w) (Sent m w)
  unfolding send_to_kernel
  send-Sent m w r f = ground (
    arith,
    r.handle,
    r.alive,
    r.buffer,
    r.valid,
    f.some_size,
    f.given,
    f.room,
    length-take m.size m.bytes f.given,
  )

  Sent-Ready : (m : Request) (w w' : World Heap) (v : ℤ) → Ready w → Sent m w v w' → Ready w'
  Sent-Ready m w w' v r s = record {
    handle = r.handle;
    alive = rw s.called r.alive;
    buffer = rw (s.called, s.contexts) r.buffer;
    valid = rw s.contexts r.valid;
  }

  -- Let two requests each have a size that is not 0 and at most the number of their bytes and
  -- that of the payload of the buffer, and let the second have at most the size of the first.
  -- Then sending both on an allocated netlink socket with a descriptor and an allocated buffer
  -- meets no fault and makes two calls of sendmsg on the descriptor. The second has the header
  -- fields of its request with the process of the buffer's header, and its payload is the bytes
  -- of its request, then the rest of those of the first request and of what the buffer held
  -- before. The result is that of the second call, and no context has changed.
  pub resend_keeps_tail :
      (m n : Request) (w : World Heap)
      → Ready w
      → Fits m
      → Fits n
      → n.size ≤ m.size
      → Returns ((send m >> send n) w) (λ v w'. Resent m n w v w')
  resend_keeps_tail m n w r f g less =
      Returns-bind (send m) (λ _. send n) w (Sent m w) _ (send-Sent m w r f)
        (λ v1 w1 s.
          Returns-mono (send n w1) _ _ (send-Sent n w1 (Sent-Ready m w w1 v1 r s) g)
            (λ v w' t. both v1 w1 s v w' t))
    where
      h : History
      h = (sending m w, os.reply w.history (sending m w)) ∷ w.history

      -- The second call, with the descriptor `fd` and the message `b` in the buffer.
      call_of : ℤ → Message → Call
      call_of fd b = sendmsg fd (header_of b.header n) (payload_of n b.payload)

      tail :
          drop n.size (payload_of m (buffered w).payload)
          ≡ drop n.size (take m.size m.bytes) ++ drop m.size (buffered w).payload
      tail =
          drop-append-le n.size (take m.size m.bytes) (drop m.size (buffered w).payload)
            (omega (arith, less, length-take m.size m.bytes f.given))

      same : (v1 : ℤ) (w1 : World Heap) → Sent m w v1 w1 → sending n w1 ≡ resending m n w
      same v1 w1 s =
          ap (λ cs. call_of (cs p).fd (buffered w1)) s.contexts
          ∙ (ap (call_of (w.store.contexts p).fd) s.filled
              ∙ ap
                  (λ rest.
                    sendmsg (w.store.contexts p).fd (header_of (buffered w).header n)
                      (take n.size n.bytes ++ rest))
                  tail)

      both :
          (v1 : ℤ) (w1 : World Heap)
          → Sent m w v1 w1
          → (v : ℤ) (w' : World Heap) → Sent n w1 v w'
          → Resent m n w v w'
      both v1 w1 s v w' t = (
        t.result
            ∙ (ap (λ past. (os.reply past (sending n w1)).value) s.called
                ∙ ap (λ c. (os.reply h c).value) (same v1 w1 s)),
        t.called
            ∙ (ap (λ past. (sending n w1, os.reply past (sending n w1)) ∷ past) s.called
                ∙ ap (λ c. (c, os.reply h c) ∷ h) (same v1 w1 s)),
        t.contexts ∙ s.contexts,
      )
