-- ===== src/TcpServer/Send.antt =====
-- source/comm_tcp_server.c: which clients `comm_tcpIpv4ServerSendAllClient` sends to.
use libcomm.Prelude.{
  ℕ, zero, suc, ◌≤◌, ◌≡◌, refl, ap, sym, ◌∙◌, arith, ℤ, is_positive, List, [], ◌∷◌, some,
  if◌then◌else◌, ◌==◌, take, drop, get_or,
}
use libcomm.Os.{World, Os, History, send}
use libcomm.TcpServer.{User, Heap, Context}
use libcomm.TcpServer.Table.{occupied, occupied-zero}
use libcomm.TcpServer.Api.{send_from, server_send_all}
use libcomm.Returns.{Returns}
use libcomm.TcpServer.Invariant.{Same-IsSound, slot, limit, IsSound, IsValid}

-- The sockets of the users in the slots that are connected, in the order of the slots.
unfoldable pub target : (ℕ → User) → ℕ → List ℤ → List ℤ
target users q rest =
    if q == 0 then rest else if is_positive (users q).fd then (users q).fd ∷ rest else rest

unfoldable pub targets : (ℕ → User) → List ℕ → List ℤ
targets users [] = []
targets users (q ∷ slots) = target users q (targets users slots)

-- The history after `bytes` is sent to each of the sockets.
unfoldable pub sends : Os → List ℕ → List ℤ → History → History
sends os bytes [] h = h
sends os bytes (fd ∷ fds) h = sends os bytes fds ((send fd bytes, os.reply h (send fd bytes)) ∷ h)

targets-empty : (users : ℕ → User) (n : ℕ) → [] ≡ targets users (take n [])
unfolding targets
targets-empty users zero = refl
targets-empty users (suc n) = refl

targets-slot :
    (users : ℕ → User) (n i : ℕ) (slots : List ℕ)
    → targets users (take (suc n) (drop i slots))
      ≡ target users (get_or slots i 0) (targets users (take n (drop (suc i) slots)))
unfolding targets target
targets-slot users n zero [] = targets-empty users n
targets-slot users n (suc i) [] = targets-empty users n
targets-slot users n zero (q ∷ slots) = refl
targets-slot users n (suc i) (q ∷ slots) = targets-slot users n i slots

targets-none :
    (users : ℕ → User) (n : ℕ) (slots : List ℕ)
    → occupied n slots ≡ 0
    → targets users (take n slots) ≡ []
unfolding targets target
targets-none users zero slots e = refl
targets-none users (suc n) [] e = refl
targets-none users (suc n) (q ∷ slots) e =
    ground (arith, occupied-zero n q slots e, targets-none users n slots)

-- The slots past the limit hold no users.
targets-take :
    (users : ℕ → User) (n : ℕ) (slots : List ℕ)
    → ((i : ℕ) → n ≤ i → get_or slots i 0 ≡ 0)
    → targets users (take n slots) ≡ targets users slots
unfolding targets target
targets-take users zero [] h = refl
targets-take users zero (q ∷ slots) h =
    ground (arith, h 0, targets-take users zero slots (λ i l. h (suc i) (omega arith)))
targets-take users (suc n) [] h = refl
targets-take users (suc n) (q ∷ slots) h =
    ap (target users q) (targets-take users n slots (λ i l. h (suc i) (omega arith)))

-- The bytes are sent to each of the sockets, and nothing else is done.
abbrev pub Sent : Os → List ℕ → List ℤ → World Heap → World Heap → Type 0
Sent os bytes fds w w' = (w'.history ≡ sends os bytes fds w.history) × (w'.store ≡ w.store)

module _ (os : Os) (p : ℕ) (bytes : List ℕ) where
  send_from_sends :
      (n i : ℕ) (w : World Heap)
      → IsSound p w
      → Returns (send_from os p bytes n i w) (λ _.
        Sent os bytes (targets w.store.users (take n (drop i (w.store.contexts p).p_user))) w)
  unfolding send_from sends target targets
  send_from_sends zero i w v = (refl, refl)
  send_from_sends (suc n) i w v =
      rw (targets-slot w.store.users n i (w.store.contexts p).p_user)
        (step (λ w'. send_from_sends n (suc i) w'))
    where
      c : Context
      c = w.store.contexts p

      fd : ℤ
      fd = (w.store.users (slot c i)).fd

      rest : List ℤ
      rest = targets w.store.users (take n (drop (suc i) c.p_user))

      w1 : World Heap
      w1 = record w { history = (send fd bytes, os.reply w.history (send fd bytes)) ∷ w.history }

      step :
          ((w' : World Heap)
            → IsSound p w'
            → Returns (send_from os p bytes n (suc i) w') (λ _.
              Sent os bytes
                (targets w'.store.users (take n (drop (suc i) (w'.store.contexts p).p_user)))
                w'))
          → Returns
              (send_from os p bytes (suc n) i w)
              (λ _. Sent os bytes (target w.store.users (slot c i) rest) w)
      step ih = ground (
        arith,
        v.alive,
        v.users_live i,
        ih w v,
        ih w1 (Same-IsSound v (λ r. (refl, λ _. refl, λ _. refl))),
      )

-- On a valid server, comm_tcpIpv4ServerSendAllClient meets no fault and changes nothing but to
-- send the first size bytes of the data once to each user in the table that is connected, in the
-- order of the slots; nothing is sent if size is 0.
pub server_send_all_sends :
    (os : Os) (p : ℕ) (bytes : List ℕ) (size : ℕ) (w : World Heap)
    → IsValid p w
    → let fds = targets w.store.users (w.store.contexts p).p_user in
      Returns
        (server_send_all os p (some bytes) size w)
        (λ _. Sent os (take size bytes) (if size == 0 then [] else fds) w)
unfolding server_send_all sends
server_send_all_sends os p bytes size w v =
    ground
      (arith, v.alive, nobody, send_from_sends os p (take size bytes) (limit c) 0 w v.sound, whole)
  where
    c : Context
    c = w.store.contexts p

    whole : targets w.store.users (take (limit c) c.p_user) ≡ targets w.store.users c.p_user
    whole = targets-take w.store.users (limit c) c.p_user (λ i h. ground (arith, v.table.within i))

    nobody : c.user_num ≡ 0 → targets w.store.users c.p_user ≡ []
    nobody e = sym whole ∙ targets-none w.store.users (limit c) c.p_user (sym v.counted ∙ e)
