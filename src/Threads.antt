-- ===== src/Threads.antt =====
-- What the thread functions of source/ have in common: a loop of rounds, each of which may be the
-- last, and a buffer that `recv` writes.
pub mod Loop
use libcomm.Prelude.{
  ◌<◌, true, refl, ap, zero, suc, ℕ, ℤ, List, [], ◌∷◌, ◌++◌, take, drop, length, take-append, ◌≤◌,
  ◌≡◌, ◌%◌, ◌^◌, ◌&&◌, if◌then◌else◌, is_positive, eq_ℤ, subst, arith,
}
use libcomm.Os.{◌>>=◌, Os, M, pure, Call, Reply, History, recv}

-- COMM_BUF_SIZE.
abbrev pub comm_buf_size : ℕ
comm_buf_size = 8191

-- How one round of a loop ends: it goes on, leaves the loop, or the thread is cancelled.
pub data Round : Type 0 where
  again leave cancelled : Round

-- How a thread ends; `running` if the rounds given were not enough.
pub data Ending : Type 0 where
  exited stopped running : Ending

-- The next round of a loop, unless it has ended.
abbrev pub proceed : {S : Type 0} → M S Round → Round → M S Round
proceed rest again = rest
proceed rest leave = pure leave
proceed rest cancelled = pure cancelled

-- At most `fuel` rounds.
unfoldable pub loop : {S : Type 0} → M S Round → ℕ → M S Round
loop round zero = pure again
loop round (suc fuel) = round >>= proceed (loop round fuel)

-- `recv` writes the front of the buffer.
abbrev pub received : List ℕ → List ℕ → List ℕ
received payload buffer = payload ++ drop (length payload) buffer

-- The messages that the calls of `recv` on `fd` gave, the newest first.
abbrev pub payload_after : Call → Reply → ℤ → List (List ℕ) → List (List ℕ)
payload_after (recv s n) r fd older =
    if eq_ℤ s fd && is_positive r.value then r.payload ∷ older else older
payload_after _ r fd older = older

abbrev pub payloads : ℤ → History → List (List ℕ)
payloads fd [] = []
payloads fd ((c, r) ∷ h) = payload_after c r fd (payloads fd h)

-- The front of the buffer is what was received, and its length fits an `unsigned short`.
pub take-received :
    (payload buffer : List ℕ)
    → length payload ≤ comm_buf_size
    → take (length payload % 2 ^ 16) (received payload buffer) ≡ payload
take-received payload buffer h =
    subst (λ n. take n (received payload buffer) ≡ payload) (omega arith)
      (take-append payload (drop (length payload) buffer))

-- A message that fits the buffer leaves its size as it is.
pub length-received :
    (payload buffer : List ℕ)
    → length payload ≤ length buffer
    → length (received payload buffer) ≡ length buffer
length-received [] buffer h = refl
length-received (x ∷ payload) [] h = absurd (omega arith)
length-received (x ∷ payload) (y ∷ buffer) h = ap suc (length-received payload buffer (omega arith))

-- The peer on `fd` sends finitely much: each `recv` that gives bytes uses up some of a budget, and
-- nothing adds to it.
pub record FiniteStream (os : Os) (fd : ℤ) (budget : History → ℕ) : Type 0 where
  pub used :
      (h : History) (n : ℕ)
      → is_positive (os.reply h (recv fd n)).value ≡ true
      → budget ((recv fd n, os.reply h (recv fd n)) ∷ h) < budget h
  pub kept : (h : History) (c : Call) → budget ((c, os.reply h c) ∷ h) ≤ budget h
