-- ===== src/Memory.antt =====
-- Which blocks are allocated and which descriptors are open, read off the calls made so far, and
-- the access to memory that they allow.
use libcomm.Prelude.{
  arith, refl, ℕ, ℤ, Bool, true, false, not, [], ◌∷◌, none, some, ◌==◌, if◌then◌else◌, eq_ℤ,
  is_negative, ◌≡◌, pos, ◌≤◌, length,
}
use libcomm.Os.{
  Call, malloc, free, socket, accept, recv, recvfrom, close, open_file, inotify_init, read, Reply,
  History, Os, World, M, perform,
}

-- What one call does to the block at `p`, allocated before or not.
abbrev pub block_after : Call → Reply → ℕ → Bool → Bool
block_after malloc r p before = if r.pointer == p then not (p == 0) else before
block_after (free q) r p before = if q == p then false else before
block_after _ r p before = before

abbrev pub is_live : History → ℕ → Bool
is_live [] p = false
is_live ((c, r) ∷ h) p = block_after c r p (is_live h p)

abbrev pub opened : Reply → ℤ → Bool → Bool
opened r fd before = if eq_ℤ r.value fd then not (is_negative fd) else before

abbrev pub fd_after : Call → Reply → ℤ → Bool → Bool
fd_after (socket f t) r fd before = opened r fd before
fd_after (accept s) r fd before = opened r fd before
fd_after (open_file path mode) r fd before = opened r fd before
fd_after inotify_init r fd before = opened r fd before
fd_after (close q) r fd before = if eq_ℤ q fd then false else before
fd_after _ r fd before = before

abbrev pub is_open : History → ℤ → Bool
is_open [] fd = false
is_open ((c, r) ∷ h) fd = fd_after c r fd (is_open h fd)

abbrev pub update {ℓ} : {A : Type ℓ} → (ℕ → A) → ℕ → A → ℕ → A
update f p a q = if p == q then a else f q

pub update_self {ℓ} : {A : Type ℓ} (f : ℕ → A) (p : ℕ) (a : A) → update f p a p ≡ a
update_self f p a = ground arith

module _ {S : Type 0} where
  -- A use of the block at `p`, which must be allocated.
  abbrev pub touch : {A : Type 0} → ℕ → (World S → A × World S) → M S A
  touch p f w = elim (is_live w.history p) [ true ↦ some (f w) | false ↦ none ]

  -- `free` of a block that is not allocated is a fault too.
  abbrev pub release : Os → ℕ → M S (Unit {0})
  release os p w = elim (is_live w.history p) [ true ↦ perform os (free p) w | false ↦ none ]

-- malloc gives NULL or a block that is not in use.
abbrev pub FreshBlocks : Os → Type 0
FreshBlocks os = (h : History) → is_live h (os.reply h malloc).pointer ≡ false

-- socket and accept give a negative number or a descriptor that is not open.
abbrev pub FreshSockets : Os → Type 0
FreshSockets os = (h : History) (f : _) (t : _) → is_open h (os.reply h (socket f t)).value ≡ false

abbrev pub FreshAccepts : Os → Type 0
FreshAccepts os = (h : History) (fd : ℤ) → is_open h (os.reply h (accept fd)).value ≡ false

-- recv writes as many bytes as it says, and no more than it was asked for.
abbrev pub RecvFits : Os → Type 0
RecvFits os =
    (h : History) (fd : ℤ) (n m : ℕ)
    → (os.reply h (recv fd n)).value ≡ pos m
    → (length (os.reply h (recv fd n)).payload ≡ m) × (m ≤ n)

-- open gives a negative number or a descriptor that is not open.
abbrev pub FreshFiles : Os → Type 0
FreshFiles os = (h : History) (f : _) (m : _) → is_open h (os.reply h (open_file f m)).value ≡ false

-- read writes as many bytes as it says, and no more than it was asked for.
abbrev pub ReadFits : Os → Type 0
ReadFits os =
    (h : History) (fd : ℤ) (n m : ℕ)
    → (os.reply h (read fd n)).value ≡ pos m
    → (length (os.reply h (read fd n)).payload ≡ m) × (m ≤ n)

-- The same of recvfrom.
abbrev pub RecvfromFits : Os → Type 0
RecvfromFits os =
    (h : History) (fd : ℤ) (n m : ℕ)
    → (os.reply h (recvfrom fd n)).value ≡ pos m
    → (length (os.reply h (recvfrom fd n)).payload ≡ m) × (m ≤ n)

-- NULL is never allocated.
pub is_live-null : (h : History) → is_live h 0 ≡ false
is_live-null [] = refl
is_live-null ((c, r) ∷ h) = ground (arith, is_live-null h)
