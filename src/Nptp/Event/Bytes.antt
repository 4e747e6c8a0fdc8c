-- ===== src/Nptp/Event/Bytes.antt =====
-- application/nptp_event.c: the bytes of the events of inotify, and what the monitor reads of them.
use libcomm.Prelude.{
  ℕ, suc, ◌+◌, ◌*◌, ◌/◌, ◌%◌, ◌^◌, ◌<◌, ◌≤◌, ◌≡◌, ◌≢◌, refl, ap, ◌∙◌, arith, List, [], ◌∷◌, ◌++◌,
  some, get_or, replicate, length, length-replicate, length-append, append_assoc, get_or-append,
  get_or-append_left,
}
use libcomm.Udp.Address.{same_text}
use libcomm.Nptp.Event.{event_buffer, event_size, byte_at, event_len, same_at, next_event}

-- An event: the three fields that the monitor does not read, the name, and how many bytes of zero
-- follow the first after it.
pub record Event : Type 0 where
  pub fields : List ℕ
  pub name : List ℕ
  pub padding : ℕ

abbrev pub NonZero : List ℕ → Type 0
NonZero [] = Unit {0}
NonZero (b ∷ bytes) = (b ≢ 0) × NonZero bytes

abbrev pub name_bytes : Event → List ℕ
name_bytes e = e.name ++ replicate (suc e.padding) 0

abbrev pub number_le : ℕ → List ℕ
number_le n = (n % 256) ∷ ((n / 2 ^ 8) % 256) ∷ ((n / 2 ^ 16) % 256) ∷ ((n / 2 ^ 24) % 256) ∷ []

-- The bytes of `struct inotify_event`.
abbrev pub encode : Event → List ℕ
encode e = e.fields ++ (number_le (length (name_bytes e)) ++ name_bytes e)

abbrev pub encode_all : List Event → List ℕ
encode_all [] = []
encode_all (e ∷ es) = encode e ++ encode_all es

abbrev pub IsEvent : Event → Type 0
IsEvent e = (length e.fields ≡ 12) × NonZero e.name

abbrev pub AreEvents : List Event → Type 0
AreEvents [] = Unit {0}
AreEvents (e ∷ es) = IsEvent e × AreEvents es

number_le_lem :
    (n : ℕ)
    → n < 2 ^ 32
    → n % 256
        + (n / 2 ^ 8) % 256 * 2 ^ 8
        + (n / 2 ^ 16) % 256 * 2 ^ 16
        + (n / 2 ^ 24) % 256 * 2 ^ 24
      ≡ n
number_le_lem n h = omega arith

later :
    (payload name : List ℕ) (j b : ℕ)
    → ((k : ℕ) → k < length (b ∷ name) → get_or payload (j + k) 0 ≡ get_or (b ∷ name) k 0)
    → (k : ℕ) → k < length name
    → get_or payload (suc j + k) 0 ≡ get_or name k 0
later payload name j b bytes k h =
    let e : suc j + k ≡ j + suc k = omega arith in rw e (bytes (suc k) (omega arith))

-- The text at `j` is compared in full.
pub same_at-same_text :
    (payload s name : List ℕ) (j : ℕ)
    → ((k : ℕ) → k < length name → get_or payload (j + k) 0 ≡ get_or name k 0)
    → get_or payload (j + length name) 0 ≡ 0
    → NonZero name
    → j + length name < event_buffer
    → same_at payload s j ≡ some (same_text s name)
unfolding same_at byte_at
same_at-same_text payload [] [] j bytes last nz fits =
    let e : j + 0 ≡ j = omega arith in
    let at : get_or payload j 0 ≡ 0 = rw e at last in ground (arith, at)
same_at-same_text payload [] (b ∷ name) j bytes last nz fits =
    let e : j + 0 ≡ j = omega arith in
    let at : get_or payload j 0 ≡ b = rw e at (bytes 0 (omega arith)) in ground (arith, at, nz.0)
same_at-same_text payload (c ∷ s) [] j bytes last nz fits =
    let e : j + 0 ≡ j = omega arith in
    let at : get_or payload j 0 ≡ 0 = rw e at last in ground (arith, at)
same_at-same_text payload (c ∷ s) (b ∷ name) j bytes last nz fits =
    let e : j + 0 ≡ j = omega arith in
    let at : get_or payload j 0 ≡ b = rw e at (bytes 0 (omega arith)) in
    ground (
      arith,
      at,
      same_at-same_text payload s name (suc j) (later payload name j b bytes)
          (let e' : suc j + length name ≡ j + length (b ∷ name) = omega arith in rw e' last) nz.1
          (omega arith),
    )

-- The parts of an event in a buffer.
module _ (before rest : List ℕ) (e : Event) (v : IsEvent e) where
  abbrev buffer : List ℕ
  buffer = before ++ (encode e ++ rest)

  abbrev size : ℕ
  size = length (name_bytes e)

  pub length-name_bytes : size ≡ length e.name + suc e.padding
  length-name_bytes =
      length-append e.name (replicate (suc e.padding) 0)
      ∙ ap (λ (n : ℕ). length e.name + n) (length-replicate (suc e.padding) 0)

  pub length-encode : length (encode e) ≡ event_size + size
  length-encode = omega (
    arith,
    v.0,
    length-append e.fields (number_le size ++ name_bytes e),
    length-append (number_le size) (name_bytes e),
  )

  header_at :
      (k : ℕ)
      → get_or buffer (length before + (12 + k)) 0
        ≡ get_or (number_le size ++ (name_bytes e ++ rest)) k 0
  header_at k =
      get_or-append before (encode e ++ rest) (12 + k) 0
      ∙ let h : 12 + k ≡ length e.fields + k = omega (arith, v.0) in
        rw (append_assoc e.fields (number_le size ++ name_bytes e) rest, h)
          (get_or-append e.fields (number_le size ++ (name_bytes e ++ rest)) k 0)

  name_at :
      (k : ℕ) → get_or buffer (length before + event_size + k) 0 ≡ get_or (name_bytes e ++ rest) k 0
  name_at k =
      let h : length before + event_size + k ≡ length before + (12 + (4 + k)) = omega arith in
      let h' : 4 + k ≡ suc (suc (suc (suc k))) = omega arith in
      let past : get_or (number_le size ++ (name_bytes e ++ rest)) (4 + k) 0
          ≡ get_or (name_bytes e ++ rest) k 0 =
        rw h' refl in
      rw h (header_at (4 + k) ∙ past)

  pub event_len_lem :
      length before + event_size ≤ event_buffer
      → size < 2 ^ 32
      → event_len buffer (length before) ≡ some size
  unfolding event_len
  event_len_lem fits small =
      ground (arith, header_at 0, header_at 1, header_at 2, header_at 3, number_le_lem size small)

  pub bytes_lem :
      (k : ℕ)
      → k < length e.name
      → get_or buffer (length before + event_size + k) 0 ≡ get_or e.name k 0
  bytes_lem k h =
      name_at k
      ∙ (get_or-append_left (name_bytes e) rest k 0 (omega (arith, length-name_bytes))
          ∙ get_or-append_left e.name (replicate (suc e.padding) 0) k 0 h)

  pub last_lem : get_or buffer (length before + event_size + length e.name) 0 ≡ 0
  last_lem =
      name_at (length e.name)
      ∙ let z : length e.name ≡ length e.name + 0 = omega arith in
        rw (append_assoc e.name (replicate (suc e.padding) 0) rest, z)
          (get_or-append e.name (replicate (suc e.padding) 0 ++ rest) 0 0)

pub next_event_lem :
    (j n : ℕ) → j + (event_size + n) ≤ event_buffer → next_event j n ≡ some (j + (event_size + n))
unfolding next_event
next_event_lem j n h = ground arith

pub length-le-encode_all : (es : List Event) → AreEvents es → length es ≤ length (encode_all es)
length-le-encode_all [] v = omega arith
length-le-encode_all (e ∷ es) (v, vs) = omega (
  arith,
  length-append (encode e) (encode_all es),
  length-encode [] (encode_all es) e v,
  length-le-encode_all es vs,
)
