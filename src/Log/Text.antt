-- ===== src/Log/Text.antt =====
-- source/comm_log.c: a dump can be read back, and a log message fits its array.
use libcomm.Prelude.{
  length-append, length-take-most, ℕ, zero, suc, ◌+◌, ◌-◌, ◌*◌, ◌/◌, ◌%◌, ◌≤◌, ◌<◌, ◌≡◌, refl, ap,
  arith, true, false, ◌&&◌, not, inl, inr, Bool-cases, List, [], ◌∷◌, ◌++◌, some, take, drop,
  length, ltb, ◌==◌, if◌then◌else◌,
}
use libcomm.Log.{
  hex_digit, dump_bytes, dump_word, dump_text, dump_rest, dump_end, dump, ipc_log_size, print,
}

-- The value of a hexadecimal digit, and the `n` bytes that the lines of a dump show.
abbrev pub digit_value : ℕ → ℕ
digit_value c = if ltb c b'A' then c - b'0' else c - b'A' + 10

abbrev pub undump : ℕ → List ℕ → List ℕ
undump zero text = []
undump (suc n) [] = []
undump (suc n) (c ∷ []) = []
undump (suc n) (c ∷ x ∷ []) = []
undump (suc n) (c ∷ x ∷ y ∷ rest) = elim (c == b'\n') [
  | true ↦ undump (suc n) (x ∷ y ∷ rest)
  | false ↦ (digit_value x * 16 + digit_value y) ∷ undump n rest
]

abbrev pub IsBytes : List ℕ → Type 0
IsBytes [] = Unit {0}
IsBytes (b ∷ bytes) = (b < 256) × IsBytes bytes

digit_value-hex_digit : (d : ℕ) → d < 16 → digit_value (hex_digit d) ≡ d
digit_value-hex_digit d h = ground arith

hex_byte_lem :
    (b : ℕ) → b < 256 → digit_value (hex_digit (b / 16)) * 16 + digit_value (hex_digit (b % 16)) ≡ b
hex_byte_lem b h = omega (
  arith,
  digit_value-hex_digit (b / 16) (omega arith),
  digit_value-hex_digit (b % 16) (omega arith),
)

undump-dump_bytes :
    (i : ℕ) (bytes rest : List ℕ)
    → IsBytes bytes
    → undump (length bytes) (dump_bytes i bytes ++ rest) ≡ bytes
unfolding dump_bytes
undump-dump_bytes i [] rest h = refl
undump-dump_bytes i (b ∷ bytes) rest (small, h) =
    elim (Bool-cases (not (i == 0) && (i % 16 == 0))) [
      | inl e ↦ rw (e, hex_byte_lem b small, undump-dump_bytes (suc i) bytes rest h) refl
      | inr e ↦ rw (e, hex_byte_lem b small, undump-dump_bytes (suc i) bytes rest h) refl
    ]

-- The first line of a dump.
abbrev pub header : List ℕ → List ℕ
header name = dump_word ++ (b' ' ∷ name) ++ b'\n' ∷ []

drop_line : (name rest : List ℕ) → drop (length (name ++ b'\n' ∷ [])) (name ++ b'\n' ∷ rest) ≡ rest
drop_line [] rest = refl
drop_line (c ∷ name) rest = drop_line name rest

take-length : (xs : List ℕ) → take (length xs) xs ≡ xs
take-length [] = refl
take-length (x ∷ xs) = ap (λ r. x ∷ r) (take-length xs)

take-all : (n : ℕ) (xs : List ℕ) → length xs ≤ n → take n xs ≡ xs
take-all zero [] h = refl
take-all zero (x ∷ xs) h = absurd (omega arith)
take-all (suc n) [] h = refl
take-all (suc n) (x ∷ xs) h = ap (λ r. x ∷ r) (take-all n xs (omega arith))

-- comm_dump of all the bytes at an address prints a text from which, past its first line, those
-- bytes can be read back, two hexadecimal digits each.
pub undump-dump :
    (name bytes : List ℕ)
    → IsBytes bytes
    → (text : List ℕ) × (dump name (some bytes) (length bytes) ≡ some text)
      × (undump (length bytes) (drop (length (header name)) text) ≡ bytes)
unfolding dump
undump-dump name bytes h = (
  dump_text name bytes (length bytes),
  ground (arith, take-length bytes),
  rw (drop_line name (dump_rest bytes (length bytes)))
      (undump-dump_bytes 0 bytes (dump_end (length bytes)) h),
)

-- If the prefix leaves room for its brackets and its blank in IPC_LOG_SIZE characters, comm_print
-- stays inside its array and prints at most IPC_LOG_SIZE characters; and a message that fits with
-- one character to spare is printed in full behind the prefix in brackets.
pub print_fits :
    (prefix message : List ℕ)
    → length prefix + 3 ≤ ipc_log_size
    → (text : List ℕ) × (print prefix message ≡ some text)
      × (length text ≤ ipc_log_size)
      × (length prefix + 3 + length message < ipc_log_size
          → text ≡ ((b'[' ∷ prefix) ++ b']' ∷ b' ' ∷ []) ++ message)
unfolding print
print_fits prefix message room =
    let head : List ℕ = (b'[' ∷ prefix) ++ b']' ∷ b' ' ∷ [] in
    let size = length-append (b'[' ∷ prefix) (b']' ∷ b' ' ∷ []) in
    let free : ℕ = ipc_log_size - length head - 1 in
    (
      head ++ take free message,
      ground (arith, size),
      omega (arith, size, length-append head (take free message), length-take-most free message),
      λ short. ap (λ m. head ++ m) (take-all free message (omega (arith, size))),
    )
