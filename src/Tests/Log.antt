-- ===== src/Tests/Log.antt =====
-- A dump of 17 bytes, which takes two lines, and a log message.
use libcomm.Prelude.{
  ℕ, ◌+◌, ◌≡◌, ◌≤◌, ◌<◌, arith, List, [], ◌∷◌, ◌++◌, some, length, drop, replicate,
}
use libcomm.Log.{dump, print, ipc_log_size}
use libcomm.Log.Text.{undump, header, undump-dump, print_fits}

abbrev name : List ℕ
name = b'x' ∷ []

abbrev bytes : List ℕ
bytes = 0 ∷ 255 ∷ replicate 15 171

undump-dump_example :
    (text : List ℕ) × (dump name (some bytes) 17 ≡ some text)
    × (undump 17 (drop (length (header name)) text) ≡ bytes)
undump-dump_example = undump-dump name bytes (omega arith)

abbrev info : List ℕ
info = b'I' ∷ b'N' ∷ b'F' ∷ b'O' ∷ []

print_fits_example :
    (text : List ℕ) × (print info (b'o' ∷ b'k' ∷ []) ≡ some text)
    × (length text ≤ ipc_log_size)
    × (4 + 3 + 2 < ipc_log_size → text ≡ ((b'[' ∷ info) ++ b']' ∷ b' ' ∷ []) ++ b'o' ∷ b'k' ∷ [])
print_fits_example = print_fits info (b'o' ∷ b'k' ∷ []) (omega arith)
