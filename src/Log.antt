-- ===== src/Log.antt =====
-- source/comm_log.c and the macros of source/comm_log.h: the settings of the log, and the text that is
-- printed. Texts are lists of bytes; what `vsnprintf` makes of a format is an argument.
pub mod Text
use libcomm.Prelude.{
  ℕ, zero, suc, ◌+◌, ◌-◌, ◌/◌, ◌%◌, ◌^◌, Bool, true, false, ◌&&◌, not, List, [], ◌∷◌, ◌++◌, Option,
  none, some, take, length, ltb, ◌==◌, if◌then◌else◌,
}

-- `g_logMask` and `g_dumpFlag`.
pub record Settings : Type 0 where
  pub log_mask : ℕ
  pub dump_flag : Bool

abbrev pub first_settings : Settings
first_settings = record { log_mask = 1; dump_flag = false }

-- `mask & LOG_MASK_ALL`, which is 7, for the bits of an `int`.
unfoldable pub set_log_mask : ℕ → Settings → Settings
set_log_mask mask s = record s { log_mask = mask % 8 }

-- A flag that is not 0 turns the dump on.
unfoldable pub set_dump_flag : ℕ → Settings → Settings
set_dump_flag flag s = record s { dump_flag = not (flag == 0) }

-- The test of LOG_1, LOG_2 and LOG_3: bit 0, 1 or 2 of the mask.
unfoldable pub is_logged : ℕ → Settings → Bool
is_logged bit s = not ((s.log_mask / 2 ^ bit) % 2 == 0)

-- `%02X` of a byte.
abbrev pub hex_digit : ℕ → ℕ
hex_digit d = if ltb d 10 then b'0' + d else b'A' + (d - 10)

abbrev pub hex_byte : ℕ → List ℕ
hex_byte b = hex_digit (b / 16) ∷ hex_digit (b % 16) ∷ []

-- `%u`, for at most `n` digits.
unfoldable pub decimal : ℕ → ℕ → List ℕ
decimal zero x = []
decimal (suc n) x =
    let front = decimal n (x / 10) in if x == 0 then [] else front ++ (b'0' + x % 10) ∷ []

abbrev pub unsigned_text : ℕ → List ℕ
unsigned_text x = if x == 0 then b'0' ∷ [] else decimal 10 x

-- The loop over the bytes, of which this one has the index `i`.
unfoldable pub dump_bytes : ℕ → List ℕ → List ℕ
dump_bytes i [] = []
dump_bytes i (b ∷ bytes) =
    let rest = dump_bytes (suc i) bytes in
    (if not (i == 0) && (i % 16 == 0) then b'\n' ∷ [] else []) ++ ((b' ' ∷ hex_byte b) ++ rest)

abbrev pub dump_word : List ℕ
dump_word = b'[' ∷ b'D' ∷ b'U' ∷ b'M' ∷ b'P' ∷ b']' ∷ []

abbrev pub null_line : List ℕ
null_line = b' ' ∷ b'N' ∷ b'U' ∷ b'L' ∷ b'L' ∷ b'\n' ∷ []

abbrev pub bytes_word : List ℕ
bytes_word = b' ' ∷ b'b' ∷ b'y' ∷ b't' ∷ b'e' ∷ b's' ∷ b'\n' ∷ []

-- What follows the bytes of a dump, what follows its first line, and the whole text.
abbrev pub dump_end : ℕ → List ℕ
dump_end size =
    (b'\n' ∷ b' ' ∷ unsigned_text size) ++ (bytes_word ++ (dump_word ++ b'\n' ∷ b'\n' ∷ []))

abbrev pub dump_rest : List ℕ → ℕ → List ℕ
dump_rest bytes size = dump_bytes 0 bytes ++ dump_end size

abbrev pub dump_text : List ℕ → List ℕ → ℕ → List ℕ
dump_text name bytes size = dump_word ++ (b' ' ∷ (name ++ b'\n' ∷ dump_rest bytes size))

-- What `comm_dump` prints; `none` where it reads past the memory that `p_addr` points to.
unfoldable pub dump : List ℕ → Option (List ℕ) → ℕ → Option (List ℕ)
dump name none size =
    some (dump_word ++ (b' ' ∷ (name ++ b'\n' ∷ (null_line ++ (dump_word ++ b'\n' ∷ b'\n' ∷ [])))))
dump name (some bytes) size =
    if ltb (length bytes) size then none else some (dump_text name (take size bytes) size)

-- IPC_LOG_SIZE. The array `msg` has one byte more.
abbrev pub ipc_log_size : ℕ
ipc_log_size = 255

-- What `comm_print` prints, where `message` is the formatted text; `none` where the prefix does not
-- fit `msg` with its brackets, its blank and its terminator. `vsnprintf` cuts the message off.
unfoldable pub print : List ℕ → List ℕ → Option (List ℕ)
print prefix message =
    let head = (b'[' ∷ prefix) ++ b']' ∷ b' ' ∷ [] in
    if ltb (length head) (ipc_log_size + 1)
    then some (head ++ take (ipc_log_size - length head - 1) message)
    else none
