-- ===== src/Nptp/Event.antt =====
-- application/nptp_event.c: the monitor, which connects a mapping to its named pipe when a file of that
-- name is created. The events are read off the bytes that inotify gives, on a machine whose
-- numbers are little-endian.
pub mod Bytes
pub mod Walk
pub mod Exit
use libcomm.Prelude.{
  ℕ, zero, suc, ◌+◌, ◌*◌, ◌%◌, ◌^◌, ℤ, pos, minus_one, pos_part, is_negative, is_positive, eq_ℤ,
  Bool, true, false, not, ◌&&◌, List, [], ◌∷◌, Option, none, some, get_or, leb, ltb, ◌==◌,
  if◌then◌else◌,
}
use libcomm.Os.{
  Os, pure, fault, skip, ◌>>=◌, ◌>>◌, when, call, perform, read, close, inotify_init,
  inotify_add_watch, inotify_rm_watch,
}
use libcomm.Nptp.{Act, load, modify, globals, set_globals, slot, max_mapping_num}
use libcomm.Nptp.Proxy.{connect_ipc}

-- EVENT_SIZE, which is the size of `struct inotify_event`, and EVENT_BUFFER.
abbrev pub event_size : ℕ
event_size = 16

abbrev pub event_buffer : ℕ
event_buffer = 32768

-- The byte at `j` of `buf`, which was cleared before `payload` was written to its front. A read past
-- the end is a fault.
unfoldable pub byte_at : List ℕ → ℕ → Option ℕ
byte_at payload j = if ltb j event_buffer then some (get_or payload j 0) else none

-- `event->len`, which follows three fields of four bytes each.
unfoldable pub event_len : List ℕ → ℕ → Option ℕ
event_len payload j =
    if leb (j + event_size) event_buffer
    then some (
        get_or payload (j + 12) 0
        + get_or payload (j + 13) 0 * 2 ^ 8
        + get_or payload (j + 14) 0 * 2 ^ 16
        + get_or payload (j + 15) 0 * 2 ^ 24)
    else none

-- Whether `strcmp` of a text and of the bytes from `j` on gives 0.
unfoldable pub same_at : List ℕ → List ℕ → ℕ → Option Bool
same_at payload [] j = elim (byte_at payload j) [ none ↦ none | some b ↦ some (b == 0) ]
same_at payload (c ∷ s) j =
    let rest = same_at payload s (suc j) in
    elim (byte_at payload j) [
      | none ↦ none
      | some b ↦ if (b == c) && not (b == 0) then rest else some false
    ]

-- `j += (EVENT_SIZE + event->len)`, where `j` is an `int`: a read of `buf` at a negative index is a
-- fault.
unfoldable pub next_event : ℕ → ℕ → Option ℕ
next_event j len =
    let k = (j + (event_size + len)) % 2 ^ 32 in if ltb k (2 ^ 31) then some k else none

-- How a round of the monitor ends: in another one, in the end of the monitor, or not at all.
pub data Watch : Type 0 where
  watching ended stuck : Watch

module _ (os : Os) where
  -- The loop over the mappings, for the `n` rounds from `i` on; the name of the event is at `j`.
  unfoldable pub notify_from : ℕ → ℕ → List ℕ → ℕ → Act (Unit {0})
  notify_from zero i payload j = skip
  notify_from (suc n) i payload j = do
    s ← globals
    let rest = notify_from n (suc i) payload j
    let q = slot s i
    if q == 0 then rest else (do
      m ← load q
      if m.pipe_connect then rest else elim (same_at payload m.pipe_name j) [
        | none ↦ fault
        | some true ↦ (do connect_ipc os q; skip)
        | some false ↦ rest
      ])

  -- The loop over the events of the `len` bytes that were read, from `j` on: true if it ends within
  -- `fuel` rounds.
  unfoldable pub walk : ℕ → List ℕ → ℕ → ℕ → Act Bool
  walk zero payload len j = pure (not (ltb j len))
  walk (suc fuel) payload len j =
      let step : Act Bool = elim (event_len payload j) [
        | none ↦ fault
        | some n ↦ (do
          notify_from max_mapping_num 0 payload (j + event_size)
          elim (next_event j n) [ none ↦ fault | some k ↦ walk fuel payload len k ])
      ] in
      if ltb j len then step else pure true

  -- One round of `for (;;)`. As many rounds over the events as there are bytes are enough, unless
  -- the length of an event wraps around.
  unfoldable pub monitor_round : Act Watch
  monitor_round = do
    s ← globals
    r ← call os (read s.inotify_fd event_buffer)
    if not (is_positive r.value)
        then (do s' ← globals; pure (if eq_ℤ s'.inotify_fd minus_one then ended else watching))
        else (do
          done ← walk (pos_part r.value) r.payload (pos_part r.value) 0
          pure (if done then watching else stuck))

  -- `event_monitor`, for at most `fuel` rounds.
  unfoldable pub event_monitor : ℕ → Act Watch
  event_monitor zero = pure watching
  event_monitor (suc fuel) = do
    o ← monitor_round
    let rest = event_monitor fuel
    elim o [ watching ↦ rest | other ↦ pure other ]

  -- The loops of `event_init` and `event_uninit`, for the `n` rounds from `i` on.
  unfoldable pub watch_from : ℕ → ℕ → Act (Unit {0})
  watch_from zero i = skip
  watch_from (suc n) i = do
    s ← globals
    let q = slot s i
    when (not (q == 0)) (do
      m ← load q
      r ← call os (inotify_add_watch s.inotify_fd m.pipe_path)
      when (not (is_negative r.value)) (modify q (λ m'. record m' { wd = r.value })))
    watch_from n (suc i)

  unfoldable pub event_init : Act ℤ
  event_init = do
    r ← call os inotify_init
    set_globals (λ s. record s { inotify_fd = r.value })
    if is_negative r.value
        then pure minus_one
        else (do s ← globals; watch_from s.mapping_num 0; pure (pos 0))

  unfoldable pub unwatch_from : ℕ → ℕ → Act (Unit {0})
  unwatch_from zero i = skip
  unwatch_from (suc n) i = do
    s ← globals
    let q = slot s i
    when (not (q == 0)) (do
      m ← load q
      when (not (is_negative m.wd)) (do
        perform os (inotify_rm_watch s.inotify_fd m.wd)
        modify q (λ m'. record m' { wd = minus_one })))
    unwatch_from n (suc i)

  unfoldable pub event_uninit : Act (Unit {0})
  event_uninit = do
    s ← globals
    unwatch_from s.mapping_num 0
    s' ← globals
    when (not (is_negative s'.inotify_fd)) (do
      perform os (close s'.inotify_fd)
      set_globals (λ g. record g { inotify_fd = minus_one }))
