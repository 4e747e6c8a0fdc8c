-- ===== src/Nptp/Event/Walk.antt =====
-- application/nptp_event.c: the monitor reads off its buffer the events that inotify wrote there, each
-- once and in order.
use libcomm.Prelude.{
  length-append, append_assoc, ℕ, zero, suc, ◌+◌, ◌^◌, ◌<◌, ◌≤◌, ◌≡◌, refl, ap, ◌∙◌, arith, pos,
  is_positive, Bool, true, List, [], ◌∷◌, ◌++◌, none, some, get_or, length, Option, ltb, ◌==◌,
  if◌then◌else◌,
}
use libcomm.Os.{Reply, World, Os, M, pure, skip, read, ◌>>=◌, ◌>>◌}
use libcomm.Memory.{ReadFits}
use libcomm.Udp.Address.{same_text}
use libcomm.Nptp.{State, Act, load, globals, slot, max_mapping_num}
use libcomm.Nptp.Proxy.{connect_ipc}
use libcomm.Nptp.Event.Bytes.{
  Event, NonZero, name_bytes, encode, encode_all, AreEvents, same_at-same_text, length-name_bytes,
  length-encode, event_len_lem, bytes_lem, last_lem, next_event_lem, length-le-encode_all,
}
use libcomm.Nptp.Event.{event_buffer, event_size, notify_from, walk, monitor_round, watching, stuck}

module _ (os : Os) where
  -- The mapping that a name is for: the first one that is not connected and whose pipe has it.
  unfoldable pub notify_name : ℕ → ℕ → List ℕ → Act (Unit {0})
  notify_name zero i name = skip
  notify_name (suc n) i name = do
    s ← globals
    let rest = notify_name n (suc i) name
    let q = slot s i
    if q == 0 then rest else (do
      m ← load q
      if m.pipe_connect
          then rest
          else if same_text m.pipe_name name
          then (do connect_ipc os q; skip)
          else rest)

  unfoldable pub notify_all : List Event → Act (Unit {0})
  notify_all [] = skip
  notify_all (e ∷ es) = do notify_name max_mapping_num 0 e.name; notify_all es

-- A run and what follows it, where what follows is another run in two parts.
bind_chain :
    {S A B C : Type 0} (m k : M S A) (f : A → M S C) (g : A → M S B) (h : B → M S C) (w : World S)
    → m w ≡ k w
    → ((a : A) (w' : World S) → f a w' ≡ (g a >>= h) w')
    → (m >>= f) w ≡ ((k >>= g) >>= h) w
bind_chain {S} {A} {B} {C} m k f g h w e c =
    ap (λ r. let r' : M S A = λ _. r in (r' >>= f) w) e ∙ go (k w)
  where
    go :
        (r : Option (A × World S))
        → (let r' : M S A = λ _. r in (r' >>= f) w)
          ≡ (let r' : M S A = λ _. r in ((r' >>= g) >>= h) w)
    go none = refl
    go (some (a, w')) = c a w'

module _ (os : Os) (payload name : List ℕ) (j : ℕ)
    (bytes : (k : ℕ) → k < length name → get_or payload (j + k) 0 ≡ get_or name k 0)
    (last : get_or payload (j + length name) 0 ≡ 0) (nz : NonZero name)
    (fits : j + length name < event_buffer) where
  notify_from-name :
      (n i : ℕ) (w : World State) → notify_from os n i payload j w ≡ notify_name os n i name w
  unfolding notify_from notify_name
  notify_from-name zero i w = refl
  notify_from-name (suc n) i w = ground (
    arith,
    notify_from-name n (suc i) w,
    same_at-same_text payload (w.store.mappings (slot w.store i)).pipe_name name j bytes last nz
        fits,
  )

module _ (os : Os) where
  walk-encode_all :
      (es : List Event) (before : List ℕ) (fuel : ℕ) (w : World State)
      → AreEvents es
      → length es ≤ fuel
      → length (before ++ encode_all es) ≤ event_buffer
      → walk os fuel (before ++ encode_all es) (length (before ++ encode_all es)) (length before) w
        ≡ (notify_all os es >>= λ _. pure true) w
  unfolding walk notify_all
  walk-encode_all [] before zero w v h fits = ground (arith, length-append before [])
  walk-encode_all [] before (suc fuel) w v h fits = ground (arith, length-append before [])
  walk-encode_all (e ∷ es) before zero w v h fits = absurd (omega arith)
  walk-encode_all (e ∷ es) before (suc fuel) w (v, vs) h fits =
      rw (below, event_len_lem before rest e v room small, next_event_lem (length before) n room')
        (bind_chain (notify_from os max_mapping_num 0 p (length before + event_size))
          (notify_name os max_mapping_num 0 e.name) _ _ _ w
          (notify_from-name os p e.name (length before + event_size) (bytes_lem before rest e v)
            (last_lem before rest e v) v.1 named max_mapping_num 0 w)
          (λ _ w'.
            onward (λ w''. walk-encode_all es (before ++ encode e) fuel w'' vs (omega arith)) w'))
    where
      rest : List ℕ
      rest = encode_all es

      p : List ℕ
      p = before ++ (encode e ++ rest)

      n : ℕ
      n = length (name_bytes e)

      whole : length p ≡ length before + (event_size + n + length rest)
      whole = omega (
        arith,
        length-append before (encode e ++ rest),
        length-append (encode e) rest,
        length-encode before rest e v,
      )

      room : length before + event_size ≤ event_buffer
      room = omega (arith, whole, fits)

      room' : length before + (event_size + n) ≤ event_buffer
      room' = omega (arith, whole, fits)

      small : n < 2 ^ 32
      small = omega (arith, room')

      below : ltb (length before) (length p) ≡ true
      below = ground (arith, whole)

      named : length before + event_size + length e.name < event_buffer
      named = omega (arith, room', length-name_bytes before rest e v)

      along : length (before ++ encode e) ≡ length before + (event_size + n)
      along = omega (arith, length-append before (encode e), length-encode before rest e v)

      onward :
          ((w'' : World State)
            → length ((before ++ encode e) ++ rest) ≤ event_buffer
            → walk os fuel
                ((before ++ encode e) ++ rest)
                (length ((before ++ encode e) ++ rest))
                (length (before ++ encode e))
                w''
              ≡ (notify_all os es >>= λ _. pure true) w'')
          → (w' : World State)
          → walk os fuel p (length p) (length before + (event_size + n)) w'
            ≡ (notify_all os es >>= λ _. pure true) w'
      onward ih w' =
          let assoc : (before ++ encode e) ++ rest ≡ p = append_assoc before (encode e) rest in
          let fits' : length ((before ++ encode e) ++ rest) ≤ event_buffer = rw assoc fits in
          rw (assoc, along) at (ih w' fits')

module _ (os : Os) (fits : ReadFits os) (es : List Event) (v : AreEvents es) (n : ℕ)
    (w : World State) where
  -- What inotify answers.
  abbrev answer : Reply
  answer = os.reply w.history (read w.store.inotify_fd event_buffer)

  -- If read on the descriptor of inotify gives some bytes, which are those of a list of events,
  -- each with 12 bytes of other fields, a name without a zero byte and at least one zero byte
  -- after it, then a round of event_monitor does the same as handling the names of the list one
  -- by one, each name by the first mapping that is not connected and whose pipe has it, and goes
  -- on watching. A read writes as many bytes as it says and at most those asked for.
  pub monitor_round-notify_all :
      0 < n
      → answer.value ≡ pos n
      → answer.payload ≡ encode_all es
      → monitor_round os w
        ≡ (notify_all os es >>= λ _. pure watching)
            (record w { history = (read w.store.inotify_fd event_buffer, answer) ∷ w.history })
  unfolding monitor_round
  monitor_round-notify_all some_bytes value written =
      simp (value, written, positive)
        (ap
            (λ r.
              let r' : Act Bool = λ _. r in (r' >>= λ b. pure (if b then watching else stuck)) w1)
            walked
          ∙ done (notify_all os es w1))
    where
      w1 : World State
      w1 = record w { history = (read w.store.inotify_fd event_buffer, answer) ∷ w.history }

      whole : length (encode_all es) ≡ n
      whole = rw written at (fits w.history w.store.inotify_fd event_buffer n value).0

      positive : is_positive (pos n) ≡ true
      positive = ground arith

      walked : walk os n (encode_all es) n 0 w1 ≡ (notify_all os es >>= λ _. pure true) w1
      walked = rw whole at (
          walk-encode_all os es [] n w1 v (omega (arith, length-le-encode_all es v, whole))
            (omega (arith, whole, (fits w.history w.store.inotify_fd event_buffer n value).1)))

      done :
          (r : Option (Unit {0} × World State))
          → (let r' : Act (Unit {0}) = λ _. r in
              ((r' >>= λ _. pure true) >>= λ b. pure (if b then watching else stuck)) w1)
            ≡ (let r' : Act (Unit {0}) = λ _. r in (r' >>= λ _. pure watching) w1)
      done none = refl
      done (some (a, w')) = refl
