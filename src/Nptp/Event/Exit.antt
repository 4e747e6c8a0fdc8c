-- ===== src/Nptp/Event/Exit.antt =====
-- application/nptp_event.c: the end of the monitor, once its watches are removed.
use libcomm.Prelude.{
  ℕ, zero, suc, ◌+◌, ◌<◌, ◌≡◌, ◌≢◌, refl, sym, ◌∙◌, arith, ℤ, minus_one, is_negative, is_positive,
  eq_ℤ, eq_ℤ-refl, eq_ℤ-sound, Bool-cases, inl, inr, true, false, not, ◌∷◌, ◌==◌,
}
use native.Mathlib.Decide.{ℕ_discrete}
use libcomm.Os.{World, Os, read, inotify_rm_watch, when, perform, ◌>>=◌, ◌>>◌}
use libcomm.Memory.{is_live, is_open, update}
use libcomm.Returns.{Returns, Returns-bind, Returns-mono}
use libcomm.Nptp.{Mapping, State, Act, slot, load, modify, globals}
use libcomm.Nptp.Event.{
  event_buffer, unwatch_from, event_uninit, event_monitor, monitor_round, ended,
}

-- What removing watches keeps.
pub record Unwatched (w w' : World State) : Type 0 where
  pub live : (r : ℕ) → is_live w'.history r ≡ is_live w.history r
  pub opens : (fd : ℤ) → is_open w'.history fd ≡ is_open w.history fd
  pub table : w'.store.p_mapping ≡ w.store.p_mapping
  pub number : w'.store.mapping_num ≡ w.store.mapping_num
  pub watcher : w'.store.inotify_fd ≡ w.store.inotify_fd
  pub still :
      (r : ℕ)
      → is_negative (w.store.mappings r).wd ≡ true
      → is_negative (w'.store.mappings r).wd ≡ true

Unwatched-refl : (w : World State) → Unwatched w w
Unwatched-refl w = record {
  live = λ r. refl;
  opens = λ fd. refl;
  table = refl;
  number = refl;
  watcher = refl;
  still = λ r h. h;
}

Unwatched-trans : {w w1 w2 : World State} → Unwatched w w1 → Unwatched w1 w2 → Unwatched w w2
Unwatched-trans a b = record {
  live = λ r. b.live r ∙ a.live r;
  opens = λ fd. b.opens fd ∙ a.opens fd;
  table = b.table ∙ a.table;
  number = b.number ∙ a.number;
  watcher = b.watcher ∙ a.watcher;
  still = λ r h. b.still r (a.still r h);
}

-- Every slot that holds a mapping holds one that is allocated.
abbrev pub Holds : World State → Type 0
Holds w = (i : ℕ) → slot w.store i ≢ 0 → is_live w.history (slot w.store i) ≡ true

Unwatched-Holds : {w w' : World State} → Unwatched w w' → Holds w → Holds w'
Unwatched-Holds {w} {w'} u h i nz =
    let e : slot w'.store i ≡ slot w.store i = rw u.table refl in
    rw e (u.live (slot w.store i) ∙ h i (rw e at nz))

module _ (os : Os) where
  -- The round for the slot `i`.
  abbrev unwatch : ℕ → Act (Unit {0})
  unwatch i = do
    s ← globals
    let q = slot s i
    when (not (q == 0)) (do
      m ← load q
      when (not (is_negative m.wd)) (do
        perform os (inotify_rm_watch s.inotify_fd m.wd)
        modify q (λ m'. record m' { wd = minus_one })))

  unwatch-Unwatched :
      (i : ℕ) (w : World State)
      → Holds w
      → Returns (unwatch i w) (λ _ w'.
        Unwatched w w'
        × (slot w.store i ≢ 0 → is_negative (w'.store.mappings (slot w.store i)).wd ≡ true))
  unwatch-Unwatched i w holds = elim (ℕ_discrete (slot w.store i) 0) [
    | yes z ↦ rw (z, Returns) (Unwatched-refl w, λ nz. absurd (nz refl))
    | no nz ↦
        let live : is_live w.history (slot w.store i) ≡ true = holds i nz in
        let other : (slot w.store i == 0) ≡ false = ground arith in
        elim (Bool-cases (is_negative (w.store.mappings (slot w.store i)).wd)) [
          | inl e ↦ rw (other, Returns, live, e) (Unwatched-refl w, λ _. e)
          | inr e ↦ rw (other, Returns, live, e, live) (removed, λ _. ground arith)
        ]
  ]
    where
      q : ℕ
      q = slot w.store i

      watched : Mapping
      watched = w.store.mappings q

      removed : Unwatched w (record w {
        history =
            (
              inotify_rm_watch w.store.inotify_fd watched.wd,
              os.reply w.history (inotify_rm_watch w.store.inotify_fd watched.wd),
            )
            ∷ w.history;
        store = record w.store {
          mappings = update w.store.mappings q (record watched { wd = minus_one });
        };
      })
      removed = record {
        live = λ r. refl;
        opens = λ fd. refl;
        table = refl;
        number = refl;
        watcher = refl;
        still = λ r h. ground (arith, h);
      }

  unwatch_from-Unwatched :
      (n i : ℕ) (w : World State)
      → Holds w
      → Returns (unwatch_from os n i w) (λ _ w'.
        Unwatched w w'
        × ((j : ℕ)
            → j < n
            → slot w.store (i + j) ≢ 0
            → is_negative (w'.store.mappings (slot w.store (i + j))).wd ≡ true))
  unfolding unwatch_from
  unwatch_from-Unwatched zero i w holds = (Unwatched-refl w, λ j h. elim h [ ])
  unwatch_from-Unwatched (suc n) i w holds =
      Returns-bind (unwatch i) (λ _. unwatch_from os n (suc i)) w _ _ (unwatch-Unwatched i w holds)
        (λ _ w1 (u, first).
          Returns-mono (unwatch_from os n (suc i) w1) _ _
            (unwatch_from-Unwatched n (suc i) w1 (Unwatched-Holds u holds))
            (λ _ w2 (u', rest). (Unwatched-trans u u', λ j h nz. slots u u' first rest j h nz)))
    where
      slots :
          {w1 w2 : World State}
          → Unwatched w w1
          → Unwatched w1 w2
          → (slot w.store i ≢ 0 → is_negative (w1.store.mappings (slot w.store i)).wd ≡ true)
          → ((j : ℕ)
              → j < n
              → slot w1.store (suc i + j) ≢ 0
              → is_negative (w2.store.mappings (slot w1.store (suc i + j))).wd ≡ true)
          → (j : ℕ) → j < suc n
          → slot w.store (i + j) ≢ 0
          → is_negative (w2.store.mappings (slot w.store (i + j))).wd ≡ true
      slots u u' first rest zero h nz =
          let e : i + 0 ≡ i = omega arith in rw e (u'.still (slot w.store i) (first (rw e at nz)))
      slots {w1} u u' first rest (suc j) h nz =
          let e : i + suc j ≡ suc i + j = omega arith in
          rw (e, ← u.table) (rest j (omega arith) (rw (e, ← u.table) at nz))

-- What removing the watches and closing inotify leaves.
pub record Stopped (w w' : World State) : Type 0 where
  pub live : (r : ℕ) → is_live w'.history r ≡ is_live w.history r
  pub closed : is_open w'.history w.store.inotify_fd ≡ false
  pub others : (fd : ℤ) → fd ≢ w.store.inotify_fd → is_open w'.history fd ≡ is_open w.history fd
  pub table : w'.store.p_mapping ≡ w.store.p_mapping
  pub watcher : w'.store.inotify_fd ≡ minus_one
  pub removed :
      (i : ℕ)
      → i < w.store.mapping_num
      → slot w.store i ≢ 0
      → is_negative (w'.store.mappings (slot w.store i)).wd ≡ true

module _ (os : Os) where
  pub event_uninit-Stopped :
      (w : World State)
      → Holds w
      → is_negative w.store.inotify_fd ≡ false
      → Returns (event_uninit os w) (λ _. Stopped w)
  unfolding event_uninit
  event_uninit-Stopped w holds some_fd =
      Returns-bind (unwatch_from os w.store.mapping_num 0) _ w _ (λ _. Stopped w)
        (unwatch_from-Unwatched os w.store.mapping_num 0 w holds)
        (λ _ w1 (u, removed).
          let e : is_negative w1.store.inotify_fd ≡ false = rw u.watcher some_fd in
          rw (e, Returns)
            (record {
              live = u.live;
              closed = rw (u.watcher, eq_ℤ-refl w.store.inotify_fd) refl;
              others = λ fd ne. elim (Bool-cases (eq_ℤ w1.store.inotify_fd fd)) [
                | inl same ↦ absurd (ne (sym (eq_ℤ-sound w1.store.inotify_fd fd same) ∙ u.watcher))
                | inr apart ↦ rw apart (u.opens fd)
              ];
              table = u.table;
              watcher = refl;
              removed =
                  λ i h nz. let z : 0 + i ≡ i = omega arith in rw z at (removed i h (rw z nz));
            }))

  -- The next round of the monitor is its last.
  pub event_monitor-ended :
      (fuel : ℕ) (w : World State)
      → w.store.inotify_fd ≡ minus_one
      → is_positive (os.reply w.history (read minus_one event_buffer)).value ≡ false
      → Returns (event_monitor os (suc fuel) w) (λ o w'.
        (o ≡ ended)
        × (w'.store ≡ w.store)
        × ((r : ℕ) → is_live w'.history r ≡ is_live w.history r)
        × ((fd : ℤ) → is_open w'.history fd ≡ is_open w.history fd))
  unfolding event_monitor monitor_round
  event_monitor-ended fuel w e fails = ground (arith, e, fails)
