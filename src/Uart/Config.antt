-- ===== src/Uart/Config.antt =====
-- source/comm_uart.c: `uart_configDev`.
use libcomm.Prelude.{
  ℕ, ◌≤◌, ◌≡◌, ◌≢◌, refl, true, false, arith, ℤ, pos, minus_one, is_negative, pos_part, gtb_ℤ, ◌∷◌,
  if◌then◌else◌,
}
use libcomm.Os.{World, Os, Termios, History, tcgetattr, tcsetattr}
use libcomm.Memory.{is_live}
use libcomm.Returns.{Returns}
use libcomm.Uart.{Heap, config_dev, baud_rate_speed, new_tty}

-- The newest call sets the terminal as `P` says.
abbrev pub LastSet : History → (Termios → Type 0) → Type 0
LastSet ((tcsetattr fd tty, r) ∷ h) P = P tty
LastSet _ P = ⊥

-- `wait` as the context keeps it: below 0, or at most 255.
pub record Waits (wait_time wait : ℤ) : Type 0 where
  pub kept : is_negative wait_time ≡ true → wait ≡ wait_time
  pub bounded : pos_part wait ≤ 255
  pub below : is_negative wait_time ≡ false → pos_part wait ≤ pos_part wait_time
  pub exact : pos_part wait_time ≤ 255 → wait ≡ wait_time

-- The settings for that wait: block for one byte, or return after `wait` tenths of a second.
pub record Timed (speed : ℕ) (wait : ℤ) (tty : Termios) : Type 0 where
  pub blocks : is_negative wait ≡ true → (tty.vmin ≡ 1) × (tty.vtime ≡ 0)
  pub polls : is_negative wait ≡ false → (tty.vmin ≡ 0) × (pos tty.vtime ≡ wait)
  pub fits : tty.vtime ≤ 255
  pub at_speed : (tty.ospeed ≡ speed) × (tty.ispeed ≡ speed)
  pub plain : (tty.c_lflag ≡ 0) × (tty.c_oflag ≡ 0)

abbrev limited : ℤ → ℤ
limited wait_time = if gtb_ℤ wait_time 255 then pos 255 else wait_time

limited-Waits : (wait_time : ℤ) → Waits wait_time (limited wait_time)
limited-Waits wait_time = record {
  kept = ground arith;
  bounded = ground arith;
  below = ground arith;
  exact = ground arith;
}

new_tty-Timed :
    (speed parity : ℕ) (wait : ℤ) (tty : Termios)
    → pos_part wait ≤ 255
    → Timed speed wait (new_tty speed parity wait tty)
unfolding new_tty
new_tty-Timed speed parity wait tty h = record {
  blocks = ground arith;
  polls = ground arith;
  fits = ground arith;
  at_speed = (refl, refl);
  plain = (refl, refl);
}

module _ (os : Os) (p : ℕ) (w : World Heap) where
  -- Configuring an allocated serial device with a descriptor meets no fault and gives 0 or -1. If
  -- it gives 0, the baud rate is one that has a speed, the terminal was set last to that speed
  -- with VTIME at most 255, to block for one byte if the wait is negative and otherwise to wait
  -- for exactly as long as the context says; the context's wait is negative as asked for, or the
  -- one asked for cut off at 255; the baud rate is kept, and the descriptor has not changed. If
  -- it gives -1, no context has changed.
  pub config_dev-Timed :
      (baud_rate : ℤ) (parity : ℕ) (wait_time : ℤ)
      → p ≢ 0
      → is_live w.history p ≡ true
      → is_negative (w.store p).fd ≡ false
      → Returns (config_dev os p baud_rate parity wait_time w) (λ v w'.
        (v ≡ pos 0
          → (baud_rate_speed baud_rate ≢ 0)
            × LastSet w'.history (Timed (baud_rate_speed baud_rate) (w'.store p).wait_time)
            × Waits wait_time (w'.store p).wait_time
            × ((w'.store p).baud_rate ≡ baud_rate)
            × ((w'.store p).fd ≡ (w.store p).fd))
        × (v ≢ pos 0 → (v ≡ minus_one) × (w'.store ≡ w.store)))
  unfolding config_dev
  config_dev-Timed baud_rate parity wait_time nz live valid =
      let limit = limited-Waits wait_time in
      ground (
        arith,
        limit,
        new_tty-Timed (baud_rate_speed baud_rate) parity (limited wait_time)
            (os.reply w.history (tcgetattr (w.store p).fd)).tty limit.bounded,
      )
