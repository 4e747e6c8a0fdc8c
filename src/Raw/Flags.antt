-- ===== src/Raw/Flags.antt =====
-- source/comm_raw.c: `comm_rawPromiscMode` and the flags that it sets, and `comm_rawSockSend`.
use libcomm.Prelude.{
  ℕ, ◌/◌, ◌%◌, ◌^◌, ◌≤◌, ◌≡◌, ◌≢◌, ◌↔◌, true, false, arith, ℤ, pos, minus_one, is_negative, is_zero,
  List, some, none, ◌∷◌, length, take,
}
use libcomm.Os.{World, Os, Reply, History, Query, interface_get, interface_set_flags}
use libcomm.Memory.{is_live}
use libcomm.Returns.{Returns}
use libcomm.Datagram.{Heap}
use libcomm.Raw.{Device, new_flags, promisc_mode, send_frame, ifnamsiz, eth_alen}

-- IFF_UP is on, IFF_PROMISC is as asked for, and the other bits are as they were.
pub record Switched (enable : ℤ) (before after : ℕ) : Type 0 where
  pub up : after % 2 ≡ 1
  pub on : is_zero enable ≡ false → (after / 2 ^ 8) % 2 ≡ 1
  pub off : is_zero enable ≡ true → (after / 2 ^ 8) % 2 ≡ 0
  pub middle : (after / 2) % 2 ^ 7 ≡ (before / 2) % 2 ^ 7
  pub high : after / 2 ^ 9 ≡ before / 2 ^ 9

new_flags-Switched : (enable : ℤ) (flags : ℕ) → Switched enable flags (new_flags enable flags)
unfolding new_flags
new_flags-Switched enable flags = record {
  up = ground arith;
  on = ground arith;
  off = ground arith;
  middle = ground arith;
  high = ground arith;
}

-- The flags of the newest call, if that sets flags.
abbrev pub sent_flags : History → ℕ
sent_flags ((interface_set_flags fd name flags, r) ∷ h) = flags
sent_flags _ = 0

module _ (os : Os) (p : ℕ) (w : World (Heap Device)) where
  -- The answer of SIOCGIFFLAGS.
  abbrev asked : Reply
  asked =
      os.reply w.history
        (interface_get (w.store p).fd Query.flags (take ifnamsiz (w.store p).place.if_name))

  -- Setting the promiscuous mode of an allocated raw socket with a descriptor meets no fault and
  -- gives 0 or -1. If it gives 0, the flags set last are those that the interface had, with
  -- IFF_UP on, IFF_PROMISC on exactly if the mode is enabled, and every other bit as it was; the
  -- context holds the new mode and keeps its descriptor. If it gives -1, no context has changed.
  pub promisc_mode-Switched :
      (enable : ℤ)
      → p ≢ 0
      → is_live w.history p ≡ true
      → is_negative (w.store p).fd ≡ false
      → Returns (promisc_mode os p enable w) (λ v w'.
        (v ≡ pos 0
          → Switched enable asked.pointer (sent_flags w'.history)
            × ((w'.store p).place.promisc ≡ enable)
            × ((w'.store p).fd ≡ (w.store p).fd))
        × (v ≢ pos 0 → (v ≡ minus_one) × (w'.store ≡ w.store)))
  unfolding promisc_mode
  promisc_mode-Switched enable nz live valid =
      ground (arith, new_flags-Switched enable asked.pointer)

  -- Sending on an allocated raw socket with a descriptor and a size that is not 0 meets no fault
  -- exactly if the buffer has the 6 bytes of a destination.
  send_frame_safe :
      (bytes : List ℕ) (size : ℕ)
      → p ≢ 0
      → is_live w.history p ≡ true
      → is_negative (w.store p).fd ≡ false
      → size ≢ 0
      → (send_frame os p (some bytes) size w ≢ none) ↔ (eth_alen ≤ length bytes)
  unfolding send_frame
  send_frame_safe bytes size nz live valid some_size = ground arith
