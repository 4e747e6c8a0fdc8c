-- ===== src/Prelude/Int.antt =====
-- The C type `int` as an integer over the native numbers, with the comparisons that the code makes.
use Prim.Native.Nat.{ℕ}
use mathlib.Core.Path.{◌≡◌, ap}
use mathlib.Core.Logic.{◌≢◌}
use native.Mathlib.Omega.{arith}
use mathlib.Core.Bool.{Bool, true, false}
use libcomm.Prelude.Tests.{ltb, leb, ◌==◌}

-- `negsuc n` is -(n + 1).
pub data ℤ : Type 0 where
  pos : ℕ → ℤ
  negsuc : ℕ → ℤ

abbrev pub minus_one : ℤ
minus_one = negsuc 0

-- How many rounds `for (i = 0; i < n; i++)` makes.
abbrev pub pos_part : ℤ → ℕ
pos_part (pos n) = n
pos_part (negsuc n) = 0

abbrev pub is_negative : ℤ → Bool
is_negative (pos n) = false
is_negative (negsuc n) = true

abbrev pub is_positive : ℤ → Bool
is_positive (pos n) = ltb 0 n
is_positive (negsuc n) = false

abbrev pub is_zero : ℤ → Bool
is_zero (pos n) = n == 0
is_zero (negsuc n) = false

abbrev pub eq_ℤ : ℤ → ℤ → Bool
eq_ℤ (pos m) (pos n) = m == n
eq_ℤ (pos m) (negsuc n) = false
eq_ℤ (negsuc m) (pos n) = false
eq_ℤ (negsuc m) (negsuc n) = m == n

-- The test of a number, as an `int`, against an integer: `n >= i` and `i > n`.
abbrev pub geb_ℤ : ℕ → ℤ → Bool
geb_ℤ n (pos m) = leb m n
geb_ℤ n (negsuc m) = true

abbrev pub gtb_ℤ : ℤ → ℕ → Bool
gtb_ℤ (pos m) n = ltb n m
gtb_ℤ (negsuc m) n = false

pub eq_ℤ-sound : (i j : ℤ) → eq_ℤ i j ≡ true → i ≡ j
eq_ℤ-sound (pos m) (pos n) e = ground arith
eq_ℤ-sound (pos m) (negsuc n) e = cc
eq_ℤ-sound (negsuc m) (pos n) e = cc
eq_ℤ-sound (negsuc m) (negsuc n) e = ground arith

pub eq_ℤ-refl : (i : ℤ) → eq_ℤ i i ≡ true
eq_ℤ-refl (pos m) = ground arith
eq_ℤ-refl (negsuc m) = ground arith

pub eq_ℤ-complete : (i j : ℤ) → eq_ℤ i j ≡ false → i ≢ j
eq_ℤ-complete i j e h = ground (arith, eq_ℤ-refl j, ap (λ k. eq_ℤ k j) h, e)
