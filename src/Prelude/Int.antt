-- ===== src/Prelude/Int.antt =====
-- Signed 64-bit integers as mathematical integers, with their order and their bit patterns.
use Prim.Native.Nat.{ℕ, suc, ◌+◌, ◌-◌, ◌<◌, ◌^◌}
use mathlib.Core.Path.{◌≡◌}
use mathlib.Core.Bool.{Bool}
use native.Mathlib.Omega.{arith}
use database_management_syst.Prelude.Tests.{ltb, ◌==◌, if◌then◌else◌}

-- `negsuc n` is -(n + 1).
pub data ℤ : Type 0 where
  pos : ℕ → ℤ
  negsuc : ℕ → ℤ

abbrev pub pos_part : ℤ → ℕ
pos_part (pos n) = n
pos_part (negsuc n) = 0

abbrev pub neg_part : ℤ → ℕ
neg_part (pos n) = 0
neg_part (negsuc n) = suc n

abbrev pub ltb_ℤ : ℤ → ℤ → Bool
ltb_ℤ a b = ltb (pos_part a + neg_part b) (pos_part b + neg_part a)

abbrev pub eqb_ℤ : ℤ → ℤ → Bool
eqb_ℤ a b = (pos_part a + neg_part b) == (pos_part b + neg_part a)

-- The values of an `int64_t`.
abbrev pub IsInt64 : ℤ → Type 0
IsInt64 (pos n) = n < 2 ^ 63
IsInt64 (negsuc n) = n < 2 ^ 63

-- The two's complement bit pattern of an `int64_t`, and the integer that a pattern stands for.
pub int64_bits : ℤ → ℕ
int64_bits (pos n) = n
int64_bits (negsuc n) = 2 ^ 64 - 1 - n

pub int64_of_bits : ℕ → ℤ
int64_of_bits b = if ltb b (2 ^ 63) then pos b else negsuc (2 ^ 64 - 1 - b)

pub int64_bits-lt : (z : ℤ) → IsInt64 z → int64_bits z < 2 ^ 64
unfolding int64_bits
int64_bits-lt (pos n) h = omega arith
int64_bits-lt (negsuc n) h = omega arith

pub int64_of_bits-int64_bits : (z : ℤ) → IsInt64 z → int64_of_bits (int64_bits z) ≡ z
unfolding int64_bits int64_of_bits
int64_of_bits-int64_bits (pos n) h = ground arith
int64_of_bits-int64_bits (negsuc n) h = ground arith
