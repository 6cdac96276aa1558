-- ===== src/Base/Int.antt =====
-- The C integers that the program computes with: an `int` as an integer, an unsigned word as a
-- number below a power of two.
use Prim.Native.Nat.{ℕ, ◌-◌, ◌%◌, ◌^◌}
use mathlib.Core.Bool.{Bool, true, false}
use manet_testbed.Base.Tests.{◌==◌}

-- `negsuc n` is -(n + 1).
pub data ℤ : Type 0 where
  pos : ℕ → ℤ
  negsuc : ℕ → ℤ

-- The constant -1.
abbrev pub minus_one : ℤ
minus_one = negsuc 0

-- `v < 0`
abbrev pub is_neg : ℤ → Bool
is_neg (pos n) = false
is_neg (negsuc n) = true

-- `v == 0`
abbrev pub is_zero : ℤ → Bool
is_zero (pos n) = n == 0
is_zero (negsuc n) = false

-- Conversion to `uint32_t` and to `uint8_t`.
abbrev pub u32 : ℕ → ℕ
u32 n = n % 2 ^ 32

abbrev pub u8 : ℕ → ℕ
u8 n = n % 2 ^ 8

-- The `uint32_t` that the constant -1 becomes.
abbrev pub u32_max : ℕ
u32_max = 0xffff_ffff

-- An `int` converted to a `size_t` of 64 bits.
abbrev pub to_size : ℤ → ℕ
to_size (pos n) = n
to_size (negsuc n) = 0xffff_ffff_ffff_ffff - n
