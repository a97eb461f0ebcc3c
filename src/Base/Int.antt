-- ===== src/Base/Int.antt =====
-- Signed integers over the native numbers, and the wrap-around of an `int64`.
use Prim.Native.Nat.{ℕ, zero, suc, ◌+◌, ◌-◌, ◌*◌, ◌%◌, ◌^◌}
use mathlib.Core.Bool.{Bool, true, false}
use overworld_ops.Base.Tests.{ltb, ◌==◌, if◌then◌else◌}

-- `negsuc n` is -(n + 1).
pub data ℤ : Type 0 where
  pos : ℕ → ℤ
  negsuc : ℕ → ℤ

abbrev pub neg : ℕ → ℤ
neg zero = pos 0
neg (suc n) = negsuc n

-- `z < 0`, `z > 0` and `z == 0`
abbrev pub is_negative : ℤ → Bool
is_negative (pos n) = false
is_negative (negsuc n) = true

abbrev pub is_positive : ℤ → Bool
is_positive (pos n) = ltb 0 n
is_positive (negsuc n) = false

abbrev pub is_zero : ℤ → Bool
is_zero (pos n) = n == 0
is_zero (negsuc n) = false

-- The residue modulo 2 ^ 64 of a two's complement number, and the number of a residue.
unfoldable pub to_bits : ℤ → ℕ
to_bits (pos n) = n % 2 ^ 64
to_bits (negsuc n) = 2 ^ 64 - 1 - n % 2 ^ 64

unfoldable pub of_bits : ℕ → ℤ
of_bits b = if ltb b (2 ^ 63) then pos b else negsuc (2 ^ 64 - 1 - b)

-- `int64` sums and products
unfoldable pub add_int64 : ℤ → ℤ → ℤ
unfolding to_bits of_bits
add_int64 a b = of_bits ((to_bits a + to_bits b) % 2 ^ 64)

unfoldable pub mul_int64 : ℤ → ℤ → ℤ
unfolding to_bits of_bits
mul_int64 a b = of_bits (to_bits a * to_bits b % 2 ^ 64)
