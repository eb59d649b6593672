-- ===== src/Prelude/Int.antt =====
-- Signed numbers, and the reading of a 32-bit pattern as one.
use Prim.Native.Nat.{ℕ, suc, ◌+◌, ◌-◌}
use mathlib.Core.Option.{Option, none, some}
use meshbeacon_uplink.Prelude.Tests.{ltb, leb, if◌then◌else◌}

-- `negsuc n` is -(n + 1).
pub data ℤ : Type 0 where
  pos : ℕ → ℤ
  negsuc : ℕ → ℤ

abbrev pub pos_part : ℤ → ℕ
pos_part (pos n) = n
pos_part (negsuc n) = 0

abbrev pub neg_part : ℤ → ℕ
neg_part (pos n) = 0
neg_part (negsuc n) = suc n

-- a - b, as an integer.
abbrev pub sub_ℕ : ℕ → ℕ → ℤ
sub_ℕ a b = if leb b a then pos (a - b) else negsuc (b - a - 1)

infixl 65 ◌-ℤ◌
abbrev pub ◌-ℤ◌ : ℤ → ℤ → ℤ
a -ℤ b = sub_ℕ (pos_part a + neg_part b) (neg_part a + pos_part b)

-- `(int)x` for a `uint32_t`.
abbrev pub to_int32 : ℕ → ℤ
to_int32 x = if ltb x 2147483648 then pos x else negsuc (4294967295 - x)

-- A result of `int` arithmetic, `none` where it overflows.
abbrev pub in_int32 : ℤ → Option ℤ
in_int32 (pos n) = if ltb n 2147483648 then some (pos n) else none
in_int32 (negsuc n) = if ltb n 2147483648 then some (negsuc n) else none

-- `(int8_t)x` for a byte.
abbrev pub to_int8 : ℕ → ℤ
to_int8 x = if ltb x 128 then pos x else negsuc (255 - x)

-- `(int16_t)x` for a `uint16_t`.
abbrev pub to_int16 : ℕ → ℤ
to_int16 x = if ltb x 32768 then pos x else negsuc (65535 - x)
