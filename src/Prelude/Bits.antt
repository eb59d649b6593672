-- ===== src/Prelude/Bits.antt =====
-- `|` of a shifted value with a smaller one, and `&` with a mask of low bits, as arithmetic.
pub mod Field
pub mod Mix
use Prim.Native.Nat.{
  ℕ, zero, suc, ◌+◌, ◌-◌, ◌*◌, ◌/◌, ◌%◌, ◌^◌, ◌≤◌, ◌<◌, min, max, bit_and, bit_or, digits,
  bit_and-bitwise, bit_or-bitwise,
}
use mathlib.Core.Path.{◌≡◌, refl, ap}
use native.Mathlib.Nat.{pow-suc, one-le-pow}
use native.Mathlib.Omega.{arith}

module _ (rest : ℕ → ℕ) (f : ℕ → ℕ → ℕ) where
  -- With fuel for every digit, more fuel does not change the recursion on digits.
  digits-enough :
      (a enough fuel b : ℕ)
      → a ≤ enough
      → enough ≤ fuel
      → digits rest f fuel a b ≡ digits rest f enough a b
  digits-enough zero zero zero b h le = refl
  digits-enough zero zero (suc fuel) b h le = refl
  digits-enough zero (suc enough) zero b h le = refl
  digits-enough zero (suc enough) (suc fuel) b h le = refl
  digits-enough (suc a) zero fuel b h le = absurd (omega arith)
  digits-enough (suc a) (suc enough) zero b h le = absurd (omega arith)
  digits-enough (suc a) (suc enough) (suc fuel) b h le =
      ap (λ (t : ℕ). t * 2 + f (suc a % 2) (b % 2))
        (digits-enough (suc a / 2) enough fuel (b / 2) (omega arith) (omega arith))

or_digit : (a b : ℕ) → bit_or a b ≡ bit_or (a / 2) (b / 2) * 2 + max (a % 2) (b % 2)
or_digit zero b = omega (arith, bit_or-bitwise 0 b, bit_or-bitwise 0 (b / 2))
or_digit (suc a) b = omega (
  arith,
  bit_or-bitwise (suc a) b,
  bit_or-bitwise (suc a / 2) (b / 2),
  digits-enough (λ (y : ℕ). y) max (suc a / 2) (suc a / 2) a (b / 2) (omega arith) (omega arith),
)

and_digit : (a b : ℕ) → bit_and a b ≡ bit_and (a / 2) (b / 2) * 2 + min (a % 2) (b % 2)
and_digit zero b = omega (arith, bit_and-bitwise 0 b, bit_and-bitwise 0 (b / 2))
and_digit (suc a) b = omega (
  arith,
  bit_and-bitwise (suc a) b,
  bit_and-bitwise (suc a / 2) (b / 2),
  digits-enough (λ (y : ℕ). 0) min (suc a / 2) (suc a / 2) a (b / 2) (omega arith) (omega arith),
)

-- The two operations with 0, for numbers up to a bound.
or_zero_upto : (bound a : ℕ) → a ≤ bound → bit_or a 0 ≡ a
or_zero_upto bound zero h = refl
or_zero_upto zero (suc a) h = absurd (omega arith)
or_zero_upto (suc bound) (suc a) h =
    omega (arith, or_digit (suc a) 0, or_zero_upto bound (suc a / 2) (omega arith))

and_zero_upto : (bound a : ℕ) → a ≤ bound → bit_and a 0 ≡ 0
and_zero_upto bound zero h = refl
and_zero_upto zero (suc a) h = absurd (omega arith)
and_zero_upto (suc bound) (suc a) h =
    omega (arith, and_digit (suc a) 0, and_zero_upto bound (suc a / 2) (omega arith))

double_pow : (hi width : ℕ) → hi * 2 ^ suc width ≡ hi * 2 ^ width * 2
double_pow hi width = omega (arith, ap (λ (t : ℕ). hi * t) (pow-suc 2 width))

-- `(hi << width) | lo`, where `lo` fits `width` bits.
pub or_shifted :
    (width hi lo : ℕ) → lo < 2 ^ width → bit_or (hi * 2 ^ width) lo ≡ hi * 2 ^ width + lo
or_shifted zero hi lo h =
    let none_left : lo ≡ 0 = omega arith in
    rw none_left (omega (arith, or_zero_upto (hi * 2 ^ 0) (hi * 2 ^ 0) (omega arith)))
or_shifted (suc width) hi lo h =
    let top = hi * 2 ^ width in
    let halved : top * 2 / 2 ≡ top = omega arith in
    let rest = or_shifted width hi (lo / 2) (omega (arith, pow-suc 2 width)) in
    rw (double_pow hi width, or_digit (top * 2) lo, halved, rest) (omega arith)

and_low : (width hi lo : ℕ) → lo < 2 ^ width → bit_and (hi * 2 ^ width + lo) (2 ^ width - 1) ≡ lo
and_low zero hi lo h =
    omega (arith, and_zero_upto (hi * 2 ^ 0 + lo) (hi * 2 ^ 0 + lo) (omega arith))
and_low (suc width) hi lo h =
    let top = hi * 2 ^ width in
    let positive = one-le-pow width 2 (omega arith) in
    let halved : (top * 2 + lo) / 2 ≡ top + lo / 2 = omega arith in
    let mask : (2 ^ width * 2 - 1) / 2 ≡ 2 ^ width - 1 = omega arith in
    let rest = and_low width hi (lo / 2) (omega (arith, pow-suc 2 width)) in
    rw
      (
        double_pow hi width,
        pow-suc 2 width,
        and_digit (top * 2 + lo) (2 ^ width * 2 - 1),
        halved,
        mask,
        rest,
      )
      (omega arith)

-- `a & mask`, where the mask has its `width` low bits set.
pub and_mask : (width a : ℕ) → bit_and a (2 ^ width - 1) ≡ a % 2 ^ width
and_mask width a =
    ground (arith, one-le-pow width 2 (omega arith), and_low width (a / 2 ^ width) (a % 2 ^ width))
