-- ===== src/Prelude/Bits/Mix.antt =====
-- `(~mask & old) | (mask & new)`, as arithmetic.
use Prim.Native.Nat.{
  ℕ, zero, suc, ◌+◌, ◌-◌, ◌*◌, ◌/◌, ◌%◌, ◌^◌, ◌≤◌, ◌<◌, min, max, bit_and, bit_or, bit_and-bitwise,
}
use mathlib.Core.Path.{◌≡◌, refl, sym, ap, ◌∙◌}
use native.Mathlib.Nat.{pow-suc, div-div-eq-div-mul, pow-succ'}
use native.Mathlib.Omega.{arith}
use meshbeacon_uplink.Prelude.Bits.{or_digit, and_digit, and_zero_upto, and_mask}

and_zero : (b : ℕ) → bit_and 0 b ≡ 0
and_zero b = omega (arith, bit_and-bitwise 0 b)

and_comm_upto : (bound a b : ℕ) → a ≤ bound → bit_and a b ≡ bit_and b a
and_comm_upto bound zero b h = and_zero b ∙ sym (and_zero_upto b b (omega arith))
and_comm_upto zero (suc a) b h = absurd (omega arith)
and_comm_upto (suc bound) (suc a) b h = omega (
  arith,
  and_digit (suc a) b,
  and_digit b (suc a),
  and_comm_upto bound (suc a / 2) (b / 2) (omega arith),
)

pub mask_and : (width a : ℕ) → bit_and (2 ^ width - 1) a ≡ a % 2 ^ width
mask_and width a = and_comm_upto (2 ^ width - 1) (2 ^ width - 1) a (omega arith) ∙ and_mask width a

doubled_mask : (m top y : ℕ) → m ≡ top * 2 → bit_and m y ≡ bit_and top (y / 2) * 2
doubled_mask m top y e =
    let halved : m / 2 ≡ top = omega (arith, e) in and_digit m y ∙ rw halved (omega (arith, e))

-- A mask shifted to the left.
pub and_shifted : (o m y : ℕ) → bit_and (m * 2 ^ o) y ≡ bit_and m (y / 2 ^ o) * 2 ^ o
and_shifted zero m y =
    let plain : m * 2 ^ 0 ≡ m = omega arith in
    let whole : y / 2 ^ 0 ≡ y = omega arith in rw (plain, whole) (omega arith)
and_shifted (suc o) m y =
    let top = m * 2 ^ o in
    let halved : top * 2 / 2 ≡ top = omega arith in
    let doubled : m * 2 ^ suc o ≡ top * 2 = omega (arith, ap (λ (t : ℕ). m * t) (pow-suc 2 o)) in
    let deeper : y / 2 / 2 ^ o ≡ y / 2 ^ suc o =
      div-div-eq-div-mul y 2 (2 ^ o) ∙ ap (λ (t : ℕ). y / t) (sym (pow-succ' 2 o)) in
    let rest = and_shifted o m (y / 2) ∙ ap (λ (t : ℕ). bit_and m t * 2 ^ o) deeper in
    doubled_mask (m * 2 ^ suc o) top y doubled
    ∙ ap (λ (t : ℕ). t * 2) rest
    ∙ omega (arith, ap (λ (t : ℕ). bit_and m (y / 2 ^ suc o) * t) (pow-suc 2 o))

-- The bits of the mask come from `y`, and the others from `x`.
pub mixed :
    (w m x y : ℕ)
    → m < 2 ^ w
    → x < 2 ^ w
    → bit_or (bit_and (2 ^ w - 1 - m) x) (bit_and m y) + bit_and m x ≡ x + bit_and m y
mixed zero zero zero y hm hx = rw (and_zero y) refl
mixed zero (suc m) x y hm hx = absurd (omega arith)
mixed zero zero (suc x) y hm hx = absurd (omega arith)
mixed (suc w) m x y hm hx =
    let c = 2 ^ suc w - 1 - m in
    let half : c / 2 ≡ 2 ^ w - 1 - m / 2 = omega (arith, pow-suc 2 w) in
    let digit : c % 2 ≡ 1 - m % 2 = omega (arith, pow-suc 2 w) in
    let a = bit_and c x in
    let b = bit_and m y in
    let old = bit_and (2 ^ w - 1 - m / 2) (x / 2) in
    let new = bit_and (m / 2) (y / 2) in
    let a_digit : a ≡ old * 2 + min (c % 2) (x % 2) =
      and_digit c x ∙ ap (λ (t : ℕ). bit_and t (x / 2) * 2 + min (c % 2) (x % 2)) half in
    let b_digit : b ≡ new * 2 + min (m % 2) (y % 2) = and_digit m y in
    let a_half : a / 2 ≡ old = omega (arith, a_digit) in
    let b_half : b / 2 ≡ new = omega (arith, b_digit) in
    let joined : bit_or a b ≡ bit_or old new * 2 + max (a % 2) (b % 2) =
      or_digit a b ∙ rw (a_half, b_half) refl in
    let rest =
      mixed w (m / 2) (x / 2) (y / 2) (omega (arith, pow-suc 2 w)) (omega (arith, pow-suc 2 w)) in
    omega (arith, joined, a_digit, b_digit, digit, and_digit m x, rest)
