-- ===== src/Reg/Field/Bits.antt =====
-- libloragw/src/loragw_reg.c and libloragw/src/loragw_spi.c: the shifts and masks on a byte, as reading and replacing of
-- its bits.
use native.Mathlib.Nat.{mul-div_cancel, div-add-mod', pow-le-pow_right}
use meshbeacon_uplink.Prelude.{
  ℕ, zero, suc, ◌+◌, ◌-◌, ◌*◌, ◌/◌, ◌%◌, ◌^◌, ◌<◌, ◌≤◌, ◌≡◌, sym, ap, ◌∙◌, bit_and, u8, arith,
}
use meshbeacon_uplink.Prelude.Bits.Mix.{mask_and, and_shifted, mixed}
use meshbeacon_uplink.Prelude.Bits.Field.{get_field, put_field, get-low, pow-add, pow-pos}
use meshbeacon_uplink.Reg.Field.{bit_mask, mix_byte}

pub pow-le-256 : (a : ℕ) → a ≤ 8 → 2 ^ a ≤ 256
pow-le-256 a h = pow-le-pow_right (omega arith) h

-- A byte is made of the powers of its two parts.
pub split-256 : (a : ℕ) → a ≤ 8 → 2 ^ a * 2 ^ (8 - a) ≡ 256
split-256 a h =
    let e : a + (8 - a) ≡ 8 = omega arith in sym (pow-add a (8 - a)) ∙ ap (λ (t : ℕ). 2 ^ t) e

pred-mul : (a b : ℕ) → 0 < a → (a - 1) * b + b ≡ a * b
pred-mul zero b h = absurd (omega arith)
pred-mul (suc a) b h = let e : suc a - 1 ≡ a = omega arith in rw e (grind arith)

mask-fits : (offs leng : ℕ) → offs + leng ≤ 8 → (2 ^ leng - 1) * 2 ^ offs < 256
mask-fits offs leng h = omega (
  arith,
  pow-add leng offs,
  pow-le-256 (leng + offs) (omega arith),
  pred-mul (2 ^ leng) (2 ^ offs) (pow-pos leng),
  pow-pos offs,
)

bit_mask_lem : (offs leng : ℕ) → offs + leng ≤ 8 → bit_mask offs leng ≡ (2 ^ leng - 1) * 2 ^ offs
unfolding bit_mask
bit_mask_lem offs leng h = omega (arith, mask-fits offs leng h)

-- The bits above, those of the field, and those below.
split-field :
    (offs leng x : ℕ)
    → x ≡ (x / 2 ^ offs / 2 ^ leng * 2 ^ leng + get_field offs leng x) * 2 ^ offs + x % 2 ^ offs
unfolding get_field
split-field offs leng x = omega (
  arith,
  div-add-mod' x (2 ^ offs),
  ap (λ (t : ℕ). t * 2 ^ offs) (div-add-mod' (x / 2 ^ offs) (2 ^ leng)),
)

masked :
    (offs leng x : ℕ) → bit_and ((2 ^ leng - 1) * 2 ^ offs) x ≡ get_field offs leng x * 2 ^ offs
unfolding get_field
masked offs leng x =
    and_shifted offs (2 ^ leng - 1) x ∙ ap (λ (t : ℕ). t * 2 ^ offs) (mask_and leng (x / 2 ^ offs))

get-shifted :
    (offs leng v : ℕ) → offs + leng ≤ 8 → get_field offs leng (u8 (v * 2 ^ offs)) ≡ v % 2 ^ leng
unfolding get_field
get-shifted offs leng v h =
    get-low offs leng 8 (v * 2 ^ offs) h
    ∙ ap (λ (t : ℕ). t % 2 ^ leng) (mul-div_cancel v (pow-pos offs))

pub mix_byte-put :
    (offs leng x v : ℕ)
    → offs + leng ≤ 8
    → x < 256
    → mix_byte offs leng x v ≡ put_field offs leng x (v % 2 ^ leng)
unfolding mix_byte put_field
mix_byte-put offs leng x v h hx =
    let mask = (2 ^ leng - 1) * 2 ^ offs in
    let y = u8 (v * 2 ^ offs) in
    let mask_is = bit_mask_lem offs leng h in
    let fits : mask < 2 ^ 8 = mask-fits offs leng h in
    let mix = mixed 8 mask x y fits hx in
    let new : bit_and mask y ≡ v % 2 ^ leng * 2 ^ offs =
      masked offs leng y ∙ ap (λ (t : ℕ). t * 2 ^ offs) (get-shifted offs leng v h) in
    rw mask_is (grind (arith, mix, new, masked offs leng x, split-field offs leng x))
