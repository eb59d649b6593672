-- ===== src/Reg/Field/Value.antt =====
-- libloragw/src/loragw_reg.c: the value that `reg_r` makes of the bits of a register, with its sign.
use native.Mathlib.Nat.{
  div-add-mod', mul-add-div_right, mod-lt, mul-div-mul_right, div-eq_of_lt, mod-eq_of_lt,
  mul-add-mod_self_right, div-lt_iff_lt-mul, le-div_iff_mul-le, two-pow-succ,
}
use meshbeacon_uplink.Prelude.{
  ℕ, suc, ◌+◌, ◌-◌, ◌*◌, ◌/◌, ◌%◌, ◌^◌, ◌<◌, ◌≤◌, ◌≡◌, inl, inr, refl, sym, ap, ◌∙◌, true, false,
  ltb, if◌then◌else◌, u8, arith, and_split, Bool-cases, ltb→lt, lt→ltb,
}
use meshbeacon_uplink.Prelude.Int.{ℤ, pos, negsuc}
use meshbeacon_uplink.Prelude.Bits.Field.{get_field, pow-add, pow-pos, mod-div}
use meshbeacon_uplink.Reg.Field.{LgwReg, field_value, shift_int8, to_uint8}
use meshbeacon_uplink.Reg.Field.Bits.{split-256, pow-le-256}
use meshbeacon_uplink.Reg.Table.Order.{is_value}

-- The byte with the bits of the field at its upper end.
left : ℕ → ℕ → ℕ → ℕ
left offs leng b = u8 (b * 2 ^ (8 - leng - offs))

left-div :
    (offs leng b : ℕ) → offs + leng ≤ 8 → left offs leng b / 2 ^ (8 - leng) ≡ get_field offs leng b
unfolding left get_field
left-div offs leng b h =
    let k = 8 - leng - offs in
    let whole = split-256 leng (omega arith) in
    let parts : 2 ^ (8 - leng) ≡ 2 ^ offs * 2 ^ k =
      (let e : 8 - leng ≡ offs + k = omega arith in ap (λ (t : ℕ). 2 ^ t) e) ∙ pow-add offs k in
    ap (λ (t : ℕ). b * 2 ^ k % t / 2 ^ (8 - leng)) (sym whole)
    ∙ mod-div (b * 2 ^ k) (2 ^ leng) (2 ^ (8 - leng)) (pow-pos leng) (pow-pos (8 - leng))
    ∙ ap (λ (t : ℕ). b * 2 ^ k / t % 2 ^ leng) parts
    ∙ ap (λ (t : ℕ). t % 2 ^ leng) (mul-div-mul_right b (2 ^ offs) (pow-pos k))

get_field-lt : (offs leng b : ℕ) → get_field offs leng b < 2 ^ leng
unfolding get_field
get_field-lt offs leng b = mod-lt (b / 2 ^ offs) (pow-pos leng)

module _ (offs leng b : ℕ) (one : 1 ≤ leng) (byte : offs + leng ≤ 8) where
  half : 2 ^ (leng - 1) * 2 ^ (8 - leng) ≡ 128
  half =
      let e : leng - 1 + (8 - leng) ≡ 7 = omega arith in
      sym (pow-add (leng - 1) (8 - leng)) ∙ ap (λ (t : ℕ). 2 ^ t) e

  left-low : get_field offs leng b < 2 ^ (leng - 1) → left offs leng b < 128
  left-low h =
      let v = left-div offs leng b byte in
      let part : left offs leng b / 2 ^ (8 - leng) < 2 ^ (leng - 1) = omega (arith, v, h) in
      let less = (div-lt_iff_lt-mul (pow-pos (8 - leng))).0 part in omega (arith, less, half)

  left-high : 2 ^ (leng - 1) ≤ get_field offs leng b → 128 ≤ left offs leng b
  left-high h =
      let v = left-div offs leng b byte in
      let part : 2 ^ (leng - 1) ≤ left offs leng b / 2 ^ (8 - leng) = omega (arith, v, h) in
      let more = (le-div_iff_mul-le (pow-pos (8 - leng))).0 part in omega (arith, more, half)

  -- The one's complement of the byte.
  left-complement : (255 - left offs leng b) / 2 ^ (8 - leng) ≡ 2 ^ leng - 1 - get_field offs leng b
  left-complement =
      let n = 2 ^ (8 - leng) in
      let v = get_field offs leng b in
      let w = 2 ^ leng - 1 - v in
      let byte_left = left offs leng b in
      let below : v < 2 ^ leng = get_field-lt offs leng b in
      let parts : byte_left ≡ v * n + byte_left % n =
        sym (div-add-mod' byte_left n)
        ∙ ap (λ (t : ℕ). t * n + byte_left % n) (left-div offs leng b byte) in
      let all_ones : (w + v + 1) * n ≡ 256 =
        (let e : w + v + 1 ≡ 2 ^ leng = omega (arith, below) in ap (λ (t : ℕ). t * n) e)
        ∙ split-256 leng (omega arith) in
      let low : n - 1 - byte_left % n < n = omega (arith, pow-pos (8 - leng)) in
      let complement : 255 - byte_left ≡ w * n + (n - 1 - byte_left % n) =
        omega (arith, parts, all_ones, mod-lt byte_left (pow-pos (8 - leng))) in
      ap (λ (t : ℕ). t / n) complement
      ∙ mul-add-div_right (pow-pos (8 - leng)) w (n - 1 - byte_left % n)
      ∙ ap (λ (t : ℕ). w + t) (div-eq_of_lt low)
      ∙ omega arith

-- The value with its sign.
unfoldable pub signed_value : LgwReg → ℕ → ℤ
signed_value r v =
    if r.sign
    then (if ltb v (2 ^ (r.leng - 1)) then pos v else negsuc (2 ^ r.leng - 1 - v))
    else pos v

pub field_value_lem :
    (r : LgwReg) (b : ℕ)
    → 1 ≤ r.leng
    → r.offs + r.leng ≤ 8
    → field_value r b ≡ signed_value r (get_field r.offs r.leng b)
unfolding field_value signed_value left shift_int8
field_value_lem r b one byte =
    let v = get_field r.offs r.leng b in
    let whole = left-div r.offs r.leng b byte in
    elim (Bool-cases r.sign) [
      | inr plain ↦ rw plain (ap pos whole)
      | inl signed ↦ elim (Bool-cases (ltb v (2 ^ (r.leng - 1)))) [
        | inl low ↦
            let small = left-low r.offs r.leng b one byte (ltb→lt v (2 ^ (r.leng - 1)) low) in
            rw (signed, low, lt→ltb (left r.offs r.leng b) 128 small) (ap pos whole)
        | inr high ↦
            let large = left-high r.offs r.leng b one byte (ground (arith, high)) in
            let over : ltb (left r.offs r.leng b) 128 ≡ false = ground (arith, large) in
            rw (signed, high, over) (ap negsuc (left-complement r.offs r.leng b one byte))
      ]
    ]

double : (leng : ℕ) → 1 ≤ leng → 2 ^ leng ≡ 2 ^ (leng - 1) + 2 ^ (leng - 1)
double leng h =
    let e : leng ≡ suc (leng - 1) = omega arith in ap (λ (t : ℕ). 2 ^ t) e ∙ two-pow-succ (leng - 1)

low_bits : (n leng : ℕ) → leng ≤ 8 → n < 2 ^ leng → n % 256 % 2 ^ leng ≡ n
low_bits n leng byte h =
    let small : n % 256 ≡ n = omega (arith, pow-le-256 leng byte) in
    ap (λ (t : ℕ). t % 2 ^ leng) small ∙ mod-eq_of_lt h

complement_bits :
    (n leng : ℕ) → leng ≤ 8 → n < 2 ^ leng → (255 - n % 256) % 2 ^ leng ≡ 2 ^ leng - 1 - n
complement_bits n leng byte h =
    let top = 2 ^ (8 - leng) - 1 in
    let low : 2 ^ leng - 1 - n < 2 ^ leng = omega (arith, pow-pos leng) in
    let all_ones : (top + 1) * 2 ^ leng ≡ 256 =
      (let e : top + 1 ≡ 2 ^ (8 - leng) = omega (arith, pow-pos (8 - leng)) in
        ap (λ (t : ℕ). t * 2 ^ leng) e)
      ∙ omega (arith, split-256 leng byte) in
    let parts : 255 - n % 256 ≡ top * 2 ^ leng + (2 ^ leng - 1 - n) =
      omega (arith, all_ones, pow-le-256 leng byte) in
    ap (λ (t : ℕ). t % 2 ^ leng) parts
    ∙ mul-add-mod_self_right top (2 ^ leng) (2 ^ leng - 1 - n)
    ∙ mod-eq_of_lt low

-- A value that fits the register is what its bits stand for.
pub signed_value-back :
    (r : LgwReg) (z : ℤ)
    → 1 ≤ r.leng
    → r.leng ≤ 8
    → is_value r z ≡ true
    → signed_value r (to_uint8 z % 2 ^ r.leng) ≡ z
unfolding signed_value to_uint8 is_value
signed_value-back r (pos n) one byte h = elim (Bool-cases r.sign) [
  | inr plain ↦
      let fits : n < 2 ^ r.leng = ltb→lt n (2 ^ r.leng) (rw plain at h) in
      rw plain (ap pos (low_bits n r.leng byte fits))
  | inl signed ↦
      let low : ltb n (2 ^ (r.leng - 1)) ≡ true = rw signed at h in
      let fits : n < 2 ^ r.leng =
        omega (arith, ltb→lt n (2 ^ (r.leng - 1)) low, double r.leng one) in
      rw (signed, low_bits n r.leng byte fits, low) refl
]
signed_value-back r (negsuc n) one byte h =
    let (signed, low) = and_split r.sign (ltb n (2 ^ (r.leng - 1))) h in
    let small : n < 2 ^ (r.leng - 1) = ltb→lt n (2 ^ (r.leng - 1)) low in
    let d = double r.leng one in
    let v = 2 ^ r.leng - 1 - n in
    let bits : (255 - n % 256) % 2 ^ r.leng ≡ v =
      complement_bits n r.leng byte (omega (arith, small, d)) in
    let over : ltb v (2 ^ (r.leng - 1)) ≡ false = ground (arith, small, d) in
    let back : 2 ^ r.leng - 1 - v ≡ n = omega (arith, small, d) in
    rw (signed, bits, over) (ap negsuc back)
