-- ===== src/Gps/Ubx/Sums.antt =====
-- libloragw/src/loragw_gps.c: the checksum of a UBX message, as two sums.
use meshbeacon_uplink.Prelude.{
  ℕ, ◌+◌, ◌-◌, ◌*◌, ◌/◌, ◌%◌, ◌≡◌, ◌<◌, sym, ap, ap₂, ◌∙◌, true, List, [], ◌∷◌, length, take, drop,
  get_or, u8, ◌==◌, ◌&&◌, arith, and_split,
}
use meshbeacon_uplink.Gps.Ubx.{fletcher, ubx_payload_length, ubx_msg_size, is_ubx_checksum}

unfoldable pub byte_sum : List ℕ → ℕ
byte_sum [] = 0
byte_sum (x ∷ xs) = x + byte_sum xs

-- Each byte as often as there are bytes from it to the end.
unfoldable pub weighted_sum : List ℕ → ℕ
weighted_sum [] = 0
weighted_sum (x ∷ xs) = x + length xs * x + weighted_sum xs

-- The class, the identifier, the length and the payload of the message in front.
unfoldable pub summed_bytes : List ℕ → List ℕ
summed_bytes buff = take (4 + ubx_payload_length buff) (drop 2 buff)

-- The two bytes behind them are their sums.
unfoldable pub IsSummed : List ℕ → Type 0
IsSummed buff =
    (byte_sum (summed_bytes buff) % 256 ≡ get_or buff (ubx_msg_size buff - 2) 0)
    × (weighted_sum (summed_bytes buff) % 256 ≡ get_or buff (ubx_msg_size buff - 1) 0)

spread : (l q r : ℕ) → l * (256 * q + r) ≡ 256 * (l * q) + l * r
spread l q r = omega arith

spread_sum : (l a x : ℕ) → l * (a + x) ≡ l * a + l * x
spread_sum l a x = omega arith

product_mod : (l t : ℕ) → l * t ≡ 256 * (l * (t / 256)) + l * (t % 256)
product_mod l t =
    let split : t ≡ 256 * (t / 256) + t % 256 = omega arith in
    ap (λ k. l * k) split ∙ spread l (t / 256) (t % 256)

fletcher-sums :
    (a b : ℕ) (xs : List ℕ)
    → ((fletcher a b xs).0 % 256 ≡ (a + byte_sum xs) % 256)
      × ((fletcher a b xs).1 % 256 ≡ (b + length xs * a + weighted_sum xs) % 256)
unfolding fletcher byte_sum weighted_sum
fletcher-sums a b [] = (omega arith, omega arith)
fletcher-sums a b (x ∷ xs) =
    let ih = fletcher-sums (u8 (a + x)) (u8 (b + u8 (a + x))) xs in
    let product = product_mod (length xs) (a + x) in
    (omega (arith, ih.0), omega (arith, ih.1, product, spread_sum (length xs) a x))

fletcher-small :
    (a b : ℕ) (xs : List ℕ)
    → a < 256
    → b < 256
    → ((fletcher a b xs).0 < 256) × ((fletcher a b xs).1 < 256)
unfolding fletcher
fletcher-small a b [] ha hb = (ha, hb)
fletcher-small a b (x ∷ xs) ha hb =
    fletcher-small (u8 (a + x)) (u8 (b + u8 (a + x))) xs (omega arith) (omega arith)

-- The sums that the loop computes.
fletcher-sum :
    (xs : List ℕ)
    → ((fletcher 0 0 xs).0 ≡ byte_sum xs % 256) × ((fletcher 0 0 xs).1 ≡ weighted_sum xs % 256)
fletcher-sum xs =
    let small = fletcher-small 0 0 xs (omega arith) (omega arith) in
    let sums = fletcher-sums 0 0 xs in
    (omega (arith, small.0, sums.0), omega (arith, small.1, sums.1))

==-true : (a b : ℕ) → a ≡ b → (a == b) ≡ true
==-true a b h = ground arith

true-== : (a b : ℕ) → (a == b) ≡ true → a ≡ b
true-== a b h = ground arith

pub checksum-IsSummed : (buff : List ℕ) → is_ubx_checksum buff ≡ true → IsSummed buff
unfolding is_ubx_checksum IsSummed summed_bytes
checksum-IsSummed buff h =
    let sums = fletcher-sum (summed_bytes buff) in
    let (first, second) =
      and_split ((fletcher 0 0 (summed_bytes buff)).0 == get_or buff (ubx_msg_size buff - 2) 0)
        ((fletcher 0 0 (summed_bytes buff)).1 == get_or buff (ubx_msg_size buff - 1) 0) h in
    (sym sums.0 ∙ true-== _ _ first, sym sums.1 ∙ true-== _ _ second)

pub IsSummed-checksum : (buff : List ℕ) → IsSummed buff → is_ubx_checksum buff ≡ true
unfolding is_ubx_checksum IsSummed summed_bytes
IsSummed-checksum buff (first, second) =
    let sums = fletcher-sum (summed_bytes buff) in
    ap₂ ◌&&◌ (==-true _ _ (sums.0 ∙ first)) (==-true _ _ (sums.1 ∙ second))
