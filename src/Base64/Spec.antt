-- ===== src/Base64/Spec.antt =====
-- The encoding as a table of six-bit groups, and the functions of base64.c against it.
use meshbeacon_uplink.Prelude.{
  ℕ, ◌+◌, ◌*◌, ◌/◌, ◌%◌, ◌^◌, ◌<◌, ◌≡◌, ◌≢◌, refl, ◌∙◌, List, [], ◌∷◌, some, All, arith, bit_and,
  bit_or, length,
}
use meshbeacon_uplink.Prelude.Bits.{or_shifted, and_mask}
use meshbeacon_uplink.Base64.Codes.{char_of, code_to_char-char_of, char_to_code-char_of, code_pad}
use meshbeacon_uplink.Base64.Encode.{pack_bytes, char_at_bit, encode_chars}
use meshbeacon_uplink.Base64.Decode.{bits_at, byte_at_bit, decode_bytes}

abbrev pub IsBytes : List ℕ → Type 0
IsBytes = All (λ x. x < 256)

-- Each character of a group shows six bits of its bytes.
unfoldable pub encoded : List ℕ → List ℕ
encoded [] = []
encoded (x ∷ []) = char_of (x / 4) ∷ char_of (x % 4 * 16) ∷ []
encoded (x ∷ y ∷ []) = char_of (x / 4) ∷ char_of (x % 4 * 16 + y / 16) ∷ char_of (y % 16 * 4) ∷ []
encoded (x ∷ y ∷ z ∷ rest) =
    char_of (x / 4)
    ∷ char_of (x % 4 * 16 + y / 16)
    ∷ char_of (y % 16 * 4 + z / 64)
    ∷ char_of (z % 64)
    ∷ encoded rest

char_at_bit_lem : (b k v : ℕ) → b / 2 ^ k % 64 ≡ v → char_at_bit b k ≡ some (char_of v)
char_at_bit_lem b k v e = rw (and_mask 6 (b / 2 ^ k), e) (code_to_char-char_of v (omega arith)).0

first_byte : (x : ℕ) → x < 256 → bit_and x 0xff * 2 ^ 16 ≡ x * 65536
first_byte x h = omega (arith, and_mask 8 x)

two_bytes :
    (x y : ℕ)
    → x < 256
    → y < 256
    → bit_or (bit_and x 0xff * 2 ^ 16) (bit_and y 0xff * 2 ^ 8) ≡ x * 65536 + y * 256
two_bytes x y hx hy =
    rw (and_mask 8 x, and_mask 8 y)
      (omega (arith, or_shifted 16 (x % 256) (y % 256 * 256) (omega arith)))

pack_bytes_lem :
    (x y z : ℕ) → x < 256 → y < 256 → z < 256 → pack_bytes x y z ≡ x * 65536 + y * 256 + z
pack_bytes_lem x y z hx hy hz =
    let top : x * 65536 + y * 256 ≡ (x * 256 + y) * 2 ^ 8 = omega arith in
    rw (two_bytes x y hx hy, and_mask 8 z, top)
      (omega (arith, or_shifted 8 (x * 256 + y) (z % 256) (omega arith)))

pub encode_chars-encoded : (bs : List ℕ) → IsBytes bs → encode_chars bs ≡ some (encoded bs)
unfolding encode_chars encoded
encode_chars-encoded [] h = refl
encode_chars-encoded (x ∷ []) h =
    let w = first_byte x h.0 in
    rw (
      w,
      char_at_bit_lem (x * 65536) 18 (x / 4) (omega arith),
      char_at_bit_lem (x * 65536) 12 (x % 4 * 16) (omega arith),
    )
encode_chars-encoded (x ∷ y ∷ []) h =
    let b = x * 65536 + y * 256 in
    rw (
      two_bytes x y h.0 h.1.0,
      char_at_bit_lem b 18 (x / 4) (omega arith),
      char_at_bit_lem b 12 (x % 4 * 16 + y / 16) (omega arith),
      char_at_bit_lem b 6 (y % 16 * 4) (omega arith),
    )
encode_chars-encoded (x ∷ y ∷ z ∷ rest) h =
    let b = x * 65536 + y * 256 + z in
    rw (
      pack_bytes_lem x y z h.0 h.1.0 h.1.1.0,
      char_at_bit_lem b 18 (x / 4) (omega arith),
      char_at_bit_lem b 12 (x % 4 * 16 + y / 16) (omega arith),
      char_at_bit_lem b 6 (y % 16 * 4 + z / 64) (omega arith),
      char_at_bit_lem b 0 (z % 64) (omega arith),
      encode_chars-encoded rest h.1.1.1,
    )

bits_at_lem : (v k : ℕ) → v < 64 → bits_at (char_of v) k ≡ some (v * 2 ^ k)
bits_at_lem v k h =
    let low : v % 64 ≡ v = omega arith in rw (char_to_code-char_of v h, and_mask 6 v, low)

two_groups : (p q : ℕ) → q < 64 → bit_or (p * 2 ^ 18) (q * 2 ^ 12) ≡ p * 262144 + q * 4096
two_groups p q h = omega (arith, or_shifted 18 p (q * 2 ^ 12) (omega arith))

three_groups :
    (p q r : ℕ)
    → q < 64
    → r < 64
    → bit_or (bit_or (p * 2 ^ 18) (q * 2 ^ 12)) (r * 2 ^ 6) ≡ p * 262144 + q * 4096 + r * 64
three_groups p q r hq hr =
    let top : p * 262144 + q * 4096 ≡ (p * 64 + q) * 2 ^ 12 = omega arith in
    rw (two_groups p q hq, top)
      (omega (arith, or_shifted 12 (p * 64 + q) (r * 2 ^ 6) (omega arith)))

four_groups :
    (p q r s : ℕ)
    → q < 64
    → r < 64
    → s < 64
    → bit_or (bit_or (bit_or (p * 2 ^ 18) (q * 2 ^ 12)) (r * 2 ^ 6)) (s * 2 ^ 0)
      ≡ p * 262144 + q * 4096 + r * 64 + s
four_groups p q r s hq hr hs =
    let top : p * 262144 + q * 4096 + r * 64 ≡ (p * 4096 + q * 64 + r) * 2 ^ 6 = omega arith in
    rw (three_groups p q r hq hr, top)
      (omega (arith, or_shifted 6 (p * 4096 + q * 64 + r) (s * 2 ^ 0) (omega arith)))

byte_at_bit_lem : (b k v : ℕ) → b / 2 ^ k % 256 ≡ v → byte_at_bit b k ≡ v
byte_at_bit_lem b k v e = and_mask 8 (b / 2 ^ k) ∙ e

-- Decoding the table's text gives the bytes back.
pub decode_bytes-encoded : (bs : List ℕ) → IsBytes bs → decode_bytes (encoded bs) ≡ some bs
unfolding decode_bytes encoded
decode_bytes-encoded [] h = refl
decode_bytes-encoded (x ∷ []) h = rw (
  bits_at_lem (x / 4) 18 (omega arith),
  bits_at_lem (x % 4 * 16) 12 (omega arith),
  two_groups (x / 4) (x % 4 * 16) (omega arith),
  byte_at_bit_lem (x / 4 * 262144 + x % 4 * 16 * 4096) 16 x (omega arith),
)
decode_bytes-encoded (x ∷ y ∷ []) h =
    let q = x % 4 * 16 + y / 16 in
    let r = y % 16 * 4 in
    let b = x / 4 * 262144 + q * 4096 + r * 64 in
    rw (
      bits_at_lem (x / 4) 18 (omega arith),
      bits_at_lem q 12 (omega arith),
      bits_at_lem r 6 (omega arith),
      three_groups (x / 4) q r (omega arith) (omega arith),
      byte_at_bit_lem b 16 x (omega arith),
      byte_at_bit_lem b 8 y (omega arith),
    )
decode_bytes-encoded (x ∷ y ∷ z ∷ rest) h =
    let q = x % 4 * 16 + y / 16 in
    let r = y % 16 * 4 + z / 64 in
    let s = z % 64 in
    let b = x / 4 * 262144 + q * 4096 + r * 64 + s in
    rw (
      bits_at_lem (x / 4) 18 (omega arith),
      bits_at_lem q 12 (omega arith),
      bits_at_lem r 6 (omega arith),
      bits_at_lem s 0 (omega arith),
      four_groups (x / 4) q r s (omega arith) (omega arith) (omega arith),
      byte_at_bit_lem b 16 x (omega arith),
      byte_at_bit_lem b 8 y (omega arith),
      byte_at_bit_lem b 0 z (omega arith),
      decode_bytes-encoded rest h.1.1.1,
    )

-- A text has four characters for each three bytes, and 2 or 3 for what is left.
pub length-encoded :
    (bs : List ℕ)
    → length (encoded bs) ≡ 4 * (length bs / 3) + (length bs % 3 + (length bs % 3 + 2) / 3)
unfolding encoded
length-encoded [] = refl
length-encoded (x ∷ []) = refl
length-encoded (x ∷ y ∷ []) = refl
length-encoded (x ∷ y ∷ z ∷ rest) = omega (arith, length-encoded rest)

char_of-ne-pad : (v : ℕ) → v < 64 → char_of v ≢ code_pad
char_of-ne-pad v h = (code_to_char-char_of v h).1

-- No character of a text is the padding.
pub encoded-unpadded : (bs : List ℕ) → IsBytes bs → All (λ c. c ≢ code_pad) (encoded bs)
unfolding encoded
encoded-unpadded [] h = tt
encoded-unpadded (x ∷ []) h =
    let no_pad = char_of-ne-pad in (no_pad _ (omega arith), (no_pad _ (omega arith), tt))
encoded-unpadded (x ∷ y ∷ []) h =
    let no_pad = char_of-ne-pad in
    (no_pad _ (omega arith), (no_pad _ (omega arith), (no_pad _ (omega arith), tt)))
encoded-unpadded (x ∷ y ∷ z ∷ rest) h =
    let no_pad = char_of-ne-pad in
    (
      no_pad _ (omega arith),
      (
        no_pad _ (omega arith),
        (no_pad _ (omega arith), (no_pad _ (omega arith), encoded-unpadded rest h.1.1.1)),
      ),
    )
