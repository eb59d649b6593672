-- ===== src/Base64/Decode.antt =====
-- base64.c: `b64_to_bin_nopad` and `b64_to_bin`.
use meshbeacon_uplink.Prelude.{
  ℕ, ◌+◌, ◌-◌, ◌*◌, ◌/◌, ◌%◌, ◌^◌, ◌&&◌, Bool, true, false, List, [], ◌∷◌, Option, none, some, leb,
  ltb, ◌==◌, if◌then◌else◌, length, take, get_or, bit_and, bit_or,
}
use meshbeacon_uplink.Base64.Codes.{code_pad, char_to_code}
use meshbeacon_uplink.Base64.Encode.{Result, error, wrote, ◌>>=◌, exits_or_wrote}

-- The six bits of a character, shifted to bit `k`.
abbrev pub bits_at : ℕ → ℕ → Option ℕ
bits_at c k = do x ← char_to_code c; some (bit_and x 0x3f * 2 ^ k)

abbrev pub byte_at_bit : ℕ → ℕ → ℕ
byte_at_bit b k = bit_and (b / 2 ^ k) 0xff

-- A single character at the end never gets here.
unfoldable pub decode_bytes : List ℕ → Option (List ℕ)
decode_bytes [] = some []
decode_bytes (p ∷ []) = none
decode_bytes (p ∷ q ∷ []) = do
  b₁ ← bits_at p 18
  b₂ ← bits_at q 12
  let b = bit_or b₁ b₂
  some (byte_at_bit b 16 ∷ [])
decode_bytes (p ∷ q ∷ r ∷ []) = do
  b₁ ← bits_at p 18
  b₂ ← bits_at q 12
  b₃ ← bits_at r 6
  let b = bit_or (bit_or b₁ b₂) b₃
  some (byte_at_bit b 16 ∷ byte_at_bit b 8 ∷ [])
decode_bytes (p ∷ q ∷ r ∷ s ∷ rest) = do
  b₁ ← bits_at p 18
  b₂ ← bits_at q 12
  b₃ ← bits_at r 6
  b₄ ← bits_at s 0
  let b = bit_or (bit_or (bit_or b₁ b₂) b₃) b₄
  bytes ← decode_bytes rest
  some (byte_at_bit b 16 ∷ byte_at_bit b 8 ∷ byte_at_bit b 0 ∷ bytes)

unfoldable pub last_bytes : ℕ → ℕ
last_bytes last_chars = if last_chars == 2 then 1 else if last_chars == 3 then 2 else 0

-- `given` says that neither pointer is null.
unfoldable pub b64_to_bin_nopad : Bool → List ℕ → ℕ → Result
b64_to_bin_nopad false cs max_len = error
b64_to_bin_nopad true [] max_len = wrote []
b64_to_bin_nopad true (c ∷ cs) max_len =
    let size = length (c ∷ cs) in
    let result_len = 3 * (size / 4) + last_bytes (size % 4) in
    if size % 4 == 1
    then error
    else if ltb max_len result_len
    then error
    else exits_or_wrote (decode_bytes (c ∷ cs))

unfoldable pub b64_to_bin : Bool → List ℕ → ℕ → Result
b64_to_bin false cs max_len = error
b64_to_bin true cs max_len =
    let size = length cs in
    if size % 4 == 0 && leb 4 size
    then if get_or cs (size - 2) 0 == code_pad
      then b64_to_bin_nopad true (take (size - 2) cs) max_len
      else if get_or cs (size - 1) 0 == code_pad
      then b64_to_bin_nopad true (take (size - 1) cs) max_len
      else b64_to_bin_nopad true cs max_len
    else b64_to_bin_nopad true cs max_len
