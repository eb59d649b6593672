-- ===== src/Base64/Encode.antt =====
-- base64.c: `bin_to_b64_nopad` and `bin_to_b64`. The input is the list of its `size` bytes, and the text
-- written to the output buffer is a list of characters; the null character that ends it is counted in
-- the tests of `max_len`, and is not in the list.
use meshbeacon_uplink.Prelude.{
  ℕ, ◌+◌, ◌*◌, ◌/◌, ◌%◌, ◌^◌, Bool, true, false, List, [], ◌∷◌, ◌++◌, Option, none, some, leb, ltb,
  ◌==◌, if◌then◌else◌, length, bit_and, bit_or,
}
use meshbeacon_uplink.Base64.Codes.{code_pad, code_to_char}

-- `error` is the value -1, `exits` a call of `exit`. `wrote` holds what is put in the buffer, and its
-- length is the value returned.
pub data Result : Type 0 where
  error exits : Result
  wrote : List ℕ → Result

infixl 5 ◌>>=◌
abbrev pub ◌>>=◌ {ℓ κ} : {A : Type ℓ} {B : Type κ} → Option A → (A → Option B) → Option B
none >>= f = none
some a >>= f = f a

-- Three bytes as one number.
abbrev pub pack_bytes : ℕ → ℕ → ℕ → ℕ
pack_bytes x y z =
    bit_or (bit_or (bit_and x 0xff * 2 ^ 16) (bit_and y 0xff * 2 ^ 8)) (bit_and z 0xff)

-- The character of the six bits from bit `k` on.
abbrev pub char_at_bit : ℕ → ℕ → Option ℕ
char_at_bit b k = code_to_char (bit_and (b / 2 ^ k) 0x3f)

unfoldable pub encode_chars : List ℕ → Option (List ℕ)
encode_chars [] = some []
encode_chars (x ∷ []) = do
  let b = bit_and x 0xff * 2 ^ 16
  p ← char_at_bit b 18
  q ← char_at_bit b 12
  some (p ∷ q ∷ [])
encode_chars (x ∷ y ∷ []) = do
  let b = bit_or (bit_and x 0xff * 2 ^ 16) (bit_and y 0xff * 2 ^ 8)
  p ← char_at_bit b 18
  q ← char_at_bit b 12
  r ← char_at_bit b 6
  some (p ∷ q ∷ r ∷ [])
encode_chars (x ∷ y ∷ z ∷ rest) = do
  let b = pack_bytes x y z
  p ← char_at_bit b 18
  q ← char_at_bit b 12
  r ← char_at_bit b 6
  s ← char_at_bit b 0
  cs ← encode_chars rest
  some (p ∷ q ∷ r ∷ s ∷ cs)

unfoldable pub last_chars : ℕ → ℕ
last_chars last_bytes = if last_bytes == 1 then 2 else if last_bytes == 2 then 3 else 0

abbrev pub exits_or_wrote : Option (List ℕ) → Result
exits_or_wrote none = exits
exits_or_wrote (some cs) = wrote cs

-- `given` says that neither pointer is null.
unfoldable pub bin_to_b64_nopad : Bool → List ℕ → ℕ → Result
bin_to_b64_nopad false bytes max_len = error
bin_to_b64_nopad true [] max_len = wrote []
bin_to_b64_nopad true (x ∷ xs) max_len =
    let size = length (x ∷ xs) in
    let result_len = 4 * (size / 3) + last_chars (size % 3) in
    if ltb max_len (result_len + 1) then error else exits_or_wrote (encode_chars (x ∷ xs))

-- The padding of a text by its length.
unfoldable pub add_padding : ℕ → List ℕ → Result
add_padding max_len cs =
    let ret = length cs in
    if ret % 4 == 0
    then wrote cs
    else if ret % 4 == 1
    then error
    else if ret % 4 == 2
    then (if leb (ret + 2 + 1) max_len then wrote (cs ++ code_pad ∷ code_pad ∷ []) else error)
    else if leb (ret + 1 + 1) max_len
    then wrote (cs ++ code_pad ∷ [])
    else error

unfoldable pub bin_to_b64 : Bool → List ℕ → ℕ → Result
bin_to_b64 given bytes max_len = elim (bin_to_b64_nopad given bytes max_len) [
  | error ↦ error
  | exits ↦ exits
  | wrote cs ↦ add_padding max_len cs
]
