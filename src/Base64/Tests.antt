-- ===== src/Base64/Tests.antt =====
-- Sample conversions, and the theorems at concrete inputs.
use meshbeacon_uplink.Prelude.{ℕ, ◌≡◌, refl, true, List, [], ◌∷◌, arith}
use meshbeacon_uplink.Base64.Codes.{code_to_char, char_to_code}
use meshbeacon_uplink.Base64.Encode.{
  wrote, encode_chars, last_chars, bin_to_b64_nopad, add_padding, bin_to_b64,
}
use meshbeacon_uplink.Base64.Decode.{decode_bytes, last_bytes, b64_to_bin_nopad, b64_to_bin}
use meshbeacon_uplink.Base64.RoundTrip.{Restores, bin_to_b64-Restores}

-- "Duck" is "RHVjaw==".
abbrev duck : List ℕ
duck = 68 ∷ 117 ∷ 99 ∷ 107 ∷ []

abbrev duck_text : List ℕ
duck_text = b'R' ∷ b'H' ∷ b'V' ∷ b'j' ∷ b'a' ∷ b'w' ∷ b'=' ∷ b'=' ∷ []

encode_duck : bin_to_b64 true duck 9 ≡ wrote duck_text
unfolding bin_to_b64 bin_to_b64_nopad add_padding encode_chars last_chars code_to_char
encode_duck = refl

decode_duck : b64_to_bin true duck_text 4 ≡ wrote duck
unfolding b64_to_bin b64_to_bin_nopad decode_bytes last_bytes char_to_code
decode_duck = refl

bin_to_b64-Restores_example : (text : List ℕ) × Restores duck 9 4 text
bin_to_b64-Restores_example = bin_to_b64-Restores duck 9 4 (omega arith) (omega arith) (omega arith)
