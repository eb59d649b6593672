-- ===== src/Base64/Bounds.antt =====
-- base64.c on arbitrary text: the size of the output, and invalid characters.
use meshbeacon_uplink.Prelude.{
  ℕ, zero, suc, ◌+◌, ◌-◌, ◌*◌, ◌/◌, ◌%◌, ◌≤◌, ◌<◌, ◌≡◌, ◌≢◌, refl, Bool, true, false, List, [], ◌∷◌,
  none, some, Option-cases, inl, inr, arith, length, take, get_or,
}
use meshbeacon_uplink.Base64.Codes.{char_to_code}
use meshbeacon_uplink.Base64.Encode.{exits, wrote}
use meshbeacon_uplink.Base64.Decode.{decode_bytes, last_bytes, b64_to_bin_nopad, b64_to_bin}

length-decode_bytes :
    (cs bs : List ℕ)
    → decode_bytes cs ≡ some bs
    → length bs ≡ 3 * (length cs / 4) + last_bytes (length cs % 4)
unfolding decode_bytes last_bytes
length-decode_bytes [] bs h = ground arith
length-decode_bytes (p ∷ []) bs h = cc
length-decode_bytes (p ∷ q ∷ []) bs h = ground arith
length-decode_bytes (p ∷ q ∷ r ∷ []) bs h = ground arith
length-decode_bytes (p ∷ q ∷ r ∷ s ∷ rest) bs h = elim (Option-cases (decode_bytes rest)) [
  | inl e ↦ ground (arith, e)
  | inr (bytes, e) ↦ ground (arith, e, length-decode_bytes rest bytes e)
]

nopad_fits :
    (given : Bool) (cs bs : List ℕ) (max_len : ℕ)
    → b64_to_bin_nopad given cs max_len ≡ wrote bs
    → length bs ≤ max_len
unfolding b64_to_bin_nopad
nopad_fits false cs bs max_len h = cc
nopad_fits true [] bs max_len h = ground arith
nopad_fits true (c ∷ cs) bs max_len h = elim (Option-cases (decode_bytes (c ∷ cs))) [
  | inl e ↦ ground (arith, e)
  | inr (bytes, e) ↦ ground (arith, e, length-decode_bytes (c ∷ cs) bytes e)
]

-- Whatever text comes in, valid or not, `b64_to_bin` never writes more bytes than the output buffer holds.
b64_to_bin_fits :
    (given : Bool) (cs bs : List ℕ) (max_len : ℕ)
    → b64_to_bin given cs max_len ≡ wrote bs
    → length bs ≤ max_len
unfolding b64_to_bin
b64_to_bin_fits false cs bs max_len h = cc
b64_to_bin_fits true cs bs max_len h = ground (
  arith,
  nopad_fits true cs bs max_len,
  nopad_fits true (take (length cs - 2) cs) bs max_len,
  nopad_fits true (take (length cs - 1) cs) bs max_len,
)

-- A character outside the alphabet stops the decoding.
decode_bytes-invalid :
    (cs : List ℕ) (i : ℕ)
    → i < length cs
    → char_to_code (get_or cs i 0) ≡ none
    → decode_bytes cs ≡ none
unfolding decode_bytes
decode_bytes-invalid [] i h bad = elim h [ ]
decode_bytes-invalid (p ∷ []) i h bad = refl
decode_bytes-invalid (p ∷ q ∷ []) zero h bad = ground arith
decode_bytes-invalid (p ∷ q ∷ []) (suc zero) h bad = ground arith
decode_bytes-invalid (p ∷ q ∷ []) (suc (suc i)) h bad = absurd (omega arith)
decode_bytes-invalid (p ∷ q ∷ r ∷ []) zero h bad = ground arith
decode_bytes-invalid (p ∷ q ∷ r ∷ []) (suc zero) h bad = ground arith
decode_bytes-invalid (p ∷ q ∷ r ∷ []) (suc (suc zero)) h bad = ground arith
decode_bytes-invalid (p ∷ q ∷ r ∷ []) (suc (suc (suc i))) h bad = absurd (omega arith)
decode_bytes-invalid (p ∷ q ∷ r ∷ s ∷ rest) zero h bad = ground arith
decode_bytes-invalid (p ∷ q ∷ r ∷ s ∷ rest) (suc zero) h bad = ground arith
decode_bytes-invalid (p ∷ q ∷ r ∷ s ∷ rest) (suc (suc zero)) h bad = ground arith
decode_bytes-invalid (p ∷ q ∷ r ∷ s ∷ rest) (suc (suc (suc zero))) h bad = ground arith
decode_bytes-invalid (p ∷ q ∷ r ∷ s ∷ rest) (suc (suc (suc (suc i)))) h bad =
    ground (arith, decode_bytes-invalid rest i (omega arith) bad)

-- Where the text passes the checks of its length and of the buffer, a single character outside the
-- alphabet makes the decoder end the process; it does not return -1.
b64_to_bin_nopad_exits :
    (cs : List ℕ) (i max_len : ℕ)
    → i < length cs
    → char_to_code (get_or cs i 0) ≡ none
    → length cs % 4 ≢ 1
    → length cs ≤ max_len
    → b64_to_bin_nopad true cs max_len ≡ exits
unfolding b64_to_bin_nopad last_bytes
b64_to_bin_nopad_exits [] i max_len h bad single room = elim h [ ]
b64_to_bin_nopad_exits (c ∷ cs) i max_len h bad single room =
    ground (arith, decode_bytes-invalid (c ∷ cs) i h bad)
