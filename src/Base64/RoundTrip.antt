-- ===== src/Base64/RoundTrip.antt =====
-- The functions of base64.c one after the other, without and with padding.
use meshbeacon_uplink.Prelude.{
  ℕ, ◌+◌, ◌-◌, ◌*◌, ◌/◌, ◌%◌, ◌≤◌, ◌<◌, ◌≡◌, ◌≢◌, refl, ◌∙◌, inl, inr, true, false, List, [], ◌∷◌,
  ◌++◌, some, All, arith, length, length-append, leb, leb→le, ltb, Bool-cases, ◌==◌, take_prefix,
  get_or, get_or-append_right, get_or-append_left, All-get_or,
}
use meshbeacon_uplink.Base64.Codes.{code_pad}
use meshbeacon_uplink.Base64.Encode.{wrote, last_chars, bin_to_b64_nopad, add_padding, bin_to_b64}
use meshbeacon_uplink.Base64.Decode.{decode_bytes, last_bytes, b64_to_bin_nopad, b64_to_bin}
use meshbeacon_uplink.Base64.Spec.{
  IsBytes, encoded, encode_chars-encoded, decode_bytes-encoded, length-encoded, encoded-unpadded,
}

text_size : (bs : List ℕ) → 4 * (length bs / 3) + last_chars (length bs % 3) ≡ length (encoded bs)
unfolding last_chars
text_size bs = ground (arith, length-encoded bs)

data_size :
    (bs : List ℕ) → 3 * (length (encoded bs) / 4) + last_bytes (length (encoded bs) % 4) ≡ length bs
unfolding last_bytes
data_size bs = ground (arith, length-encoded bs)

no_single : (bs : List ℕ) → (length (encoded bs) % 4 == 1) ≡ false
no_single bs = ground (arith, length-encoded bs)

encode_lem :
    (bs : List ℕ) (max_len : ℕ)
    → IsBytes bs
    → length (encoded bs) < max_len
    → bin_to_b64_nopad true bs max_len ≡ wrote (encoded bs)
unfolding bin_to_b64_nopad
encode_lem [] max_len h fits = unfold encoded in refl
encode_lem (x ∷ xs) max_len h fits =
    let room : ltb max_len (length (encoded (x ∷ xs)) + 1) ≡ false = ground arith in
    rw (text_size (x ∷ xs), room, encode_chars-encoded (x ∷ xs) h)

decode_nonempty :
    (cs : List ℕ) (bs : List ℕ) (max_len : ℕ)
    → decode_bytes cs ≡ some bs
    → (length cs % 4 == 1) ≡ false
    → 3 * (length cs / 4) + last_bytes (length cs % 4) ≤ max_len
    → b64_to_bin_nopad true cs max_len ≡ wrote bs
unfolding b64_to_bin_nopad decode_bytes
decode_nonempty [] bs max_len d single fits = cc
decode_nonempty (c ∷ cs) bs max_len d single fits =
    let room : ltb max_len (3 * (length (c ∷ cs) / 4) + last_bytes (length (c ∷ cs) % 4)) ≡ false =
      ground arith in
    rw (single, room, d)

decode_lem :
    (bs : List ℕ) (max_len : ℕ)
    → IsBytes bs
    → length bs ≤ max_len
    → b64_to_bin_nopad true (encoded bs) max_len ≡ wrote bs
decode_lem bs max_len h fits =
    decode_nonempty (encoded bs) bs max_len (decode_bytes-encoded bs h) (no_single bs)
      (omega (arith, data_size bs))

module _ (e : List ℕ) (max_len : ℕ) where
  strip_two :
      length e % 4 ≡ 2
      → b64_to_bin true (e ++ code_pad ∷ code_pad ∷ []) max_len ≡ b64_to_bin_nopad true e max_len
  unfolding b64_to_bin
  strip_two h =
      let pads : List ℕ = code_pad ∷ code_pad ∷ [] in
      let whole : ((length e + 2) % 4 == 0) ≡ true = ground arith in
      let long : leb 4 (length e + 2) ≡ true = ground arith in
      let cut : length e + 2 - 2 ≡ length e + 0 = omega arith in
      let back : length e + 0 ≡ length e = omega arith in
      rw (
        length-append e pads,
        whole,
        long,
        cut,
        get_or-append_right e pads 0 0,
        back,
        take_prefix (length e) e pads refl,
      )

  module _ (unpadded : All (λ c. c ≢ code_pad) e) where
    not_pad : (i : ℕ) → i < length e → (get_or e i 0 == code_pad) ≡ false
    not_pad i h = ground (arith, All-get_or (λ (c : ℕ). c ≢ code_pad) e i 0 unpadded h)

    strip_one :
        length e % 4 ≡ 3
        → b64_to_bin true (e ++ code_pad ∷ []) max_len ≡ b64_to_bin_nopad true e max_len
    unfolding b64_to_bin
    strip_one h =
        let pad : List ℕ = code_pad ∷ [] in
        let whole : ((length e + 1) % 4 == 0) ≡ true = ground arith in
        let long : leb 4 (length e + 1) ≡ true = ground arith in
        let second : length e + 1 - 2 ≡ length e - 1 = omega arith in
        let inside : length e - 1 < length e = omega arith in
        let cut : length e + 1 - 1 ≡ length e + 0 = omega arith in
        let back : length e + 0 ≡ length e = omega arith in
        rw (
          length-append e pad,
          whole,
          long,
          second,
          get_or-append_left e pad (length e - 1) 0 inside,
          not_pad (length e - 1) inside,
          cut,
          get_or-append_right e pad 0 0,
          back,
          take_prefix (length e) e pad refl,
        )

    strip_none : length e % 4 ≡ 0 → b64_to_bin true e max_len ≡ b64_to_bin_nopad true e max_len
    unfolding b64_to_bin
    strip_none h = elim (Bool-cases (leb 4 (length e))) [
      | inl long ↦
          let whole : (length e % 4 == 0) ≡ true = ground arith in
          rw (
            whole,
            long,
            not_pad (length e - 2) (omega (arith, leb→le 4 (length e) long)),
            not_pad (length e - 1) (omega (arith, leb→le 4 (length e) long)),
          )
      | inr short ↦ let whole : (length e % 4 == 0) ≡ true = ground arith in rw (whole, short)
    ]

left_eq : (e : List ℕ) (k : ℕ) → (length e % 4 == k) ≡ true → length e % 4 ≡ k
left_eq e k h = ground arith

-- `text` is what `bin_to_b64` writes, it has that size, and it is decoded to `bs`.
abbrev pub Restores : List ℕ → ℕ → ℕ → List ℕ → Type 0
Restores bs max_len max_len' text =
    (bin_to_b64 true bs max_len ≡ wrote text)
    × (length text ≡ 4 * ((length bs + 2) / 3))
    × (b64_to_bin true text max_len' ≡ wrote bs)

-- With buffers of sufficient size, `bin_to_b64` encodes any bytes, into four characters for each three
-- bytes or part of them, and `b64_to_bin` decodes the text to the same bytes.
pub bin_to_b64-Restores :
    (bs : List ℕ) (max_len max_len' : ℕ)
    → IsBytes bs
    → 4 * ((length bs + 2) / 3) < max_len
    → length bs ≤ max_len'
    → (text : List ℕ) × Restores bs max_len max_len' text
unfolding bin_to_b64 add_padding
bin_to_b64-Restores bs max_len max_len' h room room' =
    let e = encoded bs in
    let size = length-encoded bs in
    let first = encode_lem bs max_len h (omega arith) in
    let decoded = decode_lem bs max_len' h room' in
    let unpadded = encoded-unpadded bs h in
    elim (Bool-cases (length e % 4 == 0)) [
      | inl zero_left ↦ (
        e,
        (
          rw (first, bin_to_b64, zero_left),
          omega (arith, left_eq e 0 zero_left),
          strip_none e max_len' unpadded (left_eq e 0 zero_left) ∙ decoded,
        ),
      )
      | inr some_left ↦
          let more : length e % 4 ≢ 0 = ground arith in
          elim (Bool-cases (length e % 4 == 2)) [
            | inl two_left ↦
                let left = left_eq e 2 two_left in
                let single : (length e % 4 == 1) ≡ false = ground arith in
                let fits : leb (length e + 2 + 1) max_len ≡ true = ground arith in
                (
                  e ++ code_pad ∷ code_pad ∷ [],
                  (
                    rw (first, bin_to_b64, some_left, single, two_left, fits),
                    omega (arith, length-append e (code_pad ∷ code_pad ∷ [])),
                    strip_two e max_len' left ∙ decoded,
                  ),
                )
            | inr not_two ↦
                let other : length e % 4 ≢ 2 = ground arith in
                let left : length e % 4 ≡ 3 = omega arith in
                let single : (length e % 4 == 1) ≡ false = ground arith in
                let fits : leb (length e + 1 + 1) max_len ≡ true = ground arith in
                (
                  e ++ code_pad ∷ [],
                  (
                    rw (first, bin_to_b64, some_left, single, not_two, fits),
                    omega (arith, length-append e (code_pad ∷ [])),
                    strip_one e max_len' unpadded left ∙ decoded,
                  ),
                )
          ]
    ]
