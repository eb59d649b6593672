-- ===== src/Mcu/Frame/RoundTrip.antt =====
-- libloragw/src/loragw_mcu.c: a frame is read as it was written, however the reads cut it.
use mathlib.Core.List.{append_assoc, append-nil}
use meshbeacon_uplink.Prelude.{
  ℕ, ◌+◌, ◌*◌, ◌/◌, ◌^◌, ◌<◌, ◌≤◌, ◌≡◌, refl, sym, ap, ◌∙◌, List, [], ◌∷◌, ◌++◌, ltb, ◌==◌, ◌||◌,
  length, drop, replicate, zero, suc, u8, u16, arith, if_true, if_false, length-append, drop_prefix,
}
use meshbeacon_uplink.Prelude.Bits.{or_shifted}
use meshbeacon_uplink.Mcu.Frame.{
  cmd_get_size, cmd_get_type, header, Read, gives, interrupted, ack, read_payload, after_header,
  read_ack,
}

-- The reads give the bytes piece by piece, with interruptions between, and then the others.
pub data Cut : List Read → List ℕ → List Read → Type 0 where
  all_read : (left : List Read) → Cut left [] left
  piece :
      (x : ℕ) (xs ys bytes : List ℕ) (reads left : List Read)
      → (x ∷ xs) ++ ys ≡ bytes
      → Cut reads ys left
      → Cut (gives (x ∷ xs) ∷ reads) bytes left
  interruption :
      (y : ℕ) (ys : List ℕ) (reads left : List Read)
      → Cut reads (y ∷ ys) left
      → Cut (interrupted ∷ reads) (y ∷ ys) left

-- The payload from `buf` on.
read_payload-Cut :
    (hdr buf bytes : List ℕ) (size : ℕ) (reads left : List Read)
    → Cut reads bytes left
    → length buf < size
    → length (buf ++ bytes) ≡ size
    → read_payload hdr size buf reads ≡ ack hdr (buf ++ bytes) left
unfolding read_payload
read_payload-Cut hdr buf bytes size reads left (all_read left') l e =
    absurd (omega (arith, length-append buf []))
read_payload-Cut hdr buf bytes size reads' left' (interruption y ys reads left c) l e =
    read_payload-Cut hdr buf (y ∷ ys) size reads left c l e
read_payload-Cut hdr buf bytes size reads' left'
      (piece x xs [] bytes' reads left same (all_read left'')) l e =
    let whole : buf ++ (x ∷ xs) ≡ buf ++ bytes =
      ap (λ bs. buf ++ bs) (sym (append-nil (x ∷ xs)) ∙ same) in
    if_false (ltb (length (buf ++ (x ∷ xs))) size) _ _ (ground (arith, ap length whole, e))
    ∙ ap (λ bs. ack hdr bs left) whole
read_payload-Cut hdr buf bytes size reads' left'
      (piece x xs [] bytes' reads left same (piece x' xs' ys' bs reads'' left'' none c)) l e =
    absurd (cc none)
read_payload-Cut hdr buf bytes size reads' left' (piece x xs (y ∷ ys) bytes' reads left same c) l
      e =
    let part = buf ++ (x ∷ xs) in
    let whole : part ++ (y ∷ ys) ≡ buf ++ bytes =
      append_assoc buf (x ∷ xs) (y ∷ ys) ∙ ap (λ bs. buf ++ bs) same in
    let short : length part < size =
      omega (arith, length-append part (y ∷ ys), ap length whole, e) in
    if_true (ltb (length part) size) _ _ (ground arith)
    ∙ read_payload-Cut hdr part (y ∷ ys) size reads left c short (ap length whole ∙ e)
    ∙ ap (λ bs. ack hdr bs left) whole

-- The fields of a header that was written.
pub header-fields :
    (random cmd payload_size : ℕ)
    → payload_size < 65536
    → (cmd_get_size (header random cmd payload_size) ≡ payload_size)
      × (cmd_get_type (header random cmd payload_size) ≡ cmd)
unfolding cmd_get_size cmd_get_type header
header-fields random cmd payload_size h =
    let top = payload_size / 256 in
    let shifted : u16 (u8 top * 256) ≡ top * 2 ^ 8 = omega arith in
    let split : top * 2 ^ 8 + u8 payload_size ≡ payload_size = omega arith in
    (rw shifted (or_shifted 8 top (u8 payload_size) (omega arith)) ∙ split, refl)

after_header-Cut :
    (buf_size : ℕ) (hdr payload : List ℕ) (reads left : List Read)
    → 0x40 ≤ cmd_get_type hdr
    → cmd_get_type hdr ≤ 0x46
    → cmd_get_size hdr ≡ length payload
    → length payload ≤ buf_size
    → Cut reads payload left
    → after_header buf_size hdr reads ≡ ack hdr payload left
unfolding after_header
after_header-Cut buf_size hdr [] reads left lo hi n fits (all_read left') =
    if_false (ltb (cmd_get_type hdr) 0x40 || ltb 0x46 (cmd_get_type hdr)) _ _ (ground arith)
    ∙ if_false (ltb buf_size (cmd_get_size hdr)) _ _ (ground (arith, n))
    ∙ if_true (cmd_get_size hdr == 0) _ _ (ground (arith, n))
after_header-Cut buf_size hdr [] reads left lo hi n fits (piece x xs ys bytes reads' left' none c) =
    absurd (cc none)
after_header-Cut buf_size hdr (b ∷ bs) reads left lo hi n fits c =
    if_false (ltb (cmd_get_type hdr) 0x40 || ltb 0x46 (cmd_get_type hdr)) _ _ (ground arith)
    ∙ if_false (ltb buf_size (cmd_get_size hdr)) _ _ (ground (arith, n))
    ∙ if_false (cmd_get_size hdr == 0) _ _ (ground (arith, n))
    ∙ read_payload-Cut hdr [] (b ∷ bs) (cmd_get_size hdr) reads left c (omega (arith, n)) (sym n)

-- A header that is read as a whole.
whole_header :
    (random cmd payload_size : ℕ) (old : List ℕ)
    → length old ≡ 4
    → header random cmd payload_size ++ drop (length (header random cmd payload_size)) old
      ≡ header random cmd payload_size
unfolding header
whole_header random cmd payload_size old h =
    let none_left : drop 4 old ≡ [] = ap (drop 4) (sym (append-nil old)) ∙ drop_prefix 4 old [] h in
    ap (λ bs. header random cmd payload_size ++ bs) none_left
    ∙ append-nil (header random cmd payload_size)

-- A frame with a header as it is written and a type of an acknowledgement, with its payload cut into pieces and
-- reads interrupted, is read as a whole, if it fits the buffer, and no byte behind it is taken.
pub read_ack-Cut :
    (random cmd buf_size : ℕ) (old payload : List ℕ) (reads left : List Read)
    → 0x40 ≤ cmd
    → cmd ≤ 0x46
    → length old ≡ 4
    → length payload ≤ buf_size
    → length payload < 65536
    → Cut reads payload left
    → read_ack buf_size old (gives (header random cmd (length payload)) ∷ reads)
      ≡ ack (header random cmd (length payload)) payload left
unfolding read_ack
read_ack-Cut random cmd buf_size old payload reads left h1 h2 h3 h4 h5 c =
    let fields = header-fields random cmd (length payload) h5 in
    ap (λ hdr. after_header buf_size hdr reads) (whole_header random cmd (length payload) old h3)
    ∙ after_header-Cut buf_size (header random cmd (length payload)) payload reads left
        (omega (arith, fields.1)) (omega (arith, fields.1)) fields.0 h4 c

-- Interruptions in front of the header are passed over.
pub read_ack-interrupted :
    (n buf_size : ℕ) (old : List ℕ) (reads : List Read)
    → read_ack buf_size old (replicate n interrupted ++ reads) ≡ read_ack buf_size old reads
unfolding read_ack
read_ack-interrupted zero buf_size old reads = refl
read_ack-interrupted (suc n) buf_size old reads = read_ack-interrupted n buf_size old reads
