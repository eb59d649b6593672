-- ===== src/Mcu/Bulk/Answers.antt =====
-- libloragw/src/loragw_mcu.c: `decode_ack_spi_bulk` on the answers to requests, one behind the other.
use mathlib.Core.List.{append_assoc}
use meshbeacon_uplink.Prelude.{
  ℕ, zero, suc, ◌+◌, ◌*◌, ◌/◌, ◌%◌, ◌^◌, ◌<◌, ◌≤◌, ◌≡◌, refl, sym, ap, ◌∙◌, Bool, true, false, not,
  List, [], ◌∷◌, ◌++◌, ltb, ◌==◌, if◌then◌else◌, length, drop, bit_or, u16, arith, if_true,
  if_false, length-append, drop_prefix, drop-drop, All,
}
use meshbeacon_uplink.Prelude.Bits.{or_shifted}
use meshbeacon_uplink.Mcu.Frame.{cmd_get_size, cmd_get_type}
use meshbeacon_uplink.Mcu.Bulk.{
  turn_moves, turn_checks, turn, Turn, moves, refused, continue_at, decode_loop,
  decode_ack_spi_bulk, Decoded, decoded, decode_error, order_id_ack_multiple_spi,
}

-- The answer to a request: its identifier, its status, and the frame read or the values read and written.
pub data Answer : Type 0 where
  read_write : ℕ → ℕ → List ℕ → Answer
  read_modify_write : ℕ → ℕ → ℕ → ℕ → Answer

unfoldable pub answer_bytes : Answer → List ℕ
answer_bytes (read_write id status frame) =
    id ∷ 1 ∷ status ∷ length frame / 256 ∷ length frame % 256 ∷ frame
answer_bytes (read_modify_write id status value modified) = id ∷ 2 ∷ status ∷ value ∷ modified ∷ []

unfoldable pub answers_bytes : List Answer → List ℕ
answers_bytes [] = []
answers_bytes (a ∷ answers) = answer_bytes a ++ answers_bytes answers

unfoldable pub is_done : Answer → Bool
is_done (read_write id status frame) = status == 0
is_done (read_modify_write id status value modified) = status == 0

unfoldable pub all_done : List Answer → Bool
all_done [] = true
all_done (a ∷ answers) = if is_done a then all_done answers else false

-- The length of the frame is a 16-bit number.
unfoldable pub Fits : Answer → Type 0
Fits (read_write id status frame) = length frame < 65536
Fits (read_modify_write id status value modified) = Unit

failed_status :
    (status : ℕ) (behind move : Turn)
    → (if not (suc status == 0) then refused else behind)
      ≡ (if suc status == 0 then move else refused)
failed_status status behind move =
    if_true (not (suc status == 0)) _ _ (ground arith)
    ∙ sym (if_false (suc status == 0) _ _ (ground arith))

-- A turn on an answer moves behind it, or refuses its status.
turn-answer :
    (a : Answer) (rest : List ℕ)
    → Fits a
    → turn (answer_bytes a ++ rest)
      ≡ (if is_done a then moves (length (answer_bytes a)) else refused)
unfolding Fits turn turn_checks turn_moves answer_bytes is_done
turn-answer (read_write id zero frame) rest h =
    let high = length frame / 256 in
    let shifted : u16 (high * 256) ≡ high * 2 ^ 8 = omega arith in
    let split : high * 2 ^ 8 + length frame % 256 ≡ length frame = omega arith in
    let joined : bit_or (u16 (high * 256)) (length frame % 256) ≡ length frame =
      rw shifted (or_shifted 8 high (length frame % 256) (omega arith)) ∙ split in
    let five : 5 + bit_or (u16 (high * 256)) (length frame % 256)
        ≡ suc (suc (suc (suc (suc (length frame))))) =
      omega (arith, joined) in
    ap moves five
turn-answer (read_write id (suc status) frame) rest h = failed_status status _ _
turn-answer (read_modify_write id zero value modified) rest h = refl
turn-answer (read_modify_write id (suc status) value modified) rest h = failed_status status _ _

five_bytes : (a : Answer) → 5 ≤ length (answer_bytes a)
unfolding answer_bytes
five_bytes (read_write id status frame) = omega arith
five_bytes (read_modify_write id status value modified) = omega arith

continue-done :
    (done rest : Bool) (n : ℕ) (next : ℕ → Decoded)
    → next n ≡ (if rest then decoded else decode_error)
    → continue_at (if done then moves n else refused) next
      ≡ (if (if done then rest else false) then decoded else decode_error)
unfolding continue_at
continue-done true rest n next e = e
continue-done false rest n next e = refl

-- From the answers that are left on, which reach to `size`.
decode_loop-answers :
    (fuel size i : ℕ) (payload rest : List ℕ) (answers : List Answer)
    → All Fits answers
    → drop i payload ≡ answers_bytes answers ++ rest
    → i + length (answers_bytes answers) ≡ size
    → size < i + fuel
    → decode_loop fuel size i payload ≡ (if all_done answers then decoded else decode_error)
unfolding decode_loop answers_bytes all_done
decode_loop-answers zero size i payload rest answers fit at reach h = absurd (omega arith)
decode_loop-answers (suc fuel) size i payload rest [] fit at reach h =
    if_false (ltb i size) _ _ (ground arith)
decode_loop-answers (suc fuel) size i payload rest (a ∷ answers) fit at reach h =
    let n = length (answer_bytes a) in
    let more = answers_bytes answers in
    let next = λ (k : ℕ). decode_loop fuel size (i + k) payload in
    let here : drop i payload ≡ answer_bytes a ++ (more ++ rest) =
      at ∙ append_assoc (answer_bytes a) more rest in
    let at' : drop (i + n) payload ≡ more ++ rest =
      sym (drop-drop n i payload)
      ∙ ap (drop n) here
      ∙ drop_prefix n (answer_bytes a) (more ++ rest) refl in
    let reach' : i + n + length more ≡ size =
      omega (arith, reach, length-append (answer_bytes a) more) in
    let left =
      decode_loop-answers fuel size (i + n) payload rest answers fit.1 at' reach'
        (omega (arith, five_bytes a)) in
    if_true (ltb i size) _ _ (ground (arith, reach', five_bytes a))
    ∙ ap (λ t. continue_at t next) (ap turn here ∙ turn-answer a (more ++ rest) fit.0)
    ∙ continue-done (is_done a) (all_done answers) n next left

pub decode_ack_spi_bulk-answers :
    (hdr rest : List ℕ) (answers : List Answer)
    → All Fits answers
    → cmd_get_type hdr ≡ order_id_ack_multiple_spi
    → cmd_get_size hdr ≡ length (answers_bytes answers)
    → decode_ack_spi_bulk hdr (answers_bytes answers ++ rest)
      ≡ (if all_done answers then decoded else decode_error)
unfolding decode_ack_spi_bulk
decode_ack_spi_bulk-answers hdr rest answers fit same n =
    let size = cmd_get_size hdr in
    if_false (not (cmd_get_type hdr == order_id_ack_multiple_spi)) _ _ (ground (arith, same))
    ∙ decode_loop-answers (suc size) size 0 (answers_bytes answers ++ rest) rest answers fit refl
        (omega (arith, n)) (omega arith)
