-- ===== src/Mcu/Frame.antt =====
-- libloragw/src/loragw_mcu.c: `write_req`, `read_ack`, and the fields of a header. What the calls of the operating
-- system give is an argument.
pub mod RoundTrip
use meshbeacon_uplink.Prelude.{
  ℕ, zero, suc, ◌+◌, ◌*◌, ◌/◌, ◌%◌, ◌<◌, ◌≤◌, Bool, true, false, ◌||◌, not, List, [], ◌∷◌, ◌++◌,
  Option, none, some, leb, ltb, ◌==◌, if◌then◌else◌, length, take, drop, get_or, bit_or, u8, u16,
}

abbrev pub header_cmd_size : ℕ
header_cmd_size = 4

abbrev pub max_size_command : ℕ
max_size_command = 4200

unfoldable pub cmd_get_id : List ℕ → ℕ
cmd_get_id hdr = get_or hdr 0 0

unfoldable pub cmd_get_size : List ℕ → ℕ
cmd_get_size hdr = bit_or (u16 (get_or hdr 1 0 * 256)) (get_or hdr 2 0)

unfoldable pub cmd_get_type : List ℕ → ℕ
cmd_get_type hdr = get_or hdr 3 0

-- The header, with the number that `rand` gives.
unfoldable pub header : ℕ → ℕ → ℕ → List ℕ
header random cmd payload_size = random % 255 ∷ u8 (payload_size / 256) ∷ u8 payload_size ∷ cmd ∷ []

-- The payload, behind what is written of the header.
unfoldable pub write_payload : List ℕ → List ℕ → Option ℕ → Bool × List ℕ
write_payload written payload none = (false, written)
write_payload written payload (some n) = (true, written ++ take n payload)

-- Whether it succeeds, and what is written. `header_n` and `payload_n` are what the writes give: the number of bytes
-- written, no more than were asked for, or `none` for -1. A write of fewer bytes counts as one that succeeds. The
-- payload is not null where its size is not zero.
unfoldable pub write_req : ℕ → Option ℕ → Option ℕ → ℕ → List ℕ → Bool × List ℕ
write_req random none payload_n cmd payload = (false, [])
write_req random (some n) payload_n cmd payload =
    if ltb max_size_command (length payload)
    then (false, [])
    else if length payload == 0
    then (true, take n (header random cmd (length payload)))
    else write_payload (take n (header random cmd (length payload))) payload payload_n

-- What a call of `read` gives: bytes, no more than were asked for, `EINTR` or another error.
pub data Read : Type 0 where
  gives : List ℕ → Read
  interrupted : Read
  failed : Read

-- The header and the bytes of the payload that are in the buffers, with the reads that are left. `starved` has none
-- left.
pub data Ack : Type 0 where
  ack : List ℕ → List ℕ → List Read → Ack
  ack_error : List ℕ → List ℕ → Ack
  starved : Ack

-- The loop over the payload, with the bytes there are.
unfoldable pub read_payload : List ℕ → ℕ → List ℕ → List Read → Ack
read_payload hdr size buf [] = starved
read_payload hdr size buf (failed ∷ reads) = ack_error hdr buf
read_payload hdr size buf (interrupted ∷ reads) = read_payload hdr size buf reads
read_payload hdr size buf (gives bytes ∷ reads) =
    let rest = read_payload hdr size (buf ++ bytes) reads in
    if ltb (length (buf ++ bytes)) size then rest else ack hdr (buf ++ bytes) reads

-- Behind the header.
unfoldable pub after_header : ℕ → List ℕ → List Read → Ack
after_header buf_size hdr reads =
    if ltb (cmd_get_type hdr) 0x40 || ltb 0x46 (cmd_get_type hdr)
    then ack_error hdr []
    else if ltb buf_size (cmd_get_size hdr)
    then ack_error hdr []
    else if cmd_get_size hdr == 0
    then ack hdr [] reads
    else read_payload hdr (cmd_get_size hdr) [] reads

-- A short read leaves the rest of the header as it was before, in `old`.
unfoldable pub read_ack : ℕ → List ℕ → List Read → Ack
read_ack buf_size old [] = starved
read_ack buf_size old (failed ∷ reads) = ack_error old []
read_ack buf_size old (interrupted ∷ reads) = read_ack buf_size old reads
read_ack buf_size old (gives bytes ∷ reads) =
    after_header buf_size (bytes ++ drop (length bytes) old) reads
