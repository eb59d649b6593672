-- ===== src/Mcu/Bulk.antt =====
-- libloragw/src/loragw_mcu.c: the requests for the SPI buses are stored in `spi_bulk_buffer` (`mcu_spi_store`) and sent
-- in one frame (`mcu_spi_flush`), and the acknowledgement is checked (`decode_ack_spi_bulk`).
pub mod Answers
pub mod Flush
pub mod Stores
use meshbeacon_uplink.Prelude.{
  ℕ, zero, suc, ◌+◌, ◌*◌, ◌<◌, Bool, true, false, ◌||◌, ◌&&◌, not, List, [], ◌∷◌, ◌++◌, Option,
  none, some, leb, ltb, ◌==◌, if◌then◌else◌, length, take, drop, bit_or, u16, replicate,
}
use meshbeacon_uplink.Mcu.Frame.{
  cmd_get_size, cmd_get_type, write_req, Read, Ack, ack, ack_error, starved, read_ack,
}

abbrev pub lgw_usb_burst_chunk : ℕ
lgw_usb_burst_chunk = 4096

abbrev pub order_id_req_multiple_spi : ℕ
order_id_req_multiple_spi = 0x05

abbrev pub order_id_ack_multiple_spi : ℕ
order_id_ack_multiple_spi = 0x45

abbrev pub req_type_read_write : ℕ
req_type_read_write = 1

abbrev pub req_type_read_modify_write : ℕ
req_type_read_modify_write = 2

pub record SpiReqBulk : Type 0 where
  size : ℕ
  nb_req : ℕ
  buffer : List ℕ

abbrev pub spi_bulk_buffer : SpiReqBulk
spi_bulk_buffer = record { size = 0; nb_req = 0; buffer = replicate lgw_usb_burst_chunk 0 }

-- Whether the request is stored.
unfoldable pub spi_req_bulk_insert : SpiReqBulk → List ℕ → Bool × SpiReqBulk
spi_req_bulk_insert bulk req =
    let after = bulk.size + length req in
    if bulk.nb_req == 255
    then (false, bulk)
    else if ltb lgw_usb_burst_chunk after
    then (false, bulk)
    else (
      true,
      record {
        size = after;
        nb_req = bulk.nb_req + 1;
        buffer = take bulk.size bulk.buffer ++ req ++ drop after bulk.buffer;
      },
    )

unfoldable pub mcu_spi_store : SpiReqBulk → List ℕ → Bool × SpiReqBulk
mcu_spi_store bulk req = spi_req_bulk_insert bulk req

-- One turn of the loop of `decode_ack_spi_bulk`, on the bytes from `i` on: how far it moves, an error, or a read
-- behind the buffer.
pub data Turn : Type 0 where
  moves : ℕ → Turn
  refused : Turn
  outside : Turn

unfoldable pub turn_moves : ℕ → List ℕ → Turn
turn_moves req_type (high ∷ low ∷ bytes) =
    if req_type == req_type_read_write then moves (5 + bit_or (u16 (high * 256)) low) else moves 5
turn_moves req_type bytes = if req_type == req_type_read_write then outside else moves 5

unfoldable pub turn_checks : ℕ → List ℕ → Turn
turn_checks req_type [] = if not (req_type == 1) && not (req_type == 2) then refused else outside
turn_checks req_type (req_status ∷ bytes) =
    if not (req_type == req_type_read_write) && not (req_type == req_type_read_modify_write)
    then refused
    else if not (req_status == 0)
    then refused
    else turn_moves req_type bytes

unfoldable pub turn : List ℕ → Turn
turn (req_id ∷ req_type ∷ bytes) = turn_checks req_type bytes
turn bytes = outside

pub data Decoded : Type 0 where
  decoded : Decoded
  decode_error : Decoded
  decode_fault : Decoded
  endless : Decoded

unfoldable pub continue_at : Turn → (ℕ → Decoded) → Decoded
continue_at (moves n) next = next n
continue_at refused next = decode_error
continue_at outside next = decode_fault

unfoldable pub decode_loop : ℕ → ℕ → ℕ → List ℕ → Decoded
decode_loop zero size i payload = endless
decode_loop (suc fuel) size i payload =
    let next = λ (n : ℕ). decode_loop fuel size (i + n) payload in
    if ltb i size then continue_at (turn (drop i payload)) next else decoded

-- Each turn moves by five bytes at least.
unfoldable pub decode_ack_spi_bulk : List ℕ → List ℕ → Decoded
decode_ack_spi_bulk hdr payload =
    if not (cmd_get_type hdr == order_id_ack_multiple_spi)
    then decode_error
    else decode_loop (suc (cmd_get_size hdr)) (cmd_get_size hdr) 0 payload

-- A call of `mcu_spi_write` or `mcu_spi_flush`: whether it succeeds, what is written, `buf_hdr`, and the state. It
-- reads behind the buffer, or never returns.
pub data Spi {ℓ} (A : Type ℓ) : Type ℓ where
  spi : Bool → List ℕ → List ℕ → A → Spi A
  spi_fault : Spi A
  spi_waits : Spi A

unfoldable pub decoded_spi : List ℕ → List ℕ → List ℕ → Decoded → Spi (List ℕ)
decoded_spi written hdr buf decoded = spi true written hdr buf
decoded_spi written hdr buf decode_error = spi false written hdr buf
decoded_spi written hdr buf decode_fault = spi_fault
decoded_spi written hdr buf endless = spi_waits

-- The bytes read are put over the requests.
unfoldable pub answered_spi : List ℕ → List ℕ → Ack → Spi (List ℕ)
answered_spi written buf (ack hdr payload reads) =
    let filled = payload ++ drop (length payload) buf in
    decoded_spi written hdr filled (decode_ack_spi_bulk hdr filled)
answered_spi written buf (ack_error hdr payload) =
    spi false written hdr (payload ++ drop (length payload) buf)
answered_spi written buf starved = spi_waits

-- `random`, `header_n` and `payload_n` are those of `write_req`.
unfoldable pub mcu_spi_write :
    ℕ → Option ℕ → Option ℕ → List ℕ → List Read → List ℕ → ℕ → Spi (List ℕ)
mcu_spi_write random header_n payload_n hdr reads buf size =
    let req = write_req random header_n payload_n order_id_req_multiple_spi (take size buf) in
    if not req.0 then spi false req.1 hdr buf else answered_spi req.1 buf (read_ack size hdr reads)

unfoldable pub flushed : SpiReqBulk → Spi (List ℕ) → Spi SpiReqBulk
flushed bulk (spi true written hdr buf) =
    spi true written hdr (record bulk { size = 0; nb_req = 0; buffer = buf })
flushed bulk (spi false written hdr buf) = spi false written hdr (record bulk { buffer = buf })
flushed bulk spi_fault = spi_fault
flushed bulk spi_waits = spi_waits

unfoldable pub mcu_spi_flush :
    ℕ → Option ℕ → Option ℕ → List ℕ → List Read → SpiReqBulk → Spi SpiReqBulk
mcu_spi_flush random header_n payload_n hdr reads bulk =
    flushed bulk (mcu_spi_write random header_n payload_n hdr reads bulk.buffer bulk.size)
