-- ===== src/Hal/TimeOnAir.antt =====
-- libloragw/src/loragw_aux.c: `lora_packet_time_on_air`, and libloragw/src/loragw_hal.c:
-- `lgw_time_on_air`. The floating-point numbers of the LoRa computation are quarters of a symbol and
-- quotients that truncation makes exact, so they are integers here. The duration of an FSK packet is a
-- parameter, since there the rounding of `double` shows.
pub mod Bounds
pub mod Exact
use meshbeacon_uplink.Prelude.{
  ℕ, ◌+◌, ◌-◌, ◌*◌, ◌/◌, ◌^◌, Bool, true, false, ◌&&◌, ◌||◌, Option, none, some, leb, ◌==◌,
  if◌then◌else◌, u8, u16, u32,
}
use meshbeacon_uplink.Hal.Packet.{TxPacket}

unfoldable pub is_lora_bw : ℕ → Bool
is_lora_bw bw = bw == 4 || bw == 5 || bw == 6

unfoldable pub is_lora_dr : ℕ → Bool
is_lora_dr dr = leb 5 dr && leb dr 12

unfoldable pub is_lora_cr : ℕ → Bool
is_lora_cr cr = cr == 1 || cr == 2 || cr == 3 || cr == 4

-- The divider of 125 kHz: 4 is `BW_125KHZ`, 5 is `BW_250KHZ`, 6 is `BW_500KHZ`.
unfoldable pub bw_pow : ℕ → ℕ
bw_pow bw = if bw == 4 then 1 else if bw == 5 then 2 else 4

-- The outputs. `quarter_symbols` is four times `out_nb_symbols`.
pub record TimeOnAir : Type 0 where
  pub toa_us : ℕ
  pub quarter_symbols : ℕ
  pub nb_symbols_payload : ℕ
  pub t_symbol_us : ℕ

unfoldable pub symbol_us : ℕ → ℕ → ℕ
unfolding bw_pow
symbol_us bw sf = u16 (2 ^ sf * 8 / bw_pow bw)

-- The bits that the payload symbols must hold, never less than 0.
unfoldable pub payload_bits : ℕ → Bool → Bool → ℕ → ℕ
payload_bits sf no_header no_crc size =
    8 * size
    + (if no_crc then 0 else 16)
    + (if leb 7 sf then 8 else 0)
    + (if no_header then 0 else 20)
    - 4 * sf

-- The low data rate optimisation is on from SF11.
unfoldable pub bits_per_block : ℕ → ℕ
bits_per_block sf = 4 * (sf - 2 * (if leb 11 sf then 1 else 0))

unfoldable pub payload_symbols : ℕ → ℕ → Bool → Bool → ℕ → ℕ
payload_symbols sf cr no_header no_crc size =
    let bits = payload_bits sf no_header no_crc size in
    (bits + bits_per_block sf - 1) / bits_per_block sf * (cr + 4)

-- Four times the number of symbols of the packet.
unfoldable pub quarters : ℕ → ℕ → ℕ → ℕ
quarters sf n_symbol_preamble n_symbol_payload =
    4 * n_symbol_preamble + (if leb 7 sf then 17 else 25) + 32 + 4 * n_symbol_payload

-- `none` is the value 0 for a wrong parameter, with no output written.
unfoldable pub lora_packet_time_on_air : ℕ → ℕ → ℕ → ℕ → Bool → Bool → ℕ → Option TimeOnAir
lora_packet_time_on_air bw sf cr n_symbol_preamble no_header no_crc size =
    let n_symbol_payload = payload_symbols sf cr no_header no_crc size in
    let n_symbol = quarters sf n_symbol_preamble n_symbol_payload in
    if is_lora_dr sf && is_lora_bw bw && is_lora_cr cr
    then some (record {
      toa_us = u32 (n_symbol * symbol_us bw sf / 4);
      quarter_symbols = n_symbol;
      nb_symbols_payload = n_symbol_payload;
      t_symbol_us = symbol_us bw sf;
    })
    else none

abbrev pub mod_lora : ℕ
mod_lora = 16

abbrev pub mod_fsk : ℕ
mod_fsk = 32

unfoldable pub toa_ms : Option TimeOnAir → ℕ
toa_ms none = 0
toa_ms (some t) = (t.toa_us + 500) / 1000

-- `fsk_toa_ms` is the value of the FSK branch. The data rate and the size are cut to `uint8_t`.
module _ (fsk_toa_ms : TxPacket → ℕ) where
  unfoldable pub lgw_time_on_air : TxPacket → ℕ
  lgw_time_on_air packet =
      if packet.modulation == mod_lora
      then toa_ms (
          lora_packet_time_on_air packet.bandwidth (u8 packet.datarate) packet.coderate
            packet.preamble packet.no_header packet.no_crc (u8 packet.size))
      else if packet.modulation == mod_fsk
      then fsk_toa_ms packet
      else 0
