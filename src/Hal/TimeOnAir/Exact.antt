-- ===== src/Hal/TimeOnAir/Exact.antt =====
-- The time on air of LoRa packets, by the bits of a packet and its data rate.
use meshbeacon_uplink.Prelude.{ℕ, ◌+◌, ◌-◌, ◌*◌, ◌/◌, ◌^◌, ◌≤◌, ◌≡◌, Bool, ltb, ◌==◌, if◌then◌else◌}
use meshbeacon_uplink.Hal.TimeOnAir.{TimeOnAir}

-- The bits behind the preamble: the payload, its CRC and the header, and 8 from SF7.
unfoldable pub packet_bits : ℕ → Bool → Bool → ℕ → ℕ
packet_bits sf no_header no_crc size =
    8 * size
    + (if no_crc then 0 else 16)
    + (if no_header then 0 else 20)
    + (if ltb sf 7 then 0 else 8)

-- The bits of a block of symbols: four symbols of `sf` bits, or of two less from SF11.
unfoldable pub block_bits : ℕ → ℕ
block_bits sf = if ltb sf 11 then 4 * sf else 4 * sf - 8

unfoldable pub bandwidth_hz : ℕ → ℕ
bandwidth_hz bw = if bw == 4 then 125000 else if bw == 5 then 250000 else 500000

-- The first block, of `4 * sf` bits, is counted with the preamble. The other blocks are as few as hold the bits, of
-- `cr + 4` symbols each. With the preamble come 12.25 symbols, or 14.25 at SF5 and SF6. A symbol is `2 ^ sf` chips, at
-- one chip for each Hz of the bandwidth and second.
pub record IsExact (bw sf cr n_symbol_preamble : ℕ) (no_header no_crc : Bool) (size : ℕ)
    (t : TimeOnAir) : Type 0 where
  pub blocks : ℕ
  pub enough : packet_bits sf no_header no_crc size ≤ blocks * block_bits sf + 4 * sf
  pub least :
      (b : ℕ) → packet_bits sf no_header no_crc size ≤ b * block_bits sf + 4 * sf → blocks ≤ b
  pub payload : t.nb_symbols_payload ≡ blocks * (cr + 4)
  pub few_chips : sf ≤ 6 → t.quarter_symbols ≡ 4 * (n_symbol_preamble + t.nb_symbols_payload) + 57
  pub many_chips : 7 ≤ sf → t.quarter_symbols ≡ 4 * (n_symbol_preamble + t.nb_symbols_payload) + 49
  pub symbol : t.t_symbol_us * bandwidth_hz bw ≡ 2 ^ sf * 1000000
  pub time : t.toa_us ≡ t.quarter_symbols * t.t_symbol_us / 4
  pub fits : t.toa_us ≤ 2180710400
