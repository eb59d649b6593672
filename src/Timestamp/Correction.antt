-- ===== src/Timestamp/Correction.antt =====
-- loragw_sx1302_timestamp.c: `legacy_timestamp_correction`, `precision_timestamp_correction` and
-- `timestamp_counter_correction`. Delays are in picoseconds. The quotients that C computes in `double` are
-- of numbers small enough that truncation makes them exact, so they are integers here.
pub mod Bounds
use meshbeacon_uplink.Prelude.{
  ℕ, zero, suc, ◌+◌, ◌-◌, ◌*◌, ◌/◌, ◌^◌, ◌&&◌, ◌||◌, not, Bool, true, false, none, some, leb, ◌==◌,
  if◌then◌else◌, Option, sub_u32, u32,
}
use meshbeacon_uplink.Prelude.Int.{ℤ, pos, negsuc, sub_ℕ}
use meshbeacon_uplink.Hal.TimeOnAir.{
  is_lora_bw, is_lora_dr, is_lora_cr, bw_pow, TimeOnAir, lora_packet_time_on_air,
}

-- The macro `SET_PPM_ON`, as 0 or 1.
unfoldable pub ppm_on : ℕ → ℕ → ℕ
ppm_on bandwidth sf =
    if (bandwidth == 4 && (sf == 11 || sf == 12)) || (bandwidth == 5 && sf == 12) then 1 else 0

unfoldable pub clk_period : ℕ → ℕ
unfolding bw_pow
clk_period bandwidth = 250000 / bw_pow bandwidth

-- `payload_length + 2 * crc_en`.
abbrev pub length_with_crc : ℕ → Bool → ℕ
length_with_crc payload_length crc_en = payload_length + 2 * (if crc_en then 1 else 0)

abbrev pub nb_nibble : ℕ → Bool → ℕ
nb_nibble payload_length crc_en = length_with_crc payload_length crc_en * 2 + 5

abbrev pub nb_nibble_in_hdr : ℕ → ℕ
nb_nibble_in_hdr sf = if sf == 5 || sf == 6 then sf else sf - 2

-- The nibbles behind the header, on `uint32_t`, less the full blocks of them.
unfoldable pub nb_nibble_left : ℕ → ℕ → ℕ → Bool → ℕ
nb_nibble_left sf ppm payload_length crc_en =
    let behind = sub_u32 (nb_nibble payload_length crc_en) (nb_nibble_in_hdr sf) in
    behind - (sf - 2 * ppm) * (behind / (sf - 2 * ppm))

unfoldable pub payload_fits_in_header : ℕ → ℕ → Bool → Bool
payload_fits_in_header sf payload_length crc_en =
    leb (2 * length_with_crc payload_length crc_en + 7) sf || (payload_length == 0 && not crc_en)

unfoldable pub nb_nibble_in_last_block : ℕ → ℕ → ℕ → Bool → ℕ
unfolding nb_nibble_left payload_fits_in_header
nb_nibble_in_last_block sf ppm payload_length crc_en =
    let left = nb_nibble_left sf ppm payload_length crc_en in
    if payload_fits_in_header sf payload_length crc_en
    then if leb 7 sf then sf - 2 else sf
    else if left == 0
    then sf - 2 * ppm
    else left

unfoldable pub filtering_delay : ℕ → ℕ
unfolding bw_pow
filtering_delay bandwidth = 16000000 / bw_pow bandwidth + 2031250

-- `ppm / 4` is a division of integers, and so 0.
unfoldable pub demap_delay : ℕ → ℕ → ℕ → Bool → ℕ
demap_delay clk sf ppm fits =
    if fits
    then clk + 2 ^ sf * clk * 3 / 4 + 3 * clk + (sf - 2) * clk
    else clk + 2 ^ sf * clk * (1 - ppm / 4) + 3 * clk + (sf - 2 * ppm) * clk

unfoldable pub fft_delay_state3 : ℕ → ℕ → ℕ
fft_delay_state3 clk sf = clk * (2 ^ sf - 6 + 2 * (2 ^ sf * ((sf + 1) / 2 - 1) + 6)) + 4 * clk

unfoldable pub fft_delay : ℕ → ℕ → ℕ → Bool → ℕ
fft_delay clk sf ppm dft_peak_en =
    if dft_peak_en
    then (5 - 2 * ppm) * (2 ^ sf * clk + 7 * clk) + 2 * clk
    else 2 ^ sf * 2 * clk + 3 * clk

unfoldable pub decode_delay : ℕ → ℕ → ℕ → ℕ
decode_delay clk cr nibbles = 5 * clk + (9 * clk + clk * cr) * nibbles + 3 * clk

-- The total of the delays in microseconds, for a bandwidth that has a clock period.
unfoldable pub total_delay : ℕ → ℕ → ℕ → Bool → ℕ → ℕ → ℕ
unfolding clk_period payload_fits_in_header filtering_delay fft_delay_state3 fft_delay demap_delay
    decode_delay nb_nibble_in_last_block
total_delay bandwidth sf cr crc_en payload_length dft_peak_mode =
    let clk = clk_period bandwidth in
    let ppm = ppm_on bandwidth sf in
    let fits = payload_fits_in_header sf payload_length crc_en in
    let dft_peak_en = if fits then false else not (dft_peak_mode == 0) in
    let cr_local = if fits then 4 else cr in
    let nibbles = nb_nibble_in_last_block sf ppm payload_length crc_en in
    (filtering_delay bandwidth
      + fft_delay_state3 clk sf
      + fft_delay clk sf ppm dft_peak_en
      + demap_delay clk sf ppm fits
      + decode_delay clk cr_local nibbles
      + 500000)
    / 1000000

-- `none` is the failed assertion that the total fits 31 bits.
unfoldable pub legacy_timestamp_correction : ℕ → ℕ → ℕ → Bool → ℕ → ℕ → Option ℤ
unfolding total_delay
legacy_timestamp_correction bandwidth sf cr crc_en payload_length dft_peak_mode =
    let total = total_delay bandwidth sf cr crc_en payload_length dft_peak_mode in
    if is_lora_bw bandwidth
    then if leb total 2147483647 then some (sub_ℕ 0 total) else none
    else some (pos 0)

-- The difference in millionths, truncated towards 0.
abbrev pub truncated : ℕ → ℕ → ℤ
truncated a b = if leb b a then pos ((a - b) / 1000000) else sub_ℕ 0 ((b - a) / 1000000)

-- `payload_us` is the duration of the payload.
unfoldable pub precision_of_packet : ℕ → Option TimeOnAir → ℤ
unfolding filtering_delay
precision_of_packet bandwidth none = pos 0
precision_of_packet bandwidth (some t) =
    let payload_us = u32 (t.nb_symbols_payload * t.t_symbol_us) in
    if t.toa_us == 0
    then pos 0
    else truncated (payload_us * 1000000) (filtering_delay bandwidth + 500000)

unfoldable pub precision_timestamp_correction : ℕ → ℕ → ℕ → Bool → ℕ → ℤ
unfolding precision_of_packet
precision_timestamp_correction bandwidth datarate coderate crc_en payload_length =
    if is_lora_bw bandwidth
    then precision_of_packet bandwidth
        (lora_packet_time_on_air bandwidth datarate coderate 0 false (not crc_en) payload_length)
    else pos 0

-- `ftime_enable` is the setting of fine timestamps.
unfoldable pub counter_correction : Bool → ℕ → ℕ → ℕ → Bool → ℕ → ℕ → Option ℤ
unfolding legacy_timestamp_correction precision_timestamp_correction
counter_correction ftime_enable bandwidth datarate coderate crc_en payload_length dft_peak_mode =
    if is_lora_dr datarate && is_lora_bw bandwidth && is_lora_cr coderate
    then if ftime_enable
      then some (precision_timestamp_correction bandwidth datarate coderate crc_en payload_length)
      else legacy_timestamp_correction bandwidth datarate coderate crc_en payload_length
          dft_peak_mode
    else some (pos 0)
