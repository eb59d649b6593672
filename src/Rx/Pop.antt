-- ===== src/Rx/Pop.antt =====
-- libloragw/src/loragw_sx1302_rx.c: `rx_buffer_pop`, with the fields that its macros cut out of the bytes.
pub mod Checks
use meshbeacon_uplink.Prelude.{
  ℕ, zero, suc, ◌+◌, ◌-◌, ◌*◌, ◌/◌, ◌^◌, ◌&&◌, ◌||◌, not, Bool, true, false, List, [], ◌∷◌, ◌++◌,
  Option, none, some, leb, ltb, ◌==◌, if◌then◌else◌, take, drop, map, bit_and, bit_or, u8, u16,
}
use meshbeacon_uplink.Prelude.Int.{ℤ, pos, negsuc, sub_ℕ, to_int8}
use meshbeacon_uplink.Rx.Buffer.{
  RxBuffer, RegStatus, success, error, warning, buffer_max, byte_at, is_sync, payload_length,
  num_ts_metrics, last_read, packet_size, head_metadata,
}

-- `packet_checksum` and the four RSSI deltas of `rx_packet_s` are left out: the function does not touch
-- them. The arrays are lists.
pub record RxPacket : Type 0 where
  pub rxbytenb_modem : ℕ
  pub rx_channel_in : ℕ
  pub crc_en : Bool
  pub coding_rate : ℕ
  pub rx_rate_sf : ℕ
  pub modem_id : ℕ
  pub frequency_offset_error : ℤ
  pub payload : List ℕ
  pub payload_crc_error : Bool
  pub sync_error : Bool
  pub header_error : Bool
  pub timing_set : Bool
  pub snr_average : ℤ
  pub rssi_chan_avg : ℕ
  pub rssi_signal_avg : ℕ
  pub timestamp_cnt : ℕ
  pub rx_crc16_value : ℕ
  pub num_ts_metrics_stored : ℕ
  pub timestamp_avg : List ℤ
  pub timestamp_stddev : List ℤ

abbrev pub lora_std_modem_id : ℕ
lora_std_modem_id = 16

abbrev pub fsk_modem_id : ℕ
fsk_modem_id = 17

-- The macro `TAKE_N_BITS_FROM`.
abbrev pub take_n_bits : ℕ → ℕ → ℕ → ℕ
take_n_bits b p n = bit_and (b / 2 ^ p) (2 ^ n - 1)

abbrev pub is_set : ℕ → ℕ → Bool
is_set b p = not (take_n_bits b p 1 == 0)

unfoldable pub sum_from : ℕ → List ℕ → ℕ
sum_from checksum [] = checksum
sum_from checksum (x ∷ xs) = sum_from (u8 (checksum + x)) xs

-- The sum of the packet's bytes but the last, on `uint8_t`.
abbrev pub checksum_calc : List ℕ → ℕ → ℕ
checksum_calc buffer i = sum_from 0 (take (packet_size buffer i - 1) (drop i buffer))

abbrev pub checksum_rcv : List ℕ → ℕ → ℕ
checksum_rcv buffer i = byte_at buffer (i + packet_size buffer i - 1)

-- Bytes of a word, the lowest first.
abbrev pub le_word : ℕ → ℕ → ℕ → ℕ → ℕ
le_word b₀ b₁ b₂ b₃ =
    bit_or
      (bit_or (bit_or (bit_and (b₀ * 2 ^ 0) 0xff) (bit_and (b₁ * 2 ^ 8) 0xff00))
        (bit_and (b₂ * 2 ^ 16) 0xff0000))
      (bit_and (b₃ * 2 ^ 24) 0xff000000)

-- The frequency offset is a signed number of 20 bits.
unfoldable pub frequency_offset : ℕ → ℕ → ℕ → ℤ
frequency_offset low middle high =
    let raw =
      bit_or (bit_or (take_n_bits high 0 4 * 2 ^ 16) (take_n_bits middle 0 8 * 2 ^ 8))
        (take_n_bits low 0 8 * 2 ^ 0) in
    if leb (2 ^ 19) raw then sub_ℕ raw (2 ^ 20) else pos raw

-- The metadata of the packet at `i`. The tail is found behind the payload.
unfoldable pub parse_metadata : List ℕ → ℕ → RxPacket → RxPacket
unfolding frequency_offset
parse_metadata buffer i pkt =
    let t = i + payload_length buffer i in
    let n = 2 * num_ts_metrics buffer i in
    record pkt {
      rxbytenb_modem = payload_length buffer i;
      num_ts_metrics_stored = num_ts_metrics buffer i;
      modem_id = take_n_bits (byte_at buffer (i + 5)) 0 8;
      rx_channel_in = take_n_bits (byte_at buffer (i + 3)) 0 8;
      crc_en = is_set (byte_at buffer (i + 4)) 0;
      payload_crc_error = is_set (byte_at buffer (t + 9)) 0;
      sync_error = is_set (byte_at buffer (t + 9)) 2;
      header_error = is_set (byte_at buffer (t + 9)) 3;
      timing_set = is_set (byte_at buffer (t + 9)) 4;
      coding_rate = take_n_bits (byte_at buffer (i + 4)) 1 3;
      rx_rate_sf = take_n_bits (byte_at buffer (i + 4)) 4 4;
      rssi_chan_avg = take_n_bits (byte_at buffer (t + 11)) 0 8;
      rssi_signal_avg = take_n_bits (byte_at buffer (t + 12)) 0 8;
      rx_crc16_value = u16 (
          bit_or (bit_and (byte_at buffer (t + 19) * 2 ^ 0) 0xff)
            (bit_and (byte_at buffer (t + 20) * 2 ^ 8) 0xff00));
      snr_average = to_int8 (byte_at buffer (t + 10));
      frequency_offset_error =
          frequency_offset (byte_at buffer (i + 6)) (byte_at buffer (i + 7))
            (byte_at buffer (i + 8));
      timestamp_cnt =
          le_word (byte_at buffer (t + 15)) (byte_at buffer (t + 16)) (byte_at buffer (t + 17))
            (byte_at buffer (t + 18));
      timestamp_avg = map to_int8 (take n (drop (t + 22) buffer)) ++ drop n pkt.timestamp_avg;
      timestamp_stddev =
          map (λ (x : ℕ). pos 0) (take n (drop (t + 22) buffer)) ++ drop n pkt.timestamp_stddev;
    }

-- The checks of the ranges of modem, channel and spreading factor.
unfoldable pub is_sane : RxPacket → Bool
is_sane pkt =
    if ltb fsk_modem_id pkt.modem_id
    then false
    else if leb pkt.modem_id lora_std_modem_id
    then not (ltb 9 pkt.rx_channel_in) && not (ltb pkt.rx_rate_sf 5 || ltb 12 pkt.rx_rate_sf)
    else true

unfoldable pub take_payload : RxBuffer → RxPacket → RxPacket
take_payload self pkt = record pkt {
  payload =
      take pkt.rxbytenb_modem (drop (self.buffer_index + head_metadata) self.buffer)
      ++ drop pkt.rxbytenb_modem pkt.payload;
}

unfoldable pub advance : RxBuffer → RxBuffer
advance self = record self {
  buffer_index = self.buffer_index + packet_size self.buffer self.buffer_index;
  buffer_pkt_nb = u8 (self.buffer_pkt_nb + 255);
}

-- `fault` is a read behind the array of bytes, or a write behind the 255 entries of `timestamp_avg`.
pub data PopResult : Type 0 where
  returns : RegStatus → RxBuffer → RxPacket → PopResult
  fault : PopResult

-- The packet with its checksum right.
unfoldable pub pop_checked : RxBuffer → RxPacket → PopResult
unfolding is_sane take_payload advance
pop_checked self pkt =
    let parsed = parse_metadata self.buffer self.buffer_index pkt in
    if ltb 255 (2 * num_ts_metrics self.buffer self.buffer_index)
    then fault
    else if is_sane parsed
    then returns success (advance self) (take_payload self parsed)
    else returns error self parsed

-- The packet behind its syncword.
unfoldable pub pop_at : RxBuffer → RxPacket → PopResult
unfolding pop_checked
pop_at self pkt =
    let i = self.buffer_index in
    let sized = record pkt {
      rxbytenb_modem = payload_length self.buffer i;
      num_ts_metrics_stored = num_ts_metrics self.buffer i;
    } in
    if leb buffer_max (last_read self.buffer i)
    then fault
    else if ltb self.buffer_size (i + packet_size self.buffer i)
    then returns warning self sized
    else if checksum_rcv self.buffer i == checksum_calc self.buffer i
    then pop_checked self pkt
    else returns warning self sized

-- `rx_buffer_pop` on a buffer of no more bytes than its array holds.
unfoldable pub pop : RxBuffer → RxPacket → PopResult
unfolding is_sync pop_at
pop self pkt =
    if leb self.buffer_size self.buffer_index
    then returns error self pkt
    else elim (is_sync self.buffer self.buffer_index) [
      | none ↦ fault
      | some false ↦ returns error self pkt
      | some true ↦ pop_at self pkt
    ]
