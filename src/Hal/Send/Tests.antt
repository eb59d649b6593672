-- ===== src/Hal/Send/Tests.antt =====
-- Transmissions with and without listening before, and the theorems at concrete inputs.
use meshbeacon_uplink.Prelude.{ℕ, ◌≡◌, refl, true, false, List, [], ◌∷◌, ◌++◌, arith, replicate}
use meshbeacon_uplink.Hal.Packet.{TxPacket}
use meshbeacon_uplink.Hal.TimeOnAir.{
  is_lora_bw, is_lora_dr, is_lora_cr, lora_packet_time_on_air, toa_ms, payload_symbols,
  payload_bits, bits_per_block, symbol_us, quarters, bw_pow, lgw_time_on_air,
}
use meshbeacon_uplink.Hal.Config.Types.{Context, initial_context, no_rxrf, sx1250}
use meshbeacon_uplink.Hal.Config.{HalStatus, success, lbt_not_allowed}
use meshbeacon_uplink.Hal.Lbt.{
  Call, sx1261_set_rx_params, sx1261_lbt_start, sx1302_send, sx1302_agc_mailbox_write,
  sx1261_lbt_stop, timeout, agc_status, is_equal_freq, matches, search_channel, is_lbt_channel,
  is_short_enough, start_scan, start_on, lgw_lbt_start, wait_tx, wait_clear, is_allowed, clear_tx,
  after_wait, lgw_lbt_tx_status,
}
use meshbeacon_uplink.Hal.Send.{
  Answers, returns, is_tx_mode, is_modulation_checked, is_tx_checked, dac_calls, send_lbt,
  finish_lbt, lgw_send,
}
use meshbeacon_uplink.Hal.Send.Cleared.{IsCleared, lgw_send-IsCleared}
use meshbeacon_uplink.Hal.Send.Total.{lgw_send_total, lgw_send_stops_lbt}

-- One radio, and one channel of at most 400 ms.
abbrev sample_context : Context
sample_context = record initial_context {
  is_started = true;
  rf_chain_cfg =
      record {
        enable = true;
        freq_hz = 867500000;
        type = sx1250;
        tx_enable = true;
        single_input_mode = false;
      }
      ∷ no_rxrf
      ∷ [];
  sx1261_cfg = record {
    enable = true;
    spi_path = [];
    rssi_offset = 0;
    lbt_conf = record {
      enable = true;
      rssi_target = 176;
      nb_channel = 1;
      channels =
          record { freq_hz = 868100000; bandwidth = 4; scan_time_us = 5000; transmit_time_ms = 400 }
          ∷ [];
    };
  };
}

abbrev sample_packet : TxPacket
sample_packet = record {
  freq_hz = 868103000;
  tx_mode = 1;
  count_us = 5000000;
  rf_chain = 0;
  rf_power = 14;
  modulation = 16;
  freq_offset = 0;
  bandwidth = 4;
  datarate = 7;
  coderate = 1;
  invert_pol = true;
  f_dev = 0;
  preamble = 8;
  no_crc = false;
  no_header = false;
  size = 20;
  payload = replicate 256 0;
}

-- The transmission starts at the second turn, and bit 6 says whether it was blocked.
abbrev sample_answers : ℕ → Answers
sample_answers status = record {
  dac_ok = true;
  rx_ok = true;
  lbt_start_ok = true;
  send_ok = true;
  polls = agc_status 0 ∷ agc_status status ∷ agc_status 0 ∷ timeout ∷ timeout ∷ [];
  lbt_stop_ok = true;
}

abbrev sample_calls : List Call
sample_calls =
    sx1261_set_rx_params 868103000 4
    ∷ sx1261_lbt_start 5000 176
    ∷ sx1302_send
    ∷ sx1302_agc_mailbox_write 0 0xff
    ∷ sx1302_agc_mailbox_write 0 0
    ∷ sx1261_lbt_stop
    ∷ []

sample_sends :
    (lgw_send (λ p. 0) (sample_answers 1) sample_context sample_packet
      ≡ returns success sample_calls)
    × (lgw_send (λ p. 0) (sample_answers 65) sample_context sample_packet
        ≡ returns lbt_not_allowed sample_calls)
unfolding lgw_send is_tx_checked is_tx_mode is_modulation_checked is_lora_bw is_lora_dr is_lora_cr
    dac_calls send_lbt finish_lbt lgw_lbt_start is_lbt_channel search_channel matches is_equal_freq
    start_on is_short_enough start_scan lgw_lbt_tx_status wait_tx wait_clear is_allowed clear_tx
    after_wait lgw_time_on_air toa_ms lora_packet_time_on_air quarters payload_symbols payload_bits
    bits_per_block symbol_us bw_pow
sample_sends = (refl, refl)

lgw_send-IsCleared_example : IsCleared (λ p. 0) sample_context sample_packet
lgw_send-IsCleared_example =
    lgw_send-IsCleared (λ p. 0) (sample_answers 1) sample_context sample_packet success sample_calls
      (omega arith) (omega arith) (sample_sends.0) refl

lgw_send_total_example :
    (s : HalStatus) × (cs : List Call) × (lgw_send
        (λ p. 0)
        (sample_answers 1)
        sample_context
        sample_packet
      ≡ returns s cs)
lgw_send_total_example =
    lgw_send_total (λ p. 0) (sample_answers 1) sample_context sample_packet (omega arith)
      (omega arith)

lgw_send_stops_lbt_example : (front : List Call) × (sample_calls ≡ front ++ (sx1261_lbt_stop ∷ []))
lgw_send_stops_lbt_example =
    lgw_send_stops_lbt (λ p. 0) (sample_answers 1) sample_context sample_packet (omega arith)
      (omega arith) success sample_calls refl (sample_sends.0) refl
