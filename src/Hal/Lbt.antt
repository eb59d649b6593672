-- ===== src/Hal/Lbt.antt =====
-- libloragw/src/loragw_lbt.c: listen before talk. What the drivers of the radios answer is an argument, and the
-- calls that are made of them are part of the result.
pub mod Start
pub mod Wait
use meshbeacon_uplink.Prelude.{
  ℕ, zero, suc, ◌+◌, ◌-◌, ◌*◌, ◌^◌, ◌&&◌, Bool, true, false, List, [], ◌∷◌, Option, none, some, leb,
  ltb, ◌==◌, if◌then◌else◌, get_or, bit_and, u8, u32,
}
use meshbeacon_uplink.Rx.Pop.{take_n_bits}
use meshbeacon_uplink.Hal.Packet.{TxPacket}
use meshbeacon_uplink.Hal.TimeOnAir.{lgw_time_on_air}
use meshbeacon_uplink.Hal.Config.Types.{
  ConfChanLbt, ConfLbt, ConfSx1261, lbt_channel_nb_max, no_channel,
}

-- The calls of the drivers that a transmission makes.
pub data Call : Type 0 where
  ad5338r_write : Call
  sx1261_set_rx_params : ℕ → ℕ → Call
  sx1261_lbt_start : ℕ → ℕ → Call
  sx1302_send : Call
  sx1302_agc_mailbox_write : ℕ → ℕ → Call
  sx1302_tx_abort : ℕ → Call
  sx1261_lbt_stop : Call

unfoldable pub is_equal_freq : ℕ → ℕ → Bool
is_equal_freq a b = leb a (b + 10000) && leb b (a + 10000)

pub data LbtMatch : Type 0 where
  channel : ℕ → LbtMatch
  no_match : LbtMatch
  overrun : LbtMatch

unfoldable pub matches : ConfChanLbt → ℕ → ℕ → Bool
matches ch freq_hz bandwidth = is_equal_freq freq_hz ch.freq_hz && bandwidth == ch.bandwidth

-- The loop of `is_lbt_channel` from `i` on. `overrun` is a read behind the array.
unfoldable pub search_channel : ℕ → ℕ → List ConfChanLbt → ℕ → ℕ → LbtMatch
search_channel zero i channels freq_hz bandwidth = no_match
search_channel (suc left) i channels freq_hz bandwidth =
    let rest = search_channel left (suc i) channels freq_hz bandwidth in
    if leb lbt_channel_nb_max i
    then overrun
    else if matches (get_or channels i no_channel) freq_hz bandwidth
    then channel i
    else rest

unfoldable pub is_lbt_channel : ConfLbt → ℕ → ℕ → LbtMatch
is_lbt_channel lbt freq_hz bandwidth =
    search_channel lbt.nb_channel 0 lbt.channels freq_hz bandwidth

pub data LbtStart : Type 0 where
  started : List Call → LbtStart
  failed : List Call → LbtStart
  fault : LbtStart

-- Is the time on the air short enough? The start of the packet is 1.5 ms behind the sensing.
unfoldable pub is_short_enough : ℕ → ConfChanLbt → Bool
is_short_enough toa_ms ch =
    ltb 1500 (ch.transmit_time_ms * 1000)
    && leb (u32 (toa_ms * 1000)) (ch.transmit_time_ms * 1000 - 1500)

-- The setting of the radio and the start of the scan, with their answers.
unfoldable pub start_scan : Bool → Bool → ConfSx1261 → ConfChanLbt → TxPacket → LbtStart
start_scan rx_ok start_ok sx ch pkt =
    let rx = sx1261_set_rx_params pkt.freq_hz pkt.bandwidth in
    let scan = sx1261_lbt_start ch.scan_time_us (u8 (sx.lbt_conf.rssi_target + sx.rssi_offset)) in
    if rx_ok
    then (if start_ok then started (rx ∷ scan ∷ []) else failed (rx ∷ scan ∷ []))
    else failed (rx ∷ [])

unfoldable pub start_on : Bool → Bool → ℕ → ConfSx1261 → TxPacket → LbtMatch → LbtStart
start_on rx_ok start_ok toa_ms sx pkt no_match = failed []
start_on rx_ok start_ok toa_ms sx pkt overrun = fault
start_on rx_ok start_ok toa_ms sx pkt (channel i) =
    let ch = get_or sx.lbt_conf.channels i no_channel in
    if is_short_enough toa_ms ch then start_scan rx_ok start_ok sx ch pkt else failed []

unfoldable pub lgw_lbt_start : (TxPacket → ℕ) → Bool → Bool → ConfSx1261 → TxPacket → LbtStart
lgw_lbt_start fsk_toa_ms rx_ok start_ok sx pkt =
    start_on rx_ok start_ok (lgw_time_on_air fsk_toa_ms pkt) sx pkt
      (is_lbt_channel sx.lbt_conf pkt.freq_hz pkt.bandwidth)

-- A turn of a waiting loop: the time is over, the status could not be read, or it was.
pub data Poll : Type 0 where
  timeout : Poll
  agc_error : Poll
  agc_status : ℕ → Poll

-- How a waiting loop ends, with the turns that are left for the next one. `starved` has none left.
pub data Waited : Type 0 where
  ended : ℕ → List Poll → Waited
  timed_out : List Poll → Waited
  not_read : Waited
  starved : Waited

unfoldable pub wait_tx : ℕ → List Poll → Waited
wait_tx rf_chain [] = starved
wait_tx rf_chain (timeout ∷ polls) = timed_out polls
wait_tx rf_chain (agc_error ∷ polls) = not_read
wait_tx rf_chain (agc_status status ∷ polls) =
    let rest = wait_tx rf_chain polls in
    if bit_and status (2 ^ rf_chain) == 0 then rest else ended status polls

unfoldable pub wait_clear : List Poll → Waited
wait_clear [] = starved
wait_clear (timeout ∷ polls) = timed_out polls
wait_clear (agc_error ∷ polls) = not_read
wait_clear (agc_status status ∷ polls) =
    let rest = wait_clear polls in if status == 0 then ended status polls else rest

-- Bit 6 or 7 is set where the radio was not allowed to transmit.
unfoldable pub is_allowed : ℕ → ℕ → Bool
is_allowed rf_chain status = take_n_bits status (if rf_chain == 0 then 6 else 7) 1 == 0

-- What `lgw_lbt_tx_status` returns: an error, or whether the transmission was allowed.
pub data TxStatus : Type 0 where
  status_error : List Call → TxStatus
  status_ok : Bool → List Call → TxStatus
  waits : TxStatus

abbrev pub clear_status : Call
clear_status = sx1302_agc_mailbox_write 0 0xff

abbrev pub acknowledge : Call
acknowledge = sx1302_agc_mailbox_write 0 0

-- From the clearing of the status on. The first loop gave `tx_ok`, or was over time.
unfoldable pub clear_tx : Option Bool → Waited → TxStatus
clear_tx tx_ok starved = waits
clear_tx tx_ok not_read = status_error (clear_status ∷ [])
clear_tx tx_ok (timed_out polls) = status_error (clear_status ∷ acknowledge ∷ [])
clear_tx none (ended status polls) = status_error (clear_status ∷ acknowledge ∷ [])
clear_tx (some tx_ok) (ended status polls) = status_ok tx_ok (clear_status ∷ acknowledge ∷ [])

unfoldable pub after_wait : ℕ → Waited → TxStatus
after_wait rf_chain starved = waits
after_wait rf_chain not_read = status_error []
after_wait rf_chain (timed_out polls) = clear_tx none (wait_clear polls)
after_wait rf_chain (ended status polls) =
    clear_tx (some (is_allowed rf_chain status)) (wait_clear polls)

unfoldable pub lgw_lbt_tx_status : ℕ → List Poll → TxStatus
lgw_lbt_tx_status rf_chain polls = after_wait rf_chain (wait_tx rf_chain polls)
