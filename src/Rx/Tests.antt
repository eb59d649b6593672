-- ===== src/Rx/Tests.antt =====
-- The received packets on concrete bytes.
use meshbeacon_uplink.Prelude.{ℕ, ◌≡◌, ◌≢◌, ◌⊎◌, refl, Bool, true, false, List, [], ◌∷◌, arith}
use meshbeacon_uplink.Prelude.Int.{pos}
use meshbeacon_uplink.Rx.Buffer.{RxBuffer, success, FetchResult, fetch}
use meshbeacon_uplink.Rx.Fetch.{sx1302_fetch}
use meshbeacon_uplink.Rx.Fetch.Waits.{sx1302_fetch-Holds}
use meshbeacon_uplink.Rx.Pop.{RxPacket, sum_from}
use meshbeacon_uplink.Rx.Pop.Checks.{Delivers, pop_effect}
use meshbeacon_uplink.Rx.Frames.{IsFrame, concat}
use meshbeacon_uplink.Rx.Frames.Fetch.{Holds, placed, fetch-Holds}
use meshbeacon_uplink.Rx.Frames.Pop.{IsGood, Pops, pop-Holds}

-- A packet of two bytes at SF7, on channel 1.
abbrev frame : List ℕ
frame =
    0xa5 ∷ 0xc0 ∷ 2 ∷ 1 ∷ 0x73 ∷ 3 ∷ 0 ∷ 0 ∷ 0 ∷ 1 ∷ 2 ∷ 0 ∷ 0 ∷ 0 ∷ 0 ∷ 0 ∷ 0 ∷ 0 ∷ 0 ∷ 0 ∷ 0 ∷ 0
    ∷ 0 ∷ 0 ∷ 225 ∷ []

frame-IsFrame : IsFrame frame
frame-IsFrame = record { sync_0 = refl; sync_1 = refl; sized = refl }

frame-IsGood : IsGood frame
unfolding sum_from
frame-IsGood = record {
  frame = frame-IsFrame;
  summed = refl;
  metrics = omega arith;
  modem = omega arith;
  channel = omega arith;
  rate_min = omega arith;
  rate_max = omega arith;
}

abbrev empty_buffer : RxBuffer
empty_buffer = record { buffer = []; buffer_size = 0; buffer_index = 0; buffer_pkt_nb = 0 }

abbrev empty_packet : RxPacket
empty_packet = record {
  rxbytenb_modem = 0;
  rx_channel_in = 0;
  crc_en = false;
  coding_rate = 0;
  rx_rate_sf = 0;
  modem_id = 0;
  frequency_offset_error = pos 0;
  payload = [];
  payload_crc_error = false;
  sync_error = false;
  header_error = false;
  timing_set = false;
  snr_average = pos 0;
  rssi_chan_avg = 0;
  rssi_signal_avg = 0;
  timestamp_cnt = 0;
  rx_crc16_value = 0;
  num_ts_metrics_stored = 0;
  timestamp_avg = [];
  timestamp_stddev = [];
}

-- A FIFO with two packets.
abbrev fifo : ℕ → Bool × List ℕ
fifo n = (true, concat (frame ∷ frame ∷ []))

fetch-Holds_example :
    (self' : RxBuffer) × (fetch fifo empty_buffer (0, 25) (0, 50)
      ≡ FetchResult.returns success self')
    × Holds self' (frame ∷ frame ∷ [])
fetch-Holds_example =
    fetch-Holds fifo empty_buffer (0, 25) (0, 50) frame (frame ∷ [])
      (frame-IsFrame, (frame-IsFrame, tt)) (omega arith) (omega arith) refl refl refl

abbrev two_left : RxBuffer
two_left = placed [] (frame ∷ frame ∷ []) []

two_left-Holds : Holds two_left (frame ∷ frame ∷ [])
two_left-Holds = record { pre = []; post = []; state = refl; fits = omega arith }

first_pop : Pops two_left empty_packet frame (frame ∷ [])
first_pop =
    pop-Holds two_left empty_packet frame (frame ∷ []) frame-IsGood two_left-Holds (omega arith)

pop-Holds_example : Pops two_left empty_packet frame (frame ∷ [])
pop-Holds_example =
    pop-Holds two_left empty_packet frame (frame ∷ []) frame-IsGood two_left-Holds (omega arith)

pop_effect_example :
    ((success ≢ success) × (first_pop.0 ≡ two_left))
    ⊎ ((success ≡ success) × Delivers two_left empty_packet first_pop.0 first_pop.1)
pop_effect_example = pop_effect two_left empty_packet success first_pop.0 first_pop.1 first_pop.2

sx1302_fetch-Holds_example :
    (self' : RxBuffer) × (sx1302_fetch fifo two_left (0, 25) (0, 50)
      ≡ FetchResult.returns success self')
    × Holds self' (frame ∷ frame ∷ [])
sx1302_fetch-Holds_example =
    sx1302_fetch-Holds fifo two_left (0, 25) (0, 50) (frame ∷ frame ∷ []) frame (frame ∷ [])
      two_left-Holds (frame-IsFrame, (frame-IsFrame, tt)) (omega arith) (omega arith) refl refl
