-- ===== src/Hal/RxPkt.antt =====
-- libloragw/inc/loragw_hal.h: `lgw_pkt_rx_s`, a packet received. The signal levels, which are floating-point
-- numbers that no modelled code reads, are left out.
use meshbeacon_uplink.Prelude.{ℕ, Bool, List}
use meshbeacon_uplink.Prelude.Int.{ℤ}

pub record RxPkt : Type 0 where
  pub freq_hz : ℕ
  pub freq_offset : ℤ
  pub if_chain : ℕ
  pub status : ℕ
  pub count_us : ℕ
  pub rf_chain : ℕ
  pub modem_id : ℕ
  pub modulation : ℕ
  pub bandwidth : ℕ
  pub datarate : ℕ
  pub coderate : ℕ
  pub crc : ℕ
  pub size : ℕ
  pub payload : List ℕ
  pub ftime_received : Bool
  pub ftime : ℕ

abbrev pub stat_no_crc : ℕ
stat_no_crc = 0x01

abbrev pub stat_crc_bad : ℕ
stat_crc_bad = 0x11

abbrev pub stat_crc_ok : ℕ
stat_crc_ok = 0x10
