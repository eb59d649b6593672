-- ===== src/Hal/Packet.antt =====
-- libloragw/inc/loragw_hal.h: `lgw_pkt_tx_s`, a packet to send, and the transmission modes.
-- Fields of type `int8_t` are kept as their bit pattern; `payload` lists the bytes of the buffer.
use meshbeacon_uplink.Prelude.{ℕ, Bool, List}

pub record TxPacket : Type 0 where
  pub freq_hz : ℕ
  pub tx_mode : ℕ
  pub count_us : ℕ
  pub rf_chain : ℕ
  pub rf_power : ℕ
  pub modulation : ℕ
  pub freq_offset : ℕ
  pub bandwidth : ℕ
  pub datarate : ℕ
  pub coderate : ℕ
  pub invert_pol : Bool
  pub f_dev : ℕ
  pub preamble : ℕ
  pub no_crc : Bool
  pub no_header : Bool
  pub size : ℕ
  pub payload : List ℕ

-- `TIMESTAMPED`.
abbrev pub timestamped : ℕ
timestamped = 1
