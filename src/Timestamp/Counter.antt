-- ===== src/Timestamp/Counter.antt =====
-- loragw_sx1302_timestamp.c: the 27-bit counters of the concentrator, extended to 32 bits in software.
pub mod Sync
use meshbeacon_uplink.Prelude.{
  ℕ, ◌+◌, ◌-◌, ◌*◌, ◌/◌, ◌%◌, ◌^◌, Bool, true, false, ltb, leb, if◌then◌else◌, u8, u32, bit_and,
  bit_or,
}

pub record TimestampInfo : Type 0 where
  pub counter_us_27bits_ref : ℕ
  pub counter_us_27bits_wrap : ℕ

pub record TimestampCounter : Type 0 where
  pub inst : TimestampInfo
  pub pps : TimestampInfo

abbrev pub zero_info : TimestampInfo
zero_info = record { counter_us_27bits_ref = 0; counter_us_27bits_wrap = 0 }

-- `timestamp_counter_new` and `timestamp_counter_delete` both clear the structure.
unfoldable pub counter_new : TimestampCounter → TimestampCounter
counter_new self = record { inst = zero_info; pps = zero_info }

unfoldable pub update_info : TimestampInfo → ℕ → TimestampInfo
update_info info cnt = record {
  counter_us_27bits_ref = cnt;
  counter_us_27bits_wrap =
      if ltb cnt info.counter_us_27bits_ref
      then u8 (info.counter_us_27bits_wrap + 1) % 32
      else info.counter_us_27bits_wrap;
}

unfoldable pub counter_update : TimestampCounter → ℕ → ℕ → TimestampCounter
counter_update self pps inst = record {
  inst = update_info self.inst inst;
  pps = update_info self.pps pps;
}

-- `wrap << 27` is an `int` in C, and is read as a `uint32_t`.
unfoldable pub expand_info : TimestampInfo → ℕ → ℕ
expand_info info cnt_us = bit_or (u32 (info.counter_us_27bits_wrap * 2 ^ 27)) cnt_us

unfoldable pub counter_expand : TimestampCounter → Bool → ℕ → ℕ
counter_expand self true cnt_us = expand_info self.pps cnt_us
counter_expand self false cnt_us = expand_info self.inst cnt_us

-- `uint8_t` arithmetic: a wrap status of 0 goes back to 255, of which the mask leaves 31.
unfoldable pub pkt_expand : TimestampCounter → ℕ → ℕ
pkt_expand self pkt_cnt_us =
    let back = if leb pkt_cnt_us self.inst.counter_us_27bits_ref then 0 else 1 in
    let wrap_status = bit_and (u8 (self.inst.counter_us_27bits_wrap + 256 - back)) 0x1F in
    bit_or (u32 (wrap_status * 2 ^ 27)) pkt_cnt_us
