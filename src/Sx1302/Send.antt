-- ===== src/Sx1302/Send.antt =====
-- libloragw/src/loragw_sx1302.c: `sx1302_send`, which configures a transmission and triggers it, as the writes that it makes.
use meshbeacon_uplink.Prelude.{
  ℕ, zero, suc, ◌+◌, ◌-◌, ◌*◌, ◌/◌, ◌%◌, ◌^◌, Bool, true, false, ◌&&◌, ◌||◌, not, Option, none,
  some, List, [], ◌∷◌, ◌++◌, ltb, leb, ◌==◌, if◌then◌else◌, bit_or, u8, u16, u32, sub_u32, take,
  get_or,
}
use meshbeacon_uplink.Prelude.Int.{ℤ, pos, negsuc, to_int8}
use meshbeacon_uplink.Hal.Packet.{TxPacket, timestamped}
use meshbeacon_uplink.Hal.TimeOnAir.{mod_lora, mod_fsk}
use meshbeacon_uplink.Hal.Send.{mod_cw}
use meshbeacon_uplink.Hal.Config.Types.{
  RadioType, type_none, sx1255, sx1257, sx1272, sx1276, sx1250, ConfRxif, TxGain, TxGainLut,
  no_gain,
}
use meshbeacon_uplink.Hal.Config.{lgw_bw_getval}
use meshbeacon_uplink.Sx1302.Ops.{
  Op, reg_w, reg_wb, mem_wb, set_write_mode_bulk, set_write_mode_single, com_flush, Part, goes_on,
  stops, ◌andthen◌,
}
use meshbeacon_uplink.Sx1302.Gain.{gain_of, gain_part}
use meshbeacon_uplink.Sx1302.Modem.{
  Undefined, freq_to_reg, byte_of, buff_of, chirp_lowpass, lora_ops, cw_ops, fsk_ops,
}
use meshbeacon_uplink.Sx1302.Regs.{
  tx_top_gen_cfg_0_modulation_type, tx_top_tx_rffe_if_ctrl_tx_if_src,
  tx_top_tx_rffe_if_i_offset_i_offset, tx_top_tx_rffe_if_q_offset_q_offset,
  tx_top_agc_tx_pwr_agc_tx_pwr, tx_top_tx_rffe_if_iq_gain_iq_gain,
  tx_top_tx_rffe_if_freq_rf_h_freq_rf, tx_top_tx_rffe_if_freq_rf_m_freq_rf,
  tx_top_tx_rffe_if_freq_rf_l_freq_rf, tx_top_agc_tx_bw_agc_tx_bw, tx_top_tx_ctrl_write_buffer,
  tx_top_tx_trig_tx_trig_immediate, tx_top_timer_trig_byte0_timer_delayed_trig,
  tx_top_timer_trig_byte1_timer_delayed_trig, tx_top_timer_trig_byte2_timer_delayed_trig,
  tx_top_timer_trig_byte3_timer_delayed_trig, tx_top_tx_trig_tx_trig_delayed,
  tx_top_tx_trig_tx_trig_gps, tx_top_tx_start_delay_msb_tx_start_delay, reg_select,
}
pub mod Quiet
pub mod Configured
pub mod Trigger
pub mod Supported

abbrev pub tx_start_delay_default : ℕ
tx_start_delay_default = 1500

unfoldable pub modem_ops : ℕ → ℕ → ℕ → List Op
modem_ops rf_chain modulation_type tx_if_src =
    reg_w (tx_top_gen_cfg_0_modulation_type rf_chain) (pos modulation_type)
    ∷ reg_w (tx_top_tx_rffe_if_ctrl_tx_if_src rf_chain) (pos tx_if_src)
    ∷ []

unfoldable pub select_modem : TxPacket → Part
select_modem pkt =
    if pkt.modulation == mod_cw
    then goes_on (modem_ops pkt.rf_chain 0 0)
    else if pkt.modulation == mod_lora
    then goes_on (modem_ops pkt.rf_chain 0 1)
    else if pkt.modulation == mod_fsk
    then goes_on (modem_ops pkt.rf_chain 1 2)
    else stops []

unfoldable pub is_sx1255 : RadioType → Bool
is_sx1255 radio_type = elim radio_type [
  | sx1255 ↦ true
  | sx1250 ↦ false
  | sx1257 ↦ false
  | sx1272 ↦ false
  | sx1276 ↦ false
  | type_none ↦ false
]

unfoldable pub freq_ops : RadioType → TxPacket → List Op
freq_ops radio_type pkt =
    let freq_reg = freq_to_reg (if is_sx1255 radio_type then pkt.freq_hz * 2 else pkt.freq_hz) in
    reg_w (tx_top_tx_rffe_if_freq_rf_h_freq_rf pkt.rf_chain) (byte_of freq_reg 16)
    ∷ reg_w (tx_top_tx_rffe_if_freq_rf_m_freq_rf pkt.rf_chain) (byte_of freq_reg 8)
    ∷ reg_w (tx_top_tx_rffe_if_freq_rf_l_freq_rf pkt.rf_chain) (byte_of freq_reg 0)
    ∷ []

unfoldable pub bw_ops : ℕ → ℕ → List Op
bw_ops rf_chain mod_bw = reg_w (tx_top_agc_tx_bw_agc_tx_bw rf_chain) (pos mod_bw) ∷ []

-- The AGC's bandwidth, and the modem. The modulations that are not supported have ended the function before.
unfoldable pub modem_part : Undefined → Bool → ConfRxif → TxPacket → Part
modem_part undef lwan_public context_fsk pkt =
    if pkt.modulation == mod_lora
    then goes_on (bw_ops pkt.rf_chain pkt.bandwidth ++ lora_ops lwan_public pkt)
    else if pkt.modulation == mod_cw
    then goes_on (bw_ops pkt.rf_chain (u8 (bit_or 128 pkt.bandwidth)) ++ cw_ops undef pkt)
    else if pkt.modulation == mod_fsk
    then goes_on
        (bw_ops pkt.rf_chain (u8 (bit_or 128 pkt.bandwidth)) ++ fsk_ops undef context_fsk pkt)
    else stops []

-- `none` where the bandwidth or the type is not supported.
unfoldable pub radio_bw_delay : RadioType → ℕ → Option ℕ
radio_bw_delay radio_type bandwidth =
    let by_bw = λ (bw125 bw250 bw500 : ℕ).
      if bandwidth == 0x04
      then some bw125
      else if bandwidth == 0x05
      then some bw250
      else if bandwidth == 0x06
      then some bw500
      else none in
    elim radio_type [
      | sx1250 ↦ by_bw 19 24 21
      | sx1255 ↦ by_bw (3 * 32 + 4) (3 * 32 + 4 + 6) (3 * 32 + 4)
      | sx1257 ↦ by_bw (3 * 32 + 4) (3 * 32 + 4 + 6) (3 * 32 + 4)
      | sx1272 ↦ none
      | sx1276 ↦ none
      | type_none ↦ none
    ]

-- The quotients come out even for the three bandwidths.
unfoldable pub start_delay : ℕ → ℕ → ℕ → ℕ
start_delay radio_delay bw_hz lowpass =
    let filter_delay = u16 ((2 ^ lowpass - 1) * 1000000 / bw_hz) in
    let modem_delay = u16 (8 * (1000000 / bw_hz)) in
    u16 (tx_start_delay_default * 32 + 65536 - (radio_delay + filter_delay + modem_delay))

unfoldable pub delay_ops : ℕ → ℕ → List Op
delay_ops rf_chain delay =
    reg_wb (tx_top_tx_start_delay_msb_tx_start_delay rf_chain) (buff_of delay) ∷ []

unfoldable pub delayed_by : TxPacket → Option ℕ → Option (List Op × ℕ)
delayed_by pkt none = none
delayed_by pkt (some radio_delay) =
    let bw_hz : ℕ = elim (lgw_bw_getval pkt.bandwidth) [ some bw_hz ↦ bw_hz | none ↦ 0 ] in
    let delay = start_delay radio_delay bw_hz (chirp_lowpass pkt.datarate) in
    some (delay_ops pkt.rf_chain delay, delay)

-- The writes, and the delay.
unfoldable pub sx1302_tx_set_start_delay : RadioType → TxPacket → Option (List Op × ℕ)
sx1302_tx_set_start_delay radio_type pkt =
    if pkt.modulation == mod_lora
    then delayed_by pkt (radio_bw_delay radio_type pkt.bandwidth)
    else some ([], 0)

-- The transmit buffer, in variable mode of FSK with the size in front.
unfoldable pub buffer_ops : TxPacket → List Op
buffer_ops pkt =
    let mem_addr = reg_select pkt.rf_chain 0x5300 0x5500 in
    let bytes = take pkt.size pkt.payload in
    if pkt.modulation == mod_fsk
    then mem_wb mem_addr (pkt.size ∷ []) ∷ mem_wb (mem_addr + 1) bytes ∷ []
    else mem_wb mem_addr bytes ∷ []

unfoldable pub write_buffer : ℕ → ℕ → List Op
write_buffer rf_chain value = reg_w (tx_top_tx_ctrl_write_buffer rf_chain) (pos value) ∷ []

unfoldable pub payload_ops : TxPacket → List Op
payload_ops pkt = write_buffer pkt.rf_chain 1 ++ (buffer_ops pkt ++ write_buffer pkt.rf_chain 0)

-- The state machine is reset, and started.
unfoldable pub trigger_ops : ℕ → List Op
trigger_ops r = reg_w r (pos 0) ∷ reg_w r (pos 1) ∷ []

unfoldable pub timer_ops : ℕ → ℕ → List Op
timer_ops rf_chain count_us =
    reg_w (tx_top_timer_trig_byte0_timer_delayed_trig rf_chain) (byte_of count_us 0)
    ∷ reg_w (tx_top_timer_trig_byte1_timer_delayed_trig rf_chain) (byte_of count_us 8)
    ∷ reg_w (tx_top_timer_trig_byte2_timer_delayed_trig rf_chain) (byte_of count_us 16)
    ∷ reg_w (tx_top_timer_trig_byte3_timer_delayed_trig rf_chain) (byte_of count_us 24)
    ∷ []

unfoldable pub trigger_part : TxPacket → ℕ → Part
trigger_part pkt tx_start_delay =
    let rf_chain = pkt.rf_chain in
    let count_us = sub_u32 (u32 (pkt.count_us * 32)) tx_start_delay in
    if pkt.tx_mode == 0
    then goes_on (trigger_ops (tx_top_tx_trig_tx_trig_immediate rf_chain))
    else if pkt.tx_mode == timestamped
    then goes_on
        (timer_ops rf_chain count_us ++ trigger_ops (tx_top_tx_trig_tx_trig_delayed rf_chain))
    else if pkt.tx_mode == 2
    then goes_on (trigger_ops (tx_top_tx_trig_tx_trig_gps rf_chain))
    else stops []

unfoldable pub flush_ops : List Op
flush_ops = com_flush ∷ set_write_mode_single ∷ []

-- Behind the configuration of the modem.
unfoldable pub start_part : TxPacket → Option (List Op × ℕ) → Part
start_part pkt none = stops []
start_part pkt (some (ops, tx_start_delay)) =
    goes_on ops
    andthen (goes_on (payload_ops pkt)
        andthen (trigger_part pkt tx_start_delay andthen goes_on flush_ops))

-- Up to the modem.
unfoldable pub configure_part :
    Undefined → RadioType → TxGainLut → Bool → ConfRxif → TxPacket → Part
configure_part undef radio_type tx_lut lwan_public context_fsk pkt =
    goes_on (set_write_mode_bulk ∷ [])
    andthen (select_modem pkt
        andthen (gain_part radio_type (gain_of tx_lut pkt.rf_power) pkt.rf_chain
            andthen (goes_on (freq_ops radio_type pkt)
                andthen modem_part undef lwan_public context_fsk pkt)))

unfoldable pub sx1302_send : Undefined → RadioType → TxGainLut → Bool → ConfRxif → TxPacket → Part
sx1302_send undef radio_type tx_lut lwan_public context_fsk pkt =
    configure_part undef radio_type tx_lut lwan_public context_fsk pkt
    andthen start_part pkt (sx1302_tx_set_start_delay radio_type pkt)
