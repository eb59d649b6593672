-- ===== src/Sx1302/Modem.antt =====
-- libloragw/src/loragw_sx1302.c: `sx1302_send`, the writes that configure the modem of a transmission.
use meshbeacon_uplink.Prelude.{
  ℕ, zero, suc, ◌+◌, ◌-◌, ◌*◌, ◌/◌, ◌%◌, ◌^◌, Bool, ◌&&◌, ◌||◌, not, none, some, List, [], ◌∷◌,
  ◌++◌, ltb, leb, ◌==◌, if◌then◌else◌, u32,
}
use meshbeacon_uplink.Prelude.Int.{ℤ, pos, negsuc, ◌-ℤ◌, pos_part, neg_part, to_int8}
use meshbeacon_uplink.Hal.Packet.{TxPacket}
use meshbeacon_uplink.Hal.Config.Types.{ConfRxif}
use meshbeacon_uplink.Hal.Config.{lgw_bw_getval}
use meshbeacon_uplink.Sx1302.Ops.{Op, reg_w, reg_wb}
use meshbeacon_uplink.Sx1302.Regs.{
  tx_top_tx_rffe_if_freq_dev_h_freq_dev, tx_top_tx_rffe_if_freq_dev_l_freq_dev,
  agc_mcu_mcu_mail_box_wr_data_byte2_mcu_mail_box_wr_data,
  agc_mcu_mcu_mail_box_wr_data_byte1_mcu_mail_box_wr_data,
  agc_mcu_mcu_mail_box_wr_data_byte0_mcu_mail_box_wr_data, tx_top_tx_rffe_if_test_mod_freq,
  tx_top_txrx_cfg0_0_modem_bw, tx_top_txrx_cfg1_3_preamble_symb_nb,
  tx_top_txrx_cfg1_2_preamble_symb_nb, tx_top_txrx_cfg0_0_modem_sf, tx_top_tx_cfg0_0_chirp_lowpass,
  tx_top_txrx_cfg0_1_coding_rate, tx_top_txrx_cfg0_2_modem_en, tx_top_txrx_cfg0_2_cadrxtx,
  tx_top_txrx_cfg1_1_modem_start, tx_top_tx_cfg0_0_continuous, tx_top_tx_cfg0_0_chirp_invert,
  tx_top_txrx_cfg0_2_implicit_header, tx_top_txrx_cfg0_2_crc_en, tx_top_frame_synch_0_peak1_pos,
  tx_top_frame_synch_1_peak2_pos, tx_top_txrx_cfg0_2_fine_synch_en,
  tx_top_txrx_cfg0_3_payload_length, tx_top_txrx_cfg0_1_ppm_offset_hdr_ctrl,
  tx_top_txrx_cfg0_1_ppm_offset, tx_top_fsk_cfg_0_pkt_mode, tx_top_fsk_cfg_0_crc_en,
  tx_top_fsk_cfg_0_crc_ibm, tx_top_fsk_cfg_0_dcfree_enc, tx_top_fsk_mod_fsk_gaussian_en,
  tx_top_fsk_mod_fsk_gaussian_select_bt, tx_top_fsk_mod_fsk_ref_pattern_en,
  tx_top_fsk_mod_fsk_ref_pattern_size, tx_top_fsk_ref_pattern_byte0_fsk_ref_pattern,
  tx_top_fsk_ref_pattern_byte1_fsk_ref_pattern, tx_top_fsk_ref_pattern_byte2_fsk_ref_pattern,
  tx_top_fsk_ref_pattern_byte3_fsk_ref_pattern, tx_top_fsk_ref_pattern_byte4_fsk_ref_pattern,
  tx_top_fsk_ref_pattern_byte5_fsk_ref_pattern, tx_top_fsk_ref_pattern_byte6_fsk_ref_pattern,
  tx_top_fsk_ref_pattern_byte7_fsk_ref_pattern, tx_top_fsk_mod_fsk_preamble_seq,
  tx_top_fsk_bit_rate_msb_bit_rate, tx_top_fsk_preamble_size_msb_preamble_size,
  tx_top_fsk_pkt_len_pkt_length,
}

abbrev pub min_lora_preamble : ℕ
min_lora_preamble = 6

abbrev pub std_lora_preamble : ℕ
std_lora_preamble = 8

abbrev pub min_fsk_preamble : ℕ
min_fsk_preamble = 3

abbrev pub std_fsk_preamble : ℕ
std_fsk_preamble = 5

unfoldable pub freq_to_reg : ℕ → ℕ
freq_to_reg f = u32 (f * 2 ^ 18 / 32000000)

unfoldable pub sx1250_freq_to_reg : ℕ → ℕ
sx1250_freq_to_reg f = u32 (f * 2 ^ 25 / 32000000)

-- `(x >> k) & 0xFF`, for a multiple `k` of 8.
unfoldable pub byte_of : ℕ → ℕ → ℤ
byte_of x k = pos (x / 2 ^ k % 256)

unfoldable pub freq_dev_ops : ℕ → ℕ → List Op
freq_dev_ops rf_chain freq_dev =
    let fdev_reg = freq_to_reg freq_dev in
    reg_w (tx_top_tx_rffe_if_freq_dev_h_freq_dev rf_chain) (byte_of fdev_reg 8)
    ∷ reg_w (tx_top_tx_rffe_if_freq_dev_l_freq_dev rf_chain) (byte_of fdev_reg 0)
    ∷ []

-- The deviation for the firmware of the AGC, which configures the sx1250.
unfoldable pub mail_box_ops : ℕ → List Op
mail_box_ops freq_dev =
    let fdev_reg = sx1250_freq_to_reg freq_dev in
    reg_w agc_mcu_mcu_mail_box_wr_data_byte2_mcu_mail_box_wr_data (byte_of fdev_reg 16)
    ∷ reg_w agc_mcu_mcu_mail_box_wr_data_byte1_mcu_mail_box_wr_data (byte_of fdev_reg 8)
    ∷ reg_w agc_mcu_mcu_mail_box_wr_data_byte0_mcu_mail_box_wr_data (byte_of fdev_reg 0)
    ∷ []

-- What C leaves undefined: 0 / 0 as an `int`, and a 64-bit number shifted by a negative count, or by 64 and more, of
-- which the number and the size of the sync word are given.
pub record Undefined : Type 0 where
  pub nan_int : ℤ
  pub wide_shift : ℕ → ℕ → ℕ

-- `freq_offset * 1e3 * 64 / freq_dev`, cut off. For an offset of 0 that is 0 / 0, and what C makes of it as an `int` is
-- undefined: `nan_int`.
unfoldable pub test_mod_freq : ℤ → ℤ → ℕ → ℤ
test_mod_freq nan_int (pos zero) freq_dev = nan_int
test_mod_freq nan_int (pos (suc n)) freq_dev = pos (suc n * 64000 / freq_dev)
test_mod_freq nan_int (negsuc n) freq_dev = pos 0 -ℤ pos (suc n * 64000 / freq_dev)

-- A continuous wave. The deviation is the offset in units of 10 kHz, rounded up.
unfoldable pub cw_ops : Undefined → TxPacket → List Op
cw_ops undef pkt =
    let rf_chain = pkt.rf_chain in
    let offset = to_int8 pkt.freq_offset in
    let freq_dev = (pos_part offset + neg_part offset + 9) / 10 * 10000 in
    freq_dev_ops rf_chain freq_dev
    ++ (mail_box_ops freq_dev
        ++ reg_w (tx_top_tx_rffe_if_test_mod_freq rf_chain)
            (test_mod_freq undef.nan_int offset freq_dev)
          ∷ [])

unfoldable pub flag : Bool → ℤ
flag b = pos (if b then 1 else 0)

unfoldable pub lora_preamble : ℕ → ℕ
lora_preamble preamble =
    if preamble == 0
    then std_lora_preamble
    else if ltb preamble min_lora_preamble
    then min_lora_preamble
    else preamble

unfoldable pub set_ppm_on : ℕ → ℕ → Bool
set_ppm_on bw dr = (bw == 0x04 && (dr == 11 || dr == 12)) || (bw == 0x05 && dr == 12)

unfoldable pub chirp_lowpass : ℕ → ℕ
chirp_lowpass datarate = if ltb datarate 10 then 6 else 7

unfoldable pub syncword_ops : Bool → TxPacket → List Op
syncword_ops lwan_public pkt =
    if not lwan_public || (pkt.datarate == 5) || (pkt.datarate == 6)
    then reg_w (tx_top_frame_synch_0_peak1_pos pkt.rf_chain) (pos 2)
      ∷ reg_w (tx_top_frame_synch_1_peak2_pos pkt.rf_chain) (pos 4)
      ∷ []
    else reg_w (tx_top_frame_synch_0_peak1_pos pkt.rf_chain) (pos 6)
      ∷ reg_w (tx_top_frame_synch_1_peak2_pos pkt.rf_chain) (pos 8)
      ∷ []

-- The modem, up to the options.
unfoldable pub lora_modem_ops : TxPacket → List Op
lora_modem_ops pkt =
    let rf_chain = pkt.rf_chain in
    let preamble = lora_preamble pkt.preamble in
    reg_w (tx_top_txrx_cfg0_0_modem_bw rf_chain) (pos pkt.bandwidth)
    ∷ reg_w (tx_top_txrx_cfg1_3_preamble_symb_nb rf_chain) (byte_of preamble 8)
    ∷ reg_w (tx_top_txrx_cfg1_2_preamble_symb_nb rf_chain) (byte_of preamble 0)
    ∷ reg_w (tx_top_txrx_cfg0_0_modem_sf rf_chain) (pos pkt.datarate)
    ∷ reg_w (tx_top_tx_cfg0_0_chirp_lowpass rf_chain) (pos (chirp_lowpass pkt.datarate))
    ∷ reg_w (tx_top_txrx_cfg0_1_coding_rate rf_chain) (pos pkt.coderate)
    ∷ reg_w (tx_top_txrx_cfg0_2_modem_en rf_chain) (pos 1)
    ∷ reg_w (tx_top_txrx_cfg0_2_cadrxtx rf_chain) (pos 2)
    ∷ reg_w (tx_top_txrx_cfg1_1_modem_start rf_chain) (pos 1)
    ∷ reg_w (tx_top_tx_cfg0_0_continuous rf_chain) (pos 0)
    ∷ reg_w (tx_top_tx_cfg0_0_chirp_invert rf_chain) (flag pkt.invert_pol)
    ∷ reg_w (tx_top_txrx_cfg0_2_implicit_header rf_chain) (flag pkt.no_header)
    ∷ reg_w (tx_top_txrx_cfg0_2_crc_en rf_chain) (flag (not pkt.no_crc))
    ∷ []

-- Behind the sync word.
unfoldable pub lora_packet_ops : TxPacket → List Op
lora_packet_ops pkt =
    let rf_chain = pkt.rf_chain in
    reg_w (tx_top_txrx_cfg0_2_fine_synch_en rf_chain)
      (flag ((pkt.datarate == 5) || (pkt.datarate == 6)))
    ∷ reg_w (tx_top_txrx_cfg0_3_payload_length rf_chain) (pos pkt.size)
    ∷ reg_w (tx_top_txrx_cfg0_1_ppm_offset_hdr_ctrl rf_chain) (pos 0)
    ∷ reg_w (tx_top_txrx_cfg0_1_ppm_offset rf_chain) (flag (set_ppm_on pkt.bandwidth pkt.datarate))
    ∷ []

unfoldable pub lora_ops : Bool → TxPacket → List Op
lora_ops lwan_public pkt =
    let freq_dev : ℕ = elim (lgw_bw_getval pkt.bandwidth) [ some bw_hz ↦ bw_hz / 2 | none ↦ 0 ] in
    freq_dev_ops pkt.rf_chain freq_dev
    ++ (lora_modem_ops pkt ++ (syncword_ops lwan_public pkt ++ lora_packet_ops pkt))

unfoldable pub fsk_preamble : ℕ → ℕ
fsk_preamble preamble =
    if preamble == 0
    then std_fsk_preamble
    else if ltb preamble min_fsk_preamble
    then min_fsk_preamble
    else preamble

-- `x` as two bytes, the high one first.
unfoldable pub buff_of : ℕ → List ℕ
buff_of x = (x / 256 % 256) ∷ (x % 256) ∷ []

-- The sync word, in the upper bytes of 64 bits.
unfoldable pub shift_sync_word : Undefined → ℕ → ℕ → ℕ
shift_sync_word undef sync_word sync_word_size =
    if ltb 0 sync_word_size && leb sync_word_size 8
    then sync_word * 2 ^ (8 * (8 - sync_word_size)) % 2 ^ 64
    else undef.wide_shift sync_word sync_word_size

-- The data rate is not 0, which `lgw_send` has checked.
unfoldable pub fsk_ops : Undefined → ConfRxif → TxPacket → List Op
fsk_ops undef context_fsk pkt =
    let rf_chain = pkt.rf_chain in
    let freq_dev = pkt.f_dev * 1000 in
    let sync_word_size = context_fsk.sync_word_size in
    let fsk_sync_word_reg = shift_sync_word undef context_fsk.sync_word sync_word_size in
    freq_dev_ops rf_chain freq_dev
    ++ (mail_box_ops freq_dev
        ++ (reg_w (tx_top_fsk_cfg_0_pkt_mode rf_chain) (pos 1)
            ∷ reg_w (tx_top_fsk_cfg_0_crc_en rf_chain) (flag (not pkt.no_crc))
            ∷ reg_w (tx_top_fsk_cfg_0_crc_ibm rf_chain) (pos 0)
            ∷ reg_w (tx_top_fsk_cfg_0_dcfree_enc rf_chain) (pos 2)
            ∷ reg_w (tx_top_fsk_mod_fsk_gaussian_en rf_chain) (pos 1)
            ∷ reg_w (tx_top_fsk_mod_fsk_gaussian_select_bt rf_chain) (pos 2)
            ∷ reg_w (tx_top_fsk_mod_fsk_ref_pattern_en rf_chain) (pos 1)
            ∷ reg_w (tx_top_fsk_mod_fsk_ref_pattern_size rf_chain) (pos sync_word_size -ℤ pos 1)
            ∷ reg_w (tx_top_fsk_ref_pattern_byte0_fsk_ref_pattern rf_chain)
                (byte_of fsk_sync_word_reg 0)
            ∷ reg_w (tx_top_fsk_ref_pattern_byte1_fsk_ref_pattern rf_chain)
                (byte_of fsk_sync_word_reg 8)
            ∷ reg_w (tx_top_fsk_ref_pattern_byte2_fsk_ref_pattern rf_chain)
                (byte_of fsk_sync_word_reg 16)
            ∷ reg_w (tx_top_fsk_ref_pattern_byte3_fsk_ref_pattern rf_chain)
                (byte_of fsk_sync_word_reg 24)
            ∷ reg_w (tx_top_fsk_ref_pattern_byte4_fsk_ref_pattern rf_chain)
                (byte_of fsk_sync_word_reg 32)
            ∷ reg_w (tx_top_fsk_ref_pattern_byte5_fsk_ref_pattern rf_chain)
                (byte_of fsk_sync_word_reg 40)
            ∷ reg_w (tx_top_fsk_ref_pattern_byte6_fsk_ref_pattern rf_chain)
                (byte_of fsk_sync_word_reg 48)
            ∷ reg_w (tx_top_fsk_ref_pattern_byte7_fsk_ref_pattern rf_chain)
                (byte_of fsk_sync_word_reg 56)
            ∷ reg_w (tx_top_fsk_mod_fsk_preamble_seq rf_chain) (pos 0)
            ∷ reg_wb (tx_top_fsk_bit_rate_msb_bit_rate rf_chain) (buff_of (32000000 / pkt.datarate))
            ∷ reg_wb (tx_top_fsk_preamble_size_msb_preamble_size rf_chain)
                (buff_of (fsk_preamble pkt.preamble))
            ∷ reg_w (tx_top_fsk_pkt_len_pkt_length rf_chain) (pos pkt.size)
            ∷ []))
