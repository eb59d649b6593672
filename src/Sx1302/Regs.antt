-- ===== src/Sx1302/Regs.antt =====
-- libloragw/inc/loragw_reg.h: the numbers of the registers that a transmission writes, by the radio chain.
use meshbeacon_uplink.Prelude.{ℕ, ◌==◌, if◌then◌else◌}

abbrev pub reg_select : ℕ → ℕ → ℕ → ℕ
reg_select rf_chain a b = if rf_chain == 0 then a else b

abbrev pub tx_top_gen_cfg_0_modulation_type : ℕ → ℕ
tx_top_gen_cfg_0_modulation_type rf_chain = reg_select rf_chain 70 178

abbrev pub tx_top_tx_rffe_if_ctrl_tx_if_src : ℕ → ℕ
tx_top_tx_rffe_if_ctrl_tx_if_src rf_chain = reg_select rf_chain 86 194

abbrev pub tx_top_tx_rffe_if_i_offset_i_offset : ℕ → ℕ
tx_top_tx_rffe_if_i_offset_i_offset rf_chain = reg_select rf_chain 90 198

abbrev pub tx_top_tx_rffe_if_q_offset_q_offset : ℕ → ℕ
tx_top_tx_rffe_if_q_offset_q_offset rf_chain = reg_select rf_chain 91 199

abbrev pub tx_top_agc_tx_pwr_agc_tx_pwr : ℕ → ℕ
tx_top_agc_tx_pwr_agc_tx_pwr rf_chain = reg_select rf_chain 76 184

abbrev pub tx_top_tx_rffe_if_iq_gain_iq_gain : ℕ → ℕ
tx_top_tx_rffe_if_iq_gain_iq_gain rf_chain = reg_select rf_chain 89 197

abbrev pub tx_top_tx_rffe_if_freq_rf_h_freq_rf : ℕ → ℕ
tx_top_tx_rffe_if_freq_rf_h_freq_rf rf_chain = reg_select rf_chain 92 200

abbrev pub tx_top_tx_rffe_if_freq_rf_m_freq_rf : ℕ → ℕ
tx_top_tx_rffe_if_freq_rf_m_freq_rf rf_chain = reg_select rf_chain 93 201

abbrev pub tx_top_tx_rffe_if_freq_rf_l_freq_rf : ℕ → ℕ
tx_top_tx_rffe_if_freq_rf_l_freq_rf rf_chain = reg_select rf_chain 94 202

abbrev pub tx_top_agc_tx_bw_agc_tx_bw : ℕ → ℕ
tx_top_agc_tx_bw_agc_tx_bw rf_chain = reg_select rf_chain 75 183

abbrev pub tx_top_tx_rffe_if_freq_dev_h_freq_dev : ℕ → ℕ
tx_top_tx_rffe_if_freq_dev_h_freq_dev rf_chain = reg_select rf_chain 95 203

abbrev pub tx_top_tx_rffe_if_freq_dev_l_freq_dev : ℕ → ℕ
tx_top_tx_rffe_if_freq_dev_l_freq_dev rf_chain = reg_select rf_chain 96 204

abbrev pub agc_mcu_mcu_mail_box_wr_data_byte2_mcu_mail_box_wr_data : ℕ
agc_mcu_mcu_mail_box_wr_data_byte2_mcu_mail_box_wr_data = 46

abbrev pub agc_mcu_mcu_mail_box_wr_data_byte1_mcu_mail_box_wr_data : ℕ
agc_mcu_mcu_mail_box_wr_data_byte1_mcu_mail_box_wr_data = 47

abbrev pub agc_mcu_mcu_mail_box_wr_data_byte0_mcu_mail_box_wr_data : ℕ
agc_mcu_mcu_mail_box_wr_data_byte0_mcu_mail_box_wr_data = 48

abbrev pub tx_top_tx_rffe_if_test_mod_freq : ℕ → ℕ
tx_top_tx_rffe_if_test_mod_freq rf_chain = reg_select rf_chain 97 205

abbrev pub tx_top_txrx_cfg0_0_modem_bw : ℕ → ℕ
tx_top_txrx_cfg0_0_modem_bw rf_chain = reg_select rf_chain 123 231

abbrev pub tx_top_txrx_cfg1_3_preamble_symb_nb : ℕ → ℕ
tx_top_txrx_cfg1_3_preamble_symb_nb rf_chain = reg_select rf_chain 141 249

abbrev pub tx_top_txrx_cfg1_2_preamble_symb_nb : ℕ → ℕ
tx_top_txrx_cfg1_2_preamble_symb_nb rf_chain = reg_select rf_chain 140 248

abbrev pub tx_top_txrx_cfg0_0_modem_sf : ℕ → ℕ
tx_top_txrx_cfg0_0_modem_sf rf_chain = reg_select rf_chain 124 232

abbrev pub tx_top_tx_cfg0_0_chirp_lowpass : ℕ → ℕ
tx_top_tx_cfg0_0_chirp_lowpass rf_chain = reg_select rf_chain 145 253

abbrev pub tx_top_txrx_cfg0_1_coding_rate : ℕ → ℕ
tx_top_txrx_cfg0_1_coding_rate rf_chain = reg_select rf_chain 128 236

abbrev pub tx_top_txrx_cfg0_2_modem_en : ℕ → ℕ
tx_top_txrx_cfg0_2_modem_en rf_chain = reg_select rf_chain 130 238

abbrev pub tx_top_txrx_cfg0_2_cadrxtx : ℕ → ℕ
tx_top_txrx_cfg0_2_cadrxtx rf_chain = reg_select rf_chain 131 239

abbrev pub tx_top_txrx_cfg1_1_modem_start : ℕ → ℕ
tx_top_txrx_cfg1_1_modem_start rf_chain = reg_select rf_chain 137 245

abbrev pub tx_top_tx_cfg0_0_continuous : ℕ → ℕ
tx_top_tx_cfg0_0_continuous rf_chain = reg_select rf_chain 149 257

abbrev pub tx_top_tx_cfg0_0_chirp_invert : ℕ → ℕ
tx_top_tx_cfg0_0_chirp_invert rf_chain = reg_select rf_chain 148 256

abbrev pub tx_top_txrx_cfg0_2_implicit_header : ℕ → ℕ
tx_top_txrx_cfg0_2_implicit_header rf_chain = reg_select rf_chain 132 240

abbrev pub tx_top_txrx_cfg0_2_crc_en : ℕ → ℕ
tx_top_txrx_cfg0_2_crc_en rf_chain = reg_select rf_chain 133 241

abbrev pub tx_top_frame_synch_0_peak1_pos : ℕ → ℕ
tx_top_frame_synch_0_peak1_pos rf_chain = reg_select rf_chain 157 265

abbrev pub tx_top_frame_synch_1_peak2_pos : ℕ → ℕ
tx_top_frame_synch_1_peak2_pos rf_chain = reg_select rf_chain 160 268

abbrev pub tx_top_txrx_cfg0_2_fine_synch_en : ℕ → ℕ
tx_top_txrx_cfg0_2_fine_synch_en rf_chain = reg_select rf_chain 129 237

abbrev pub tx_top_txrx_cfg0_3_payload_length : ℕ → ℕ
tx_top_txrx_cfg0_3_payload_length rf_chain = reg_select rf_chain 134 242

abbrev pub tx_top_txrx_cfg0_1_ppm_offset_hdr_ctrl : ℕ → ℕ
tx_top_txrx_cfg0_1_ppm_offset_hdr_ctrl rf_chain = reg_select rf_chain 125 233

abbrev pub tx_top_txrx_cfg0_1_ppm_offset : ℕ → ℕ
tx_top_txrx_cfg0_1_ppm_offset rf_chain = reg_select rf_chain 126 234

abbrev pub tx_top_fsk_cfg_0_pkt_mode : ℕ → ℕ
tx_top_fsk_cfg_0_pkt_mode rf_chain = reg_select rf_chain 104 212

abbrev pub tx_top_fsk_cfg_0_crc_en : ℕ → ℕ
tx_top_fsk_cfg_0_crc_en rf_chain = reg_select rf_chain 103 211

abbrev pub tx_top_fsk_cfg_0_crc_ibm : ℕ → ℕ
tx_top_fsk_cfg_0_crc_ibm rf_chain = reg_select rf_chain 101 209

abbrev pub tx_top_fsk_cfg_0_dcfree_enc : ℕ → ℕ
tx_top_fsk_cfg_0_dcfree_enc rf_chain = reg_select rf_chain 102 210

abbrev pub tx_top_fsk_mod_fsk_gaussian_en : ℕ → ℕ
tx_top_fsk_mod_fsk_gaussian_en rf_chain = reg_select rf_chain 113 221

abbrev pub tx_top_fsk_mod_fsk_gaussian_select_bt : ℕ → ℕ
tx_top_fsk_mod_fsk_gaussian_select_bt rf_chain = reg_select rf_chain 112 220

abbrev pub tx_top_fsk_mod_fsk_ref_pattern_en : ℕ → ℕ
tx_top_fsk_mod_fsk_ref_pattern_en rf_chain = reg_select rf_chain 111 219

abbrev pub tx_top_fsk_mod_fsk_ref_pattern_size : ℕ → ℕ
tx_top_fsk_mod_fsk_ref_pattern_size rf_chain = reg_select rf_chain 109 217

abbrev pub tx_top_fsk_ref_pattern_byte0_fsk_ref_pattern : ℕ → ℕ
tx_top_fsk_ref_pattern_byte0_fsk_ref_pattern rf_chain = reg_select rf_chain 121 229

abbrev pub tx_top_fsk_ref_pattern_byte1_fsk_ref_pattern : ℕ → ℕ
tx_top_fsk_ref_pattern_byte1_fsk_ref_pattern rf_chain = reg_select rf_chain 120 228

abbrev pub tx_top_fsk_ref_pattern_byte2_fsk_ref_pattern : ℕ → ℕ
tx_top_fsk_ref_pattern_byte2_fsk_ref_pattern rf_chain = reg_select rf_chain 119 227

abbrev pub tx_top_fsk_ref_pattern_byte3_fsk_ref_pattern : ℕ → ℕ
tx_top_fsk_ref_pattern_byte3_fsk_ref_pattern rf_chain = reg_select rf_chain 118 226

abbrev pub tx_top_fsk_ref_pattern_byte4_fsk_ref_pattern : ℕ → ℕ
tx_top_fsk_ref_pattern_byte4_fsk_ref_pattern rf_chain = reg_select rf_chain 117 225

abbrev pub tx_top_fsk_ref_pattern_byte5_fsk_ref_pattern : ℕ → ℕ
tx_top_fsk_ref_pattern_byte5_fsk_ref_pattern rf_chain = reg_select rf_chain 116 224

abbrev pub tx_top_fsk_ref_pattern_byte6_fsk_ref_pattern : ℕ → ℕ
tx_top_fsk_ref_pattern_byte6_fsk_ref_pattern rf_chain = reg_select rf_chain 115 223

abbrev pub tx_top_fsk_ref_pattern_byte7_fsk_ref_pattern : ℕ → ℕ
tx_top_fsk_ref_pattern_byte7_fsk_ref_pattern rf_chain = reg_select rf_chain 114 222

abbrev pub tx_top_fsk_mod_fsk_preamble_seq : ℕ → ℕ
tx_top_fsk_mod_fsk_preamble_seq rf_chain = reg_select rf_chain 110 218

abbrev pub tx_top_fsk_bit_rate_msb_bit_rate : ℕ → ℕ
tx_top_fsk_bit_rate_msb_bit_rate rf_chain = reg_select rf_chain 107 215

abbrev pub tx_top_fsk_preamble_size_msb_preamble_size : ℕ → ℕ
tx_top_fsk_preamble_size_msb_preamble_size rf_chain = reg_select rf_chain 105 213

abbrev pub tx_top_fsk_pkt_len_pkt_length : ℕ → ℕ
tx_top_fsk_pkt_len_pkt_length rf_chain = reg_select rf_chain 99 207

abbrev pub tx_top_tx_ctrl_write_buffer : ℕ → ℕ
tx_top_tx_ctrl_write_buffer rf_chain = reg_select rf_chain 68 176

abbrev pub tx_top_tx_trig_tx_trig_immediate : ℕ → ℕ
tx_top_tx_trig_tx_trig_immediate rf_chain = reg_select rf_chain 61 169

abbrev pub tx_top_timer_trig_byte0_timer_delayed_trig : ℕ → ℕ
tx_top_timer_trig_byte0_timer_delayed_trig rf_chain = reg_select rf_chain 65 173

abbrev pub tx_top_timer_trig_byte1_timer_delayed_trig : ℕ → ℕ
tx_top_timer_trig_byte1_timer_delayed_trig rf_chain = reg_select rf_chain 64 172

abbrev pub tx_top_timer_trig_byte2_timer_delayed_trig : ℕ → ℕ
tx_top_timer_trig_byte2_timer_delayed_trig rf_chain = reg_select rf_chain 63 171

abbrev pub tx_top_timer_trig_byte3_timer_delayed_trig : ℕ → ℕ
tx_top_timer_trig_byte3_timer_delayed_trig rf_chain = reg_select rf_chain 62 170

abbrev pub tx_top_tx_trig_tx_trig_delayed : ℕ → ℕ
tx_top_tx_trig_tx_trig_delayed rf_chain = reg_select rf_chain 60 168

abbrev pub tx_top_tx_trig_tx_trig_gps : ℕ → ℕ
tx_top_tx_trig_tx_trig_gps rf_chain = reg_select rf_chain 59 167

abbrev pub tx_top_tx_start_delay_msb_tx_start_delay : ℕ → ℕ
tx_top_tx_start_delay_msb_tx_start_delay rf_chain = reg_select rf_chain 66 174
