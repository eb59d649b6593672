-- ===== src/Sx1302/Gain.antt =====
-- libloragw/src/loragw_sx1302.c: `sx1302_send`, the choice of the gains for the power asked for, and their writes.
use meshbeacon_uplink.Prelude.{
  ℕ, zero, suc, ◌+◌, ◌*◌, Bool, List, [], ◌∷◌, ltb, leb, if◌then◌else◌, bit_or, u8, get_or,
}
use meshbeacon_uplink.Prelude.Int.{pos, to_int8}
use meshbeacon_uplink.Hal.Config.Types.{
  RadioType, type_none, sx1255, sx1257, sx1272, sx1276, sx1250, TxGain, TxGainLut, no_gain,
}
use meshbeacon_uplink.Sx1302.Ops.{Op, reg_w, Part, goes_on, stops, ◌andthen◌}
use meshbeacon_uplink.Sx1302.Regs.{
  tx_top_tx_rffe_if_i_offset_i_offset, tx_top_tx_rffe_if_q_offset_q_offset,
  tx_top_agc_tx_pwr_agc_tx_pwr, tx_top_tx_rffe_if_iq_gain_iq_gain,
}

-- `<=` for the patterns of two `int8_t`.
unfoldable pub is_int8_le : ℕ → ℕ → Bool
is_int8_le a b = leb (u8 (a + 128)) (u8 (b + 128))

-- `size - 1` is a `uint8_t`. The last entry but the first whose power is at most the one asked for.
unfoldable pub search_gain : ℕ → List TxGain → ℕ → ℕ
search_gain zero lut rf_power = 0
search_gain (suc pow_index) lut rf_power =
    let rest = search_gain pow_index lut rf_power in
    if is_int8_le (get_or lut (suc pow_index) no_gain).rf_power rf_power
    then suc pow_index
    else rest

unfoldable pub gain_of : TxGainLut → ℕ → TxGain
gain_of tx_lut rf_power =
    get_or tx_lut.lut (search_gain (u8 (tx_lut.size + 255)) tx_lut.lut rf_power) no_gain

unfoldable pub power_sx1250 : TxGain → ℕ
power_sx1250 gain = u8 (bit_or ((if ltb 0 gain.pa_gain then 1 else 0) * 64) gain.pwr_idx)

unfoldable pub power_sx125x : TxGain → ℕ
power_sx125x gain = u8 (bit_or (bit_or (gain.pa_gain * 64) (gain.dac_gain * 16)) gain.mix_gain)

unfoldable pub power_ops : ℕ → ℕ → List Op
power_ops rf_chain power = reg_w (tx_top_agc_tx_pwr_agc_tx_pwr rf_chain) (pos power) ∷ []

unfoldable pub power_part : RadioType → TxGain → ℕ → Part
power_part radio_type gain rf_chain = elim radio_type [
  | sx1250 ↦ goes_on (power_ops rf_chain (power_sx1250 gain))
  | sx1255 ↦ goes_on (power_ops rf_chain (power_sx125x gain))
  | sx1257 ↦ goes_on (power_ops rf_chain (power_sx125x gain))
  | sx1272 ↦ stops []
  | sx1276 ↦ stops []
  | type_none ↦ stops []
]

unfoldable pub offset_ops : TxGain → ℕ → List Op
offset_ops gain rf_chain =
    reg_w (tx_top_tx_rffe_if_i_offset_i_offset rf_chain) (to_int8 gain.offset_i)
    ∷ reg_w (tx_top_tx_rffe_if_q_offset_q_offset rf_chain) (to_int8 gain.offset_q)
    ∷ []

unfoldable pub digital_ops : TxGain → ℕ → List Op
digital_ops gain rf_chain =
    reg_w (tx_top_tx_rffe_if_iq_gain_iq_gain rf_chain) (pos gain.dig_gain) ∷ []

unfoldable pub gain_part : RadioType → TxGain → ℕ → Part
gain_part radio_type gain rf_chain =
    goes_on (offset_ops gain rf_chain)
    andthen (power_part radio_type gain rf_chain andthen goes_on (digital_ops gain rf_chain))
