-- ===== src/Sx1302/Send/Configured.antt =====
-- libloragw/src/loragw_sx1302.c: `sx1302_send` up to the modem starts no transmission.
use meshbeacon_uplink.Prelude.{
  ℕ, refl, Bool, [], ◌∷◌, ◌==◌, inl, inr, Bool-cases, if_split, bit_or, u8,
}
use meshbeacon_uplink.Hal.Packet.{TxPacket}
use meshbeacon_uplink.Hal.TimeOnAir.{mod_lora, mod_fsk}
use meshbeacon_uplink.Hal.Send.{mod_cw}
use meshbeacon_uplink.Hal.Config.Types.{
  RadioType, type_none, sx1255, sx1257, sx1272, sx1276, sx1250, ConfRxif, TxGain, TxGainLut,
}
use meshbeacon_uplink.Sx1302.Ops.{
  set_write_mode_bulk, Part, goes_on, stops, ops_of, after_ops, ◌andthen◌,
}
use meshbeacon_uplink.Sx1302.Gain.{
  power_ops, power_sx1250, power_sx125x, offset_ops, digital_ops, gain_of, power_part, gain_part,
}
use meshbeacon_uplink.Sx1302.Modem.{Undefined}
use meshbeacon_uplink.Sx1302.Send.{modem_ops, bw_ops, select_modem, modem_part, configure_part}
use meshbeacon_uplink.Sx1302.Send.Quiet.{
  is_trigger, is_quiet, are_quiet, IsQuiet, append-IsQuiet, lora-IsQuiet, cw-IsQuiet, fsk-IsQuiet,
  freq-IsQuiet,
}

unfoldable pub IsQuietPart : Part → Type 0
IsQuietPart part = IsQuiet (ops_of part)

pub stops-IsQuiet : IsQuietPart (stops [])
unfolding IsQuietPart ops_of IsQuiet are_quiet
stops-IsQuiet = refl

andthen-IsQuiet :
    (part next : Part) → IsQuietPart part → IsQuietPart next → IsQuietPart (part andthen next)
unfolding IsQuietPart ops_of ◌andthen◌ after_ops
andthen-IsQuiet (goes_on ops) (goes_on more) p q = append-IsQuiet ops more p q
andthen-IsQuiet (goes_on ops) (stops more) p q = append-IsQuiet ops more p q
andthen-IsQuiet (stops ops) next p q = p

modem-IsQuiet :
    (rf_chain modulation_type tx_if_src : ℕ)
    → IsQuiet (modem_ops rf_chain modulation_type tx_if_src)
unfolding IsQuiet are_quiet is_quiet is_trigger modem_ops
modem-IsQuiet rf_chain modulation_type tx_if_src = elim (Bool-cases (rf_chain == 0)) [
  | inl e ↦ rw e refl
  | inr e ↦ rw e refl
]

select-IsQuiet : (pkt : TxPacket) → IsQuietPart (select_modem pkt)
unfolding IsQuietPart ops_of select_modem
select-IsQuiet pkt =
    if_split IsQuietPart (pkt.modulation == mod_cw) _ _ (λ _. modem-IsQuiet pkt.rf_chain 0 0)
      (λ _.
        if_split IsQuietPart (pkt.modulation == mod_lora) _ _ (λ _. modem-IsQuiet pkt.rf_chain 0 1)
          (λ _.
            if_split IsQuietPart (pkt.modulation == mod_fsk) _ _
              (λ _. modem-IsQuiet pkt.rf_chain 1 2) (λ _. stops-IsQuiet)))

power-IsQuiet : (rf_chain power : ℕ) → IsQuiet (power_ops rf_chain power)
unfolding IsQuiet are_quiet is_quiet is_trigger power_ops
power-IsQuiet rf_chain power = elim (Bool-cases (rf_chain == 0)) [
  | inl e ↦ rw e refl
  | inr e ↦ rw e refl
]

power_part-IsQuiet :
    (radio_type : RadioType) (gain : TxGain) (rf_chain : ℕ)
    → IsQuietPart (power_part radio_type gain rf_chain)
unfolding IsQuietPart ops_of power_part
power_part-IsQuiet sx1250 gain rf_chain = power-IsQuiet rf_chain (power_sx1250 gain)
power_part-IsQuiet sx1255 gain rf_chain = power-IsQuiet rf_chain (power_sx125x gain)
power_part-IsQuiet sx1257 gain rf_chain = power-IsQuiet rf_chain (power_sx125x gain)
power_part-IsQuiet sx1272 gain rf_chain = stops-IsQuiet
power_part-IsQuiet sx1276 gain rf_chain = stops-IsQuiet
power_part-IsQuiet type_none gain rf_chain = stops-IsQuiet

gain-IsQuiet :
    (radio_type : RadioType) (gain : TxGain) (rf_chain : ℕ)
    → IsQuietPart (gain_part radio_type gain rf_chain)
unfolding IsQuietPart ops_of IsQuiet are_quiet is_quiet is_trigger offset_ops digital_ops gain_part
gain-IsQuiet radio_type gain rf_chain =
    andthen-IsQuiet _ _
      (elim (Bool-cases (rf_chain == 0)) [ inl e ↦ rw e refl | inr e ↦ rw e refl ])
      (andthen-IsQuiet _ _ (power_part-IsQuiet radio_type gain rf_chain)
        (elim (Bool-cases (rf_chain == 0)) [ inl e ↦ rw e refl | inr e ↦ rw e refl ]))

bw-IsQuiet : (rf_chain mod_bw : ℕ) → IsQuiet (bw_ops rf_chain mod_bw)
unfolding IsQuiet are_quiet is_quiet is_trigger bw_ops
bw-IsQuiet rf_chain mod_bw = elim (Bool-cases (rf_chain == 0)) [
  | inl e ↦ rw e refl
  | inr e ↦ rw e refl
]

modem_part-IsQuiet :
    (undef : Undefined) (lwan_public : Bool) (context_fsk : ConfRxif) (pkt : TxPacket)
    → IsQuietPart (modem_part undef lwan_public context_fsk pkt)
unfolding IsQuietPart ops_of modem_part
modem_part-IsQuiet undef lwan_public context_fsk pkt =
    let high = u8 (bit_or 128 pkt.bandwidth) in
    if_split IsQuietPart (pkt.modulation == mod_lora) _ _
      (λ _.
        append-IsQuiet _ _ (bw-IsQuiet pkt.rf_chain pkt.bandwidth) (lora-IsQuiet lwan_public pkt))
      (λ _.
        if_split IsQuietPart (pkt.modulation == mod_cw) _ _
          (λ _. append-IsQuiet _ _ (bw-IsQuiet pkt.rf_chain high) (cw-IsQuiet undef pkt))
          (λ _.
            if_split IsQuietPart (pkt.modulation == mod_fsk) _ _
              (λ _.
                append-IsQuiet _ _ (bw-IsQuiet pkt.rf_chain high)
                  (fsk-IsQuiet undef context_fsk pkt))
              (λ _. stops-IsQuiet)))

bulk-IsQuiet : IsQuiet (set_write_mode_bulk ∷ [])
unfolding IsQuiet are_quiet is_quiet
bulk-IsQuiet = refl

pub configure-IsQuiet :
    (undef : Undefined) (radio_type : RadioType) (tx_lut : TxGainLut) (lwan_public : Bool)
    (context_fsk : ConfRxif) (pkt : TxPacket)
    → IsQuietPart (configure_part undef radio_type tx_lut lwan_public context_fsk pkt)
unfolding IsQuietPart ops_of configure_part
configure-IsQuiet undef radio_type tx_lut lwan_public context_fsk pkt =
    andthen-IsQuiet _ _ bulk-IsQuiet (
      andthen-IsQuiet _ _ (select-IsQuiet pkt) (
        andthen-IsQuiet _ _ (gain-IsQuiet radio_type (gain_of tx_lut pkt.rf_power) pkt.rf_chain) (
          andthen-IsQuiet _ _ (freq-IsQuiet radio_type pkt)
            (modem_part-IsQuiet undef lwan_public context_fsk pkt))))
