-- ===== src/Sx1302/Send/Quiet.antt =====
-- libloragw/src/loragw_sx1302.c: the writes of `sx1302_send` that start no transmission.
use meshbeacon_uplink.Prelude.{
  ℕ, ◌≡◌, refl, ap₂, Bool, true, false, ◌&&◌, ◌||◌, not, List, [], ◌∷◌, ◌++◌, ◌==◌, inl, inr,
  Bool-cases, and_split, if_split,
}
use meshbeacon_uplink.Hal.Packet.{TxPacket}
use meshbeacon_uplink.Hal.TimeOnAir.{mod_fsk}
use meshbeacon_uplink.Hal.Config.Types.{RadioType, ConfRxif}
use meshbeacon_uplink.Sx1302.Ops.{
  Op, reg_w, reg_wb, mem_wb, set_write_mode_bulk, set_write_mode_single, com_flush,
}
use meshbeacon_uplink.Sx1302.Modem.{
  Undefined, lora_modem_ops, lora_packet_ops, lora_ops, cw_ops, fsk_ops, freq_dev_ops, mail_box_ops,
  syncword_ops,
}
use meshbeacon_uplink.Sx1302.Send.{
  delay_ops, timer_ops, freq_ops, buffer_ops, write_buffer, payload_ops,
}
use meshbeacon_uplink.Sx1302.Regs.{
  tx_top_tx_trig_tx_trig_immediate, tx_top_tx_trig_tx_trig_delayed, tx_top_tx_trig_tx_trig_gps,
}

-- One of the registers that start a transmission, of the chain A or B.
unfoldable pub is_trigger : ℕ → Bool
is_trigger r =
    (r == tx_top_tx_trig_tx_trig_immediate 0)
    || ((r == tx_top_tx_trig_tx_trig_delayed 0)
        || ((r == tx_top_tx_trig_tx_trig_gps 0)
            || ((r == tx_top_tx_trig_tx_trig_immediate 1)
                || ((r == tx_top_tx_trig_tx_trig_delayed 1)
                    || (r == tx_top_tx_trig_tx_trig_gps 1)))))

-- A write that starts no transmission, and neither flushes nor ends the bulk mode.
unfoldable pub is_quiet : Op → Bool
is_quiet (reg_w r v) = not (is_trigger r)
is_quiet (reg_wb r bytes) = not (is_trigger r)
is_quiet (mem_wb addr bytes) = true
is_quiet set_write_mode_bulk = true
is_quiet set_write_mode_single = false
is_quiet com_flush = false

unfoldable pub are_quiet : List Op → Bool
are_quiet [] = true
are_quiet (op ∷ ops) = is_quiet op && are_quiet ops

unfoldable pub IsQuiet : List Op → Type 0
IsQuiet ops = are_quiet ops ≡ true

pub append-IsQuiet : (xs ys : List Op) → IsQuiet xs → IsQuiet ys → IsQuiet (xs ++ ys)
unfolding IsQuiet are_quiet
append-IsQuiet [] ys p q = q
append-IsQuiet (x ∷ xs) ys p q =
    let (here, behind) = and_split (is_quiet x) (are_quiet xs) p in
    ap₂ ◌&&◌ here (append-IsQuiet xs ys behind q)

freq_dev-IsQuiet : (rf_chain freq_dev : ℕ) → IsQuiet (freq_dev_ops rf_chain freq_dev)
unfolding IsQuiet are_quiet is_quiet is_trigger freq_dev_ops
freq_dev-IsQuiet rf_chain freq_dev = elim (Bool-cases (rf_chain == 0)) [
  | inl e ↦ rw e refl
  | inr e ↦ rw e refl
]

syncword-IsQuiet : (lwan_public : Bool) (pkt : TxPacket) → IsQuiet (syncword_ops lwan_public pkt)
unfolding IsQuiet are_quiet is_quiet is_trigger syncword_ops
syncword-IsQuiet lwan_public pkt =
    if_split IsQuiet (not lwan_public || (pkt.datarate == 5) || (pkt.datarate == 6)) _ _
      (λ _. elim (Bool-cases (pkt.rf_chain == 0)) [ inl e ↦ rw e refl | inr e ↦ rw e refl ])
      (λ _. elim (Bool-cases (pkt.rf_chain == 0)) [ inl e ↦ rw e refl | inr e ↦ rw e refl ])

lora_modem-IsQuiet : (pkt : TxPacket) → IsQuiet (lora_modem_ops pkt)
unfolding IsQuiet are_quiet is_quiet is_trigger lora_modem_ops
lora_modem-IsQuiet pkt = elim (Bool-cases (pkt.rf_chain == 0)) [
  | inl e ↦ rw e refl
  | inr e ↦ rw e refl
]

lora_packet-IsQuiet : (pkt : TxPacket) → IsQuiet (lora_packet_ops pkt)
unfolding IsQuiet are_quiet is_quiet is_trigger lora_packet_ops
lora_packet-IsQuiet pkt = elim (Bool-cases (pkt.rf_chain == 0)) [
  | inl e ↦ rw e refl
  | inr e ↦ rw e refl
]

pub lora-IsQuiet : (lwan_public : Bool) (pkt : TxPacket) → IsQuiet (lora_ops lwan_public pkt)
unfolding lora_ops
lora-IsQuiet lwan_public pkt = append-IsQuiet _ _ (freq_dev-IsQuiet pkt.rf_chain _) (
    append-IsQuiet _ _ (lora_modem-IsQuiet pkt)
      (append-IsQuiet _ _ (syncword-IsQuiet lwan_public pkt) (lora_packet-IsQuiet pkt)))

pub cw-IsQuiet : (undef : Undefined) (pkt : TxPacket) → IsQuiet (cw_ops undef pkt)
unfolding IsQuiet are_quiet is_quiet is_trigger cw_ops freq_dev_ops mail_box_ops
cw-IsQuiet undef pkt = elim (Bool-cases (pkt.rf_chain == 0)) [
  | inl e ↦ rw e refl
  | inr e ↦ rw e refl
]

pub fsk-IsQuiet :
    (undef : Undefined) (context_fsk : ConfRxif) (pkt : TxPacket)
    → IsQuiet (fsk_ops undef context_fsk pkt)
unfolding IsQuiet are_quiet is_quiet is_trigger fsk_ops freq_dev_ops mail_box_ops
fsk-IsQuiet undef context_fsk pkt = elim (Bool-cases (pkt.rf_chain == 0)) [
  | inl e ↦ rw e refl
  | inr e ↦ rw e refl
]

pub freq-IsQuiet : (radio_type : RadioType) (pkt : TxPacket) → IsQuiet (freq_ops radio_type pkt)
unfolding IsQuiet are_quiet is_quiet is_trigger freq_ops
freq-IsQuiet radio_type pkt = elim (Bool-cases (pkt.rf_chain == 0)) [
  | inl e ↦ rw e refl
  | inr e ↦ rw e refl
]

write_buffer-IsQuiet : (rf_chain value : ℕ) → IsQuiet (write_buffer rf_chain value)
unfolding IsQuiet are_quiet is_quiet is_trigger write_buffer
write_buffer-IsQuiet rf_chain value = elim (Bool-cases (rf_chain == 0)) [
  | inl e ↦ rw e refl
  | inr e ↦ rw e refl
]

buffer-IsQuiet : (pkt : TxPacket) → IsQuiet (buffer_ops pkt)
unfolding IsQuiet are_quiet is_quiet buffer_ops
buffer-IsQuiet pkt = if_split IsQuiet (pkt.modulation == mod_fsk) _ _ (λ _. refl) (λ _. refl)

pub payload-IsQuiet : (pkt : TxPacket) → IsQuiet (payload_ops pkt)
unfolding payload_ops
payload-IsQuiet pkt =
    append-IsQuiet _ _ (write_buffer-IsQuiet pkt.rf_chain 1)
      (append-IsQuiet _ _ (buffer-IsQuiet pkt) (write_buffer-IsQuiet pkt.rf_chain 0))

pub delay-IsQuiet : (rf_chain delay : ℕ) → IsQuiet (delay_ops rf_chain delay)
unfolding IsQuiet are_quiet is_quiet is_trigger delay_ops
delay-IsQuiet rf_chain delay = elim (Bool-cases (rf_chain == 0)) [
  | inl e ↦ rw e refl
  | inr e ↦ rw e refl
]

pub timer-IsQuiet : (rf_chain count_us : ℕ) → IsQuiet (timer_ops rf_chain count_us)
unfolding IsQuiet are_quiet is_quiet is_trigger timer_ops
timer-IsQuiet rf_chain count_us = elim (Bool-cases (rf_chain == 0)) [
  | inl e ↦ rw e refl
  | inr e ↦ rw e refl
]
