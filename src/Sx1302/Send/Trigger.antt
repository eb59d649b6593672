-- ===== src/Sx1302/Send/Trigger.antt =====
-- libloragw/src/loragw_sx1302.c: when `sx1302_send` triggers a transmission.
use meshbeacon_uplink.Prelude.{
  ℕ, ◌≡◌, refl, sym, ap, ◌∙◌, Bool, Option, none, some, List, [], ◌∷◌, ◌++◌, ◌==◌, true, false,
  subst, if_split, if◌then◌else◌,
}
use meshbeacon_uplink.Prelude.Int.{pos}
use meshbeacon_uplink.Hal.Packet.{TxPacket, timestamped}
use meshbeacon_uplink.Hal.TimeOnAir.{mod_lora}
use meshbeacon_uplink.Hal.Config.Types.{RadioType, ConfRxif, TxGainLut}
use meshbeacon_uplink.Sx1302.Ops.{
  Op, reg_w, com_flush, set_write_mode_single, Part, goes_on, stops, ops_of, after_ops, ◌andthen◌,
}
use meshbeacon_uplink.Sx1302.Modem.{Undefined}
use meshbeacon_uplink.Sx1302.Send.{
  payload_ops, trigger_ops, trigger_part, flush_ops, delayed_by, sx1302_tx_set_start_delay,
  radio_bw_delay, start_part, sx1302_send,
}
use meshbeacon_uplink.Sx1302.Send.Quiet.{
  are_quiet, IsQuiet, append-IsQuiet, payload-IsQuiet, delay-IsQuiet, timer-IsQuiet,
}
use meshbeacon_uplink.Sx1302.Send.Configured.{IsQuietPart, configure-IsQuiet}
use meshbeacon_uplink.Sx1302.Regs.{
  tx_top_tx_trig_tx_trig_immediate, tx_top_tx_trig_tx_trig_delayed, tx_top_tx_trig_tx_trig_gps,
}

-- The register that starts the transmission of a packet.
unfoldable pub trigger_of : TxPacket → ℕ
trigger_of pkt =
    if pkt.tx_mode == 0
    then tx_top_tx_trig_tx_trig_immediate pkt.rf_chain
    else if pkt.tx_mode == timestamped
    then tx_top_tx_trig_tx_trig_delayed pkt.rf_chain
    else tx_top_tx_trig_tx_trig_gps pkt.rf_chain

-- The trigger comes last, behind writes that start nothing.
unfoldable pub EndsByTrigger : TxPacket → List Op → Type 0
EndsByTrigger pkt ops =
    (timing : List Op) × IsQuiet timing
    × (ops
        ≡ timing
          ++ (reg_w (trigger_of pkt) (pos 0)
              ∷ reg_w (trigger_of pkt) (pos 1)
              ∷ com_flush
              ∷ set_write_mode_single
              ∷ []))

-- The payload comes in front of the trigger.
unfoldable pub IsTriggered : TxPacket → List Op → Type 0
IsTriggered pkt ops =
    (before : List Op) × (after : List Op) × IsQuiet before
    × EndsByTrigger pkt after
    × (ops ≡ before ++ (payload_ops pkt ++ after))

-- Of the writes that a packet leads to.
unfoldable pub TriggersOnce : TxPacket → Part → Type 0
TriggersOnce pkt (goes_on ops) = IsTriggered pkt ops
TriggersOnce pkt (stops ops) = IsQuiet ops

unfoldable TriggersLast : TxPacket → Part → Type 0
TriggersLast pkt (goes_on ops) = EndsByTrigger pkt ops
TriggersLast pkt (stops ops) = IsQuiet ops

empty-IsQuiet : IsQuiet []
unfolding IsQuiet are_quiet
empty-IsQuiet = refl

append_assoc : (xs ys zs : List Op) → (xs ++ ys) ++ zs ≡ xs ++ (ys ++ zs)
append_assoc [] ys zs = refl
append_assoc (x ∷ xs) ys zs = ap (λ l. x ∷ l) (append_assoc xs ys zs)

part-TriggersOnce :
    (pkt : TxPacket) (part next : Part)
    → IsQuietPart part
    → TriggersOnce pkt next
    → TriggersOnce pkt (part andthen next)
unfolding IsQuietPart ops_of TriggersOnce IsTriggered ◌andthen◌ after_ops
part-TriggersOnce pkt (stops ops) next quiet h = quiet
part-TriggersOnce pkt (goes_on ops) (stops more) quiet h = append-IsQuiet ops more quiet h
part-TriggersOnce pkt (goes_on ops) (goes_on more) quiet (before, after, silent, ends, e) = (
  ops ++ before,
  after,
  append-IsQuiet ops before quiet silent,
  ends,
  ap (λ l. ops ++ l) e ∙ sym (append_assoc ops before (payload_ops pkt ++ after)),
)

payload-TriggersOnce :
    (pkt : TxPacket) (next : Part)
    → TriggersLast pkt next
    → TriggersOnce pkt (goes_on (payload_ops pkt) andthen next)
unfolding TriggersOnce IsTriggered TriggersLast ◌andthen◌ after_ops
payload-TriggersOnce pkt (stops ops) h = append-IsQuiet _ _ (payload-IsQuiet pkt) h
payload-TriggersOnce pkt (goes_on ops) h = ([], ops, empty-IsQuiet, h, refl)

ends-EndsByTrigger :
    (pkt : TxPacket) (timing : List Op) (r : ℕ)
    → IsQuiet timing
    → trigger_of pkt ≡ r
    → EndsByTrigger pkt (timing ++ (trigger_ops r ++ flush_ops))
unfolding EndsByTrigger trigger_ops flush_ops
ends-EndsByTrigger pkt timing r quiet e =
    (timing, quiet, ap (λ t. timing ++ (trigger_ops t ++ flush_ops)) (sym e))

module _ (pkt : TxPacket) where
  trigger_immediate :
      (pkt.tx_mode == 0) ≡ true → trigger_of pkt ≡ tx_top_tx_trig_tx_trig_immediate pkt.rf_chain
  unfolding trigger_of
  trigger_immediate e = rw e refl

  trigger_delayed :
      (pkt.tx_mode == 0) ≡ false
      → (pkt.tx_mode == timestamped) ≡ true
      → trigger_of pkt ≡ tx_top_tx_trig_tx_trig_delayed pkt.rf_chain
  unfolding trigger_of
  trigger_delayed e f = rw e (rw f refl)

  trigger_gps :
      (pkt.tx_mode == 0) ≡ false
      → (pkt.tx_mode == timestamped) ≡ false
      → trigger_of pkt ≡ tx_top_tx_trig_tx_trig_gps pkt.rf_chain
  unfolding trigger_of
  trigger_gps e f = rw e (rw f refl)

flush-TriggersLast :
    (pkt : TxPacket) (timing : List Op) (r : ℕ)
    → IsQuiet timing
    → trigger_of pkt ≡ r
    → TriggersLast pkt (goes_on (timing ++ trigger_ops r) andthen goes_on flush_ops)
unfolding TriggersLast ◌andthen◌ after_ops
flush-TriggersLast pkt timing r quiet e =
    subst (EndsByTrigger pkt) (sym (append_assoc timing (trigger_ops r) flush_ops))
      (ends-EndsByTrigger pkt timing r quiet e)

none-TriggersLast : (pkt : TxPacket) → TriggersLast pkt (stops [] andthen goes_on flush_ops)
unfolding TriggersLast ◌andthen◌
none-TriggersLast pkt = empty-IsQuiet

trigger-TriggersLast :
    (pkt : TxPacket) (delay : ℕ)
    → TriggersLast pkt (trigger_part pkt delay andthen goes_on flush_ops)
unfolding trigger_part
trigger-TriggersLast pkt delay =
    let P = λ (part : Part). TriggersLast pkt (part andthen goes_on flush_ops) in
    if_split P (pkt.tx_mode == 0) _ _
      (λ e. flush-TriggersLast pkt [] _ empty-IsQuiet (trigger_immediate pkt e))
      (λ e.
        if_split P (pkt.tx_mode == timestamped) _ _
          (λ f. flush-TriggersLast pkt _ _ (timer-IsQuiet pkt.rf_chain _) (trigger_delayed pkt e f))
          (λ f.
            if_split P (pkt.tx_mode == 2) _ _
              (λ g. flush-TriggersLast pkt [] _ empty-IsQuiet (trigger_gps pkt e f))
              (λ g. none-TriggersLast pkt)))

-- Behind the configuration, with the delay set.
delay-TriggersOnce :
    (pkt : TxPacket) (ops : List Op) (delay : ℕ)
    → IsQuiet ops
    → TriggersOnce pkt (start_part pkt (some (ops, delay)))
unfolding start_part IsQuietPart ops_of
delay-TriggersOnce pkt ops delay quiet =
    part-TriggersOnce pkt (goes_on ops) _ quiet
      (payload-TriggersOnce pkt _ (trigger-TriggersLast pkt delay))

delayed-TriggersOnce :
    (pkt : TxPacket) (radio_delay : Option ℕ)
    → TriggersOnce pkt (start_part pkt (delayed_by pkt radio_delay))
unfolding delayed_by start_part TriggersOnce
delayed-TriggersOnce pkt none = empty-IsQuiet
delayed-TriggersOnce pkt (some radio_delay) =
    delay-TriggersOnce pkt _ _ (delay-IsQuiet pkt.rf_chain _)

start-TriggersOnce :
    (radio_type : RadioType) (pkt : TxPacket)
    → TriggersOnce pkt (start_part pkt (sx1302_tx_set_start_delay radio_type pkt))
unfolding sx1302_tx_set_start_delay
start-TriggersOnce radio_type pkt =
    if_split (λ delayed. TriggersOnce pkt (start_part pkt delayed)) (pkt.modulation == mod_lora) _ _
      (λ _. delayed-TriggersOnce pkt (radio_bw_delay radio_type pkt.bandwidth))
      (λ _. delay-TriggersOnce pkt [] 0 empty-IsQuiet)

-- Where the writes succeed, sx1302_send either reports an error and has made no write that starts a transmission or ends
-- the bulk mode. Or it writes the payload to the transmit buffer, before it nothing that starts a transmission, and
-- last the trigger of the packet's mode and chain, 0 and then 1, the flush and the return to single writes; between the
-- payload and the trigger it starts nothing.
pub sx1302_send-TriggersOnce :
    (undef : Undefined) (radio_type : RadioType) (tx_lut : TxGainLut) (lwan_public : Bool)
    (context_fsk : ConfRxif) (pkt : TxPacket)
    → TriggersOnce pkt (sx1302_send undef radio_type tx_lut lwan_public context_fsk pkt)
unfolding sx1302_send
sx1302_send-TriggersOnce undef radio_type tx_lut lwan_public context_fsk pkt =
    part-TriggersOnce pkt _ _
      (configure-IsQuiet undef radio_type tx_lut lwan_public context_fsk pkt)
      (start-TriggersOnce radio_type pkt)
