-- ===== src/Hal/Send.antt =====
-- libloragw/src/loragw_hal.c: `lgw_send` and `lgw_status`, with the configuration in the context.
pub mod Cleared
pub mod Total
mod Tests
use meshbeacon_uplink.Prelude.{
  ℕ, ◌+◌, ◌&&◌, ◌||◌, not, Bool, true, false, List, [], ◌∷◌, ◌++◌, Option, none, some, leb, ltb,
  ◌==◌, if◌then◌else◌, get_or,
}
use meshbeacon_uplink.Hal.Packet.{TxPacket}
use meshbeacon_uplink.Hal.TimeOnAir.{is_lora_bw, is_lora_dr, is_lora_cr, mod_lora, mod_fsk}
use meshbeacon_uplink.Hal.Config.Types.{ConfRxrf, Context, rf_chain_nb, no_rxrf}
use meshbeacon_uplink.Hal.Config.{HalStatus, success, error, lbt_not_allowed, is_fsk_dr}
use meshbeacon_uplink.Hal.Lbt.{
  Call, ad5338r_write, sx1302_send, sx1302_tx_abort, sx1261_lbt_stop, LbtStart, started, failed,
  fault, Poll, TxStatus, status_error, status_ok, waits, lgw_lbt_start, lgw_lbt_tx_status,
}

-- What the drivers answer: whether a call succeeds, and the turns of the waiting loops.
pub record Answers : Type 0 where
  pub dac_ok : Bool
  pub rx_ok : Bool
  pub lbt_start_ok : Bool
  pub send_ok : Bool
  pub polls : List Poll
  pub lbt_stop_ok : Bool

abbrev pub mod_cw : ℕ
mod_cw = 0x08

unfoldable pub is_tx_mode : ℕ → Bool
is_tx_mode mode = mode == 0 || mode == 1 || mode == 2

-- The checks of the modulation.
unfoldable pub is_modulation_checked : TxPacket → Bool
is_modulation_checked pkt =
    if pkt.modulation == mod_lora
    then is_lora_bw pkt.bandwidth
      && is_lora_dr pkt.datarate
      && is_lora_cr pkt.coderate
      && leb pkt.size 255
    else if pkt.modulation == mod_fsk
    then leb 1 pkt.f_dev && leb pkt.f_dev 200 && is_fsk_dr pkt.datarate && leb pkt.size 255
    else pkt.modulation == mod_cw

abbrev pub radio_of : Context → ℕ → ConfRxrf
radio_of c rf_chain = get_or c.rf_chain_cfg rf_chain no_rxrf

-- The checks before the first call.
unfoldable pub is_tx_checked : Context → TxPacket → Bool
is_tx_checked c pkt =
    let radio = radio_of c pkt.rf_chain in
    c.is_started
    && ltb pkt.rf_chain rf_chain_nb
    && radio.tx_enable
    && radio.enable
    && is_tx_mode pkt.tx_mode
    && is_modulation_checked pkt

pub data SendResult : Type 0 where
  returns : HalStatus → List Call → SendResult
  send_fault : SendResult
  send_waits : SendResult

-- Behind a successful start of the sensing, with the calls made so far.
unfoldable pub finish_lbt : Answers → ℕ → List Call → TxStatus → SendResult
finish_lbt a rf_chain cs waits = send_waits
finish_lbt a rf_chain cs (status_error more) =
    returns error (cs ++ (sx1302_send ∷ more) ++ (sx1302_tx_abort rf_chain ∷ sx1261_lbt_stop ∷ []))
finish_lbt a rf_chain cs (status_ok tx_allowed more) =
    let stopped = if tx_allowed then success else lbt_not_allowed in
    returns (if a.lbt_stop_ok then stopped else error)
      (cs ++ (sx1302_send ∷ more) ++ (sx1261_lbt_stop ∷ []))

unfoldable pub send_lbt : Answers → ℕ → List Call → LbtStart → SendResult
send_lbt a rf_chain cs fault = send_fault
send_lbt a rf_chain cs (failed more) = returns error (cs ++ more)
send_lbt a rf_chain cs (started more) =
    if a.send_ok
    then finish_lbt a rf_chain (cs ++ more) (lgw_lbt_tx_status rf_chain a.polls)
    else returns error (cs ++ more ++ (sx1302_send ∷ sx1261_lbt_stop ∷ []))

-- The calls before the sensing.
unfoldable pub dac_calls : Context → List Call
dac_calls c = if c.board_cfg.full_duplex then ad5338r_write ∷ [] else []

unfoldable pub lgw_send : (TxPacket → ℕ) → Answers → Context → TxPacket → SendResult
lgw_send fsk_toa_ms a c pkt =
    if not (is_tx_checked c pkt)
    then returns error []
    else if c.board_cfg.full_duplex && not a.dac_ok
    then returns error (dac_calls c)
    else if c.sx1261_cfg.lbt_conf.enable
    then send_lbt a pkt.rf_chain (dac_calls c)
        (lgw_lbt_start fsk_toa_ms a.rx_ok a.lbt_start_ok c.sx1261_cfg pkt)
    else returns (if a.send_ok then success else error) (dac_calls c ++ (sx1302_send ∷ []))

-- `tx` and `rx` are the statuses that the chip gives. The value is what is put in `code`.
unfoldable pub lgw_status : Context → ℕ → ℕ → ℕ → ℕ → HalStatus × Option ℕ
lgw_status c rf_chain select tx rx =
    if leb rf_chain_nb rf_chain
    then (error, none)
    else if select == 1
    then (success, some (if c.is_started then tx else 1))
    else if select == 2
    then (success, some (if c.is_started then rx else 1))
    else (error, none)
