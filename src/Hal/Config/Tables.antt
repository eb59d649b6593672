-- ===== src/Hal/Config/Tables.antt =====
-- libloragw/src/loragw_hal.c: `lgw_txgain_setconf`, `lgw_ftime_setconf` and `lgw_sx1261_setconf`, which do not
-- look whether the concentrator is running. Writes behind an array are a result of their own.
use meshbeacon_uplink.Prelude.{
  ℕ, zero, suc, ◌&&◌, ◌||◌, Bool, List, Option, none, some, leb, ltb, ◌==◌, if◌then◌else◌, set,
  get_or,
}
use meshbeacon_uplink.Hal.Config.Types.{
  TxGain, TxGainLut, ConfFtime, ConfChanLbt, ConfSx1261, Context, rf_chain_nb, tx_gain_lut_size_max,
  lbt_channel_nb_max, no_gain, no_lut, no_channel,
}
use meshbeacon_uplink.Hal.Config.{Outcome, returns, fault, HalStatus, success, error, copy_path}

unfoldable pub is_gain_checked : TxGain → Bool
is_gain_checked g =
    leb g.dig_gain 3
    && leb g.dac_gain 3
    && leb 5 g.mix_gain
    && leb g.mix_gain 15
    && leb g.pa_gain 3
    && leb g.pwr_idx 22

-- The gains of the caller from `i` on, one after another, up to the first that is out of range.
unfoldable pub set_gains : ℕ → ℕ → TxGainLut → List TxGain → HalStatus × List TxGain
set_gains zero i conf lut = (success, lut)
set_gains (suc left) i conf lut =
    let g = get_or conf.lut i no_gain in
    let rest = set_gains left (suc i) conf (set lut i (record g { offset_i = 0; offset_q = 0 })) in
    if is_gain_checked g then rest else (error, lut)

-- The number of the chain is not checked.
unfoldable pub lgw_txgain_setconf : Context → ℕ → TxGainLut → Outcome
lgw_txgain_setconf c rf_chain conf =
    let old = get_or c.tx_gain_lut rf_chain no_lut in
    let done = set_gains conf.size 0 conf old.lut in
    if ltb conf.size 1 || ltb tx_gain_lut_size_max conf.size
    then returns error c
    else if leb rf_chain_nb rf_chain
    then fault
    else returns done.0 (record c {
      tx_gain_lut = set c.tx_gain_lut rf_chain (record { lut = done.1; size = conf.size });
    })

unfoldable pub lgw_ftime_setconf : Context → ConfFtime → Outcome
lgw_ftime_setconf c conf = returns success (record c { ftime_cfg = conf })

unfoldable pub is_channel_checked : ConfChanLbt → Bool
is_channel_checked ch =
    (ch.bandwidth == 0x04 || ch.bandwidth == 0x05)
    && (ch.scan_time_us == 128 || ch.scan_time_us == 5000)

-- The channels of the caller from `i` on. `none` is a read or a write behind the arrays.
unfoldable pub set_channels :
    ℕ → ℕ → List ConfChanLbt → List ConfChanLbt → Option (HalStatus × List ConfChanLbt)
set_channels zero i conf channels = some (success, channels)
set_channels (suc left) i conf channels =
    let ch = get_or conf i no_channel in
    let rest = set_channels left (suc i) conf (set channels i ch) in
    if leb lbt_channel_nb_max i
    then none
    else if is_channel_checked ch
    then rest
    else some (error, channels)

unfoldable pub set_sx1261 : Context → ConfSx1261 → List ConfChanLbt → Context
set_sx1261 c conf channels = record c {
  sx1261_cfg = record conf {
    spi_path = copy_path conf.spi_path;
    lbt_conf = record conf.lbt_conf { channels = channels };
  };
}

unfoldable pub sx1261_outcome :
    Context → ConfSx1261 → Option (HalStatus × List ConfChanLbt) → Outcome
sx1261_outcome c conf none = fault
sx1261_outcome c conf (some (status, channels)) = returns status (set_sx1261 c conf channels)

unfoldable pub lgw_sx1261_setconf : Context → ConfSx1261 → Outcome
lgw_sx1261_setconf c conf =
    sx1261_outcome c conf (
      set_channels conf.lbt_conf.nb_channel 0 conf.lbt_conf.channels c.sx1261_cfg.lbt_conf.channels)
