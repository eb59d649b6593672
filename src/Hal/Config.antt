-- ===== src/Hal/Config.antt =====
-- libloragw/src/loragw_hal.c: the functions `lgw_..._setconf` of the board, the radios and the channels, which
-- put the caller's configuration in the context. A null pointer is an error before anything else and is not
-- modelled. `lgw_debug_setconf` is left out.
pub mod Types
pub mod Tables
pub mod Valid
pub mod Chains
pub mod Steps
pub mod Effect
mod Tests
use meshbeacon_uplink.Prelude.{
  ℕ, zero, suc, ◌+◌, ◌-◌, ◌/◌, ◌&&◌, ◌||◌, not, Bool, true, false, List, [], ◌∷◌, Option, none,
  some, leb, ltb, ◌==◌, if◌then◌else◌, length, replicate, set, get_or,
}
use meshbeacon_uplink.Prelude.Int.{ℤ, pos, negsuc, ◌-ℤ◌}
use meshbeacon_uplink.Hal.TimeOnAir.{is_lora_bw, is_lora_dr}
use meshbeacon_uplink.Hal.Config.Types.{
  ComType, com_spi, com_usb, com_unknown, RadioType, type_none, sx1255, sx1257, sx1272, sx1276,
  sx1250, FtimeMode, ConfBoard, ConfRxrf, ConfRxif, TxGain, TxGainLut, ConfFtime, ConfChanLbt,
  ConfLbt, ConfSx1261, Context, rf_chain_nb, if_chain_nb, tx_gain_lut_size_max, lbt_channel_nb_max,
  path_size, no_rxif, no_gain, no_lut, no_channel,
}

pub data HalStatus : Type 0 where
  success error lbt_not_allowed : HalStatus

-- What a call returns, with the context afterwards.
pub data Outcome : Type 0 where
  returns : HalStatus → Context → Outcome
  fault : Outcome

-- `strncpy`, and the last byte set to zero.
unfoldable pub strncpy : ℕ → List ℕ → List ℕ
strncpy zero src = []
strncpy (suc n) [] = replicate (suc n) 0
strncpy (suc n) (c ∷ cs) = if c == 0 then replicate (suc n) 0 else c ∷ strncpy n cs

unfoldable pub copy_path : List ℕ → List ℕ
copy_path src = set (strncpy path_size src) (path_size - 1) 0

unfoldable pub is_com_type : ComType → Bool
is_com_type com_spi = true
is_com_type com_usb = true
is_com_type com_unknown = false

unfoldable pub lgw_board_setconf : Context → ConfBoard → Outcome
lgw_board_setconf c conf =
    if c.is_started || not (is_com_type conf.com_type)
    then returns error c
    else returns success
        (record c { board_cfg = record conf { com_path = copy_path conf.com_path } })

unfoldable pub is_radio_type : RadioType → Bool
is_radio_type sx1255 = true
is_radio_type sx1257 = true
is_radio_type sx1250 = true
is_radio_type type_none = false
is_radio_type sx1272 = false
is_radio_type sx1276 = false

-- A disabled chain is not checked, and leaves the context as it is.
unfoldable pub lgw_rxrf_setconf : Context → ℕ → ConfRxrf → Outcome
lgw_rxrf_setconf c rf_chain conf =
    if c.is_started
    then returns error c
    else if not conf.enable
    then returns success c
    else if leb rf_chain_nb rf_chain || not (is_radio_type conf.type)
    then returns error c
    else if ltb conf.freq_hz 100000000 || ltb 1000000000 conf.freq_hz
    then returns error c
    else returns success (record c { rf_chain_cfg = set c.rf_chain_cfg rf_chain conf })

pub data Ifmod : Type 0 where
  if_lora_multi if_lora_std if_fsk_std : Ifmod

-- The table `ifmod_config`, for the indices below its length.
unfoldable pub sx1302_get_ifmod_config : ℕ → Ifmod
sx1302_get_ifmod_config if_chain =
    if ltb if_chain 8 then if_lora_multi else if if_chain == 8 then if_lora_std else if_fsk_std

-- The bandwidth in Hz, and `none` for -1.
unfoldable pub lgw_bw_getval : ℕ → Option ℕ
lgw_bw_getval bw =
    if bw == 0x06
    then some 500000
    else if bw == 0x05
    then some 250000
    else if bw == 0x04
    then some 125000
    else none

-- Half of the width of the channel, `LGW_REF_BW` if it is not known.
unfoldable pub half_bw : ℕ → ℕ
half_bw bw = elim (lgw_bw_getval bw) [ some bw_hz ↦ bw_hz / 2 | none ↦ 62500 ]

-- Half of the width of the radio, which is the same for all channels.
abbrev pub half_rf_rx_bandwidth : ℕ
half_rf_rx_bandwidth = 800000

-- `freq + half > half_rf_rx_bandwidth`. A sum of two `int32_t` that overflows is undefined in C; here it wraps, as it
-- does where the compiler adds first and compares then, and the test fails.
unfoldable pub is_too_high : ℤ → ℕ → Bool
is_too_high (pos f) half = ltb half_rf_rx_bandwidth (f + half) && ltb (f + half) 2147483648
is_too_high (negsuc f) half = ltb (half_rf_rx_bandwidth + suc f) half

-- `freq - half < -half_rf_rx_bandwidth`, likewise.
unfoldable pub is_too_low : ℤ → ℕ → Bool
is_too_low (pos f) half = ltb (f + half_rf_rx_bandwidth) half
is_too_low (negsuc f) half =
    ltb half_rf_rx_bandwidth (suc f + half) && leb (suc f + half) 2147483648

-- The bandwidth and the data rate that the caller left open are filled in, in the caller's structure.
unfoldable pub fill_default : ℕ → ℕ → ConfRxif → ConfRxif
fill_default bandwidth datarate conf = record conf {
  bandwidth = if conf.bandwidth == 0 then bandwidth else conf.bandwidth;
  datarate = if conf.datarate == 0 then datarate else conf.datarate;
}

unfoldable pub is_fsk_bw : ℕ → Bool
is_fsk_bw bw = leb 1 bw && leb bw 7

unfoldable pub is_fsk_dr : ℕ → Bool
is_fsk_dr dr = leb 500 dr && leb dr 250000

-- The three fields of a chain that are set.
unfoldable pub set_chain : Context → ℕ → Bool → ℕ → ℤ → Context
set_chain c if_chain enable rf_chain freq_hz = record c {
  if_chain_cfg = set c.if_chain_cfg if_chain (record (get_or c.if_chain_cfg if_chain no_rxif) {
    enable = enable;
    rf_chain = rf_chain;
    freq_hz = freq_hz;
  });
}

unfoldable pub set_service : Context → ConfRxif → Context
set_service c conf = record c {
  lora_service_cfg = record c.lora_service_cfg {
    bandwidth = conf.bandwidth;
    datarate = conf.datarate;
    implicit_hdr = conf.implicit_hdr;
    implicit_payload_length = conf.implicit_payload_length;
    implicit_crc_en = conf.implicit_crc_en;
    implicit_coderate = conf.implicit_coderate;
  };
}

-- A synchronisation word of zero leaves the one that is set.
unfoldable pub set_fsk : Context → ConfRxif → Context
set_fsk c conf = record c {
  fsk_cfg = record c.fsk_cfg {
    bandwidth = conf.bandwidth;
    datarate = conf.datarate;
    sync_word_size = if ltb 0 conf.sync_word then conf.sync_word_size else c.fsk_cfg.sync_word_size;
    sync_word = if ltb 0 conf.sync_word then conf.sync_word else c.fsk_cfg.sync_word;
  };
}

-- What follows the checks that all modems share, by the modem. The caller's structure is handed back.
unfoldable pub set_modem : Context → ℕ → ConfRxif → Ifmod → Outcome × ConfRxif
set_modem c if_chain conf if_lora_std =
    let filled = fill_default 0x05 7 conf in
    if not (is_lora_bw filled.bandwidth) || not (is_lora_dr filled.datarate)
    then (returns error c, filled)
    else (
      returns success
          (set_service (set_chain c if_chain filled.enable filled.rf_chain filled.freq_hz) filled),
      filled,
    )
set_modem c if_chain conf if_lora_multi =
    let filled = fill_default 0x04 7 conf in
    if not (filled.bandwidth == 0x04) || not (is_lora_dr filled.datarate)
    then (returns error c, filled)
    else (
      returns success (set_chain c if_chain filled.enable filled.rf_chain filled.freq_hz),
      filled,
    )
set_modem c if_chain conf if_fsk_std =
    let filled = fill_default 0x05 64000 conf in
    if not (is_fsk_bw filled.bandwidth) || not (is_fsk_dr filled.datarate)
    then (returns error c, filled)
    else (
      returns success
          (set_fsk (set_chain c if_chain filled.enable filled.rf_chain filled.freq_hz) filled),
      filled,
    )

unfoldable pub is_rxif_checked : ConfRxif → Bool
is_rxif_checked conf =
    ltb conf.rf_chain rf_chain_nb
    && not (is_too_high conf.freq_hz (half_bw conf.bandwidth))
    && not (is_too_low conf.freq_hz (half_bw conf.bandwidth))

unfoldable pub lgw_rxif_setconf : Context → ℕ → ConfRxif → Outcome × ConfRxif
lgw_rxif_setconf c if_chain conf =
    let old = get_or c.if_chain_cfg if_chain no_rxif in
    if c.is_started || leb if_chain_nb if_chain
    then (returns error c, conf)
    else if not conf.enable
    then (returns success (set_chain c if_chain false old.rf_chain (pos 0)), conf)
    else if is_rxif_checked conf
    then set_modem c if_chain conf (sx1302_get_ifmod_config if_chain)
    else (returns error c, conf)

unfoldable pub lgw_demod_setconf : Context → ℕ → Outcome
lgw_demod_setconf c multisf_datarate =
    returns success (record c { multisf_datarate = multisf_datarate })
