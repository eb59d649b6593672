-- ===== src/Hal/Config/Steps.antt =====
-- libloragw/src/loragw_hal.c: sequences of calls of the functions `lgw_..._setconf`.
use meshbeacon_uplink.Prelude.{
  ℕ, zero, suc, ◌≡◌, refl, subst, ◌∙◌, ◌||◌, List, Option, none, some, leb, ltb, length, set, true,
  get_or, arith, if_split, All-replicate, All-get_or, length-set,
}
use meshbeacon_uplink.Hal.TimeOnAir.{is_lora_bw, is_lora_dr}
use meshbeacon_uplink.Hal.Config.Types.{
  ConfBoard, ConfRxrf, ConfRxif, TxGain, TxGainLut, ConfFtime, ConfChanLbt, ConfSx1261, Context,
  initial_context, no_rxif, no_rxrf, no_lut, no_gain, no_channel, default_lut,
}
use meshbeacon_uplink.Hal.Config.{
  Outcome, returns, HalStatus, is_com_type, is_fsk_bw, is_fsk_dr, lgw_board_setconf,
  lgw_rxrf_setconf, lgw_rxif_setconf, lgw_demod_setconf,
}
use meshbeacon_uplink.Hal.Config.Tables.{
  lgw_txgain_setconf, lgw_ftime_setconf, lgw_sx1261_setconf, is_gain_checked, set_gains,
  is_channel_checked, set_channels, set_sx1261, sx1261_outcome,
}
use meshbeacon_uplink.Hal.Config.Valid.{
  IsRxrf, IsRxif, IsLut, IsArray-set, IsValid, OnReturn, copy_path-IsPath,
  lgw_board_setconf-IsValid, lgw_rxrf_setconf-IsValid,
}
use meshbeacon_uplink.Hal.Config.Chains.{IsShort, lgw_rxif_setconf-IsValid}

lgw_demod_setconf-IsValid :
    (c : Context) (multisf_datarate : ℕ)
    → IsValid c
    → OnReturn IsValid (lgw_demod_setconf c multisf_datarate)
unfolding lgw_demod_setconf
lgw_demod_setconf-IsValid c multisf_datarate v = record {
  board = v.board;
  radios = v.radios;
  chains = v.chains;
  service = v.service;
  fsk = v.fsk;
  tables = v.tables;
  sx1261 = v.sx1261;
}

lgw_ftime_setconf-IsValid :
    (c : Context) (conf : ConfFtime) → IsValid c → OnReturn IsValid (lgw_ftime_setconf c conf)
unfolding lgw_ftime_setconf
lgw_ftime_setconf-IsValid c conf v = record {
  board = v.board;
  radios = v.radios;
  chains = v.chains;
  service = v.service;
  fsk = v.fsk;
  tables = v.tables;
  sx1261 = v.sx1261;
}

length-set_gains :
    (left i : ℕ) (conf : TxGainLut) (lut : List TxGain)
    → length ((set_gains left i conf lut).1) ≡ length lut
unfolding set_gains
length-set_gains zero i conf lut = refl
length-set_gains (suc left) i conf lut =
    if_split LutLength (is_gain_checked (get_or conf.lut i no_gain)) _ _
      (λ good. length-set_gains left (suc i) conf (set lut i _) ∙ length-set lut i _) (λ bad. refl)
  where
    LutLength : HalStatus × List TxGain → Type 0
    LutLength r = length r.1 ≡ length lut

lgw_txgain_setconf-IsValid :
    (c : Context) (rf_chain : ℕ) (conf : TxGainLut)
    → IsValid c
    → OnReturn IsValid (lgw_txgain_setconf c rf_chain conf)
unfolding lgw_txgain_setconf
lgw_txgain_setconf-IsValid c rf_chain conf v =
    if_split (OnReturn IsValid) (ltb conf.size 1 || ltb 16 conf.size) _ _ (λ e. v)
      (λ sized.
        if_split (OnReturn IsValid) (leb 2 rf_chain) _ _ (λ e. tt)
          (λ there.
            let old =
              All-get_or IsLut c.tx_gain_lut rf_chain no_lut v.tables.each
                (ground (arith, v.tables.entries)) in
            record {
              board = v.board;
              radios = v.radios;
              chains = v.chains;
              service = v.service;
              fsk = v.fsk;
              tables = IsArray-set IsLut 2 c.tx_gain_lut rf_chain _ v.tables (record {
                entries =
                    length-set_gains conf.size 0 conf (get_or c.tx_gain_lut rf_chain no_lut).lut
                    ∙ old.entries;
                least = ground arith;
                most = ground arith;
              });
              sx1261 = v.sx1261;
            }))

length-set_channels :
    (left i : ℕ) (conf channels : List ConfChanLbt) (status : HalStatus) (done : List ConfChanLbt)
    → set_channels left i conf channels ≡ some (status, done)
    → length done ≡ length channels
unfolding set_channels
length-set_channels zero i conf channels status done = λ e. cc e
length-set_channels (suc left) i conf channels status done =
    if_split ChannelsLength (leb 16 i) _ _ (λ over e. absurd (cc e))
      (λ there.
        if_split ChannelsLength (is_channel_checked (get_or conf i no_channel)) _ _
          (λ good e.
            length-set_channels left (suc i) conf (set channels i _) status done e
            ∙ length-set channels i _)
          (λ bad e. cc e))
  where
    ChannelsLength : Option (HalStatus × List ConfChanLbt) → Type 0
    ChannelsLength r = r ≡ some (status, done) → length done ≡ length channels

sx1261_outcome-IsValid :
    (c : Context) (conf : ConfSx1261) (r : Option (HalStatus × List ConfChanLbt))
    → IsValid c
    → ((status : HalStatus) (done : List ConfChanLbt)
        → r ≡ some (status, done)
        → length done ≡ length c.sx1261_cfg.lbt_conf.channels)
    → OnReturn IsValid (sx1261_outcome c conf r)
unfolding sx1261_outcome set_sx1261
sx1261_outcome-IsValid c conf none v h = tt
sx1261_outcome-IsValid c conf (some (status, channels)) v h = record {
  board = v.board;
  radios = v.radios;
  chains = v.chains;
  service = v.service;
  fsk = v.fsk;
  tables = v.tables;
  sx1261 = record {
    spi_path = copy_path-IsPath conf.spi_path;
    channels = h status channels refl ∙ v.sx1261.channels;
  };
}

lgw_sx1261_setconf-IsValid :
    (c : Context) (conf : ConfSx1261) → IsValid c → OnReturn IsValid (lgw_sx1261_setconf c conf)
unfolding lgw_sx1261_setconf
lgw_sx1261_setconf-IsValid c conf v =
    sx1261_outcome-IsValid c conf
      (set_channels conf.lbt_conf.nb_channel 0 conf.lbt_conf.channels
        c.sx1261_cfg.lbt_conf.channels)
      v
      (λ status done e.
        length-set_channels conf.lbt_conf.nb_channel 0 conf.lbt_conf.channels _ status done e)

-- A call that returns. The centre of an enabled channel is so near that the sums of its checks do not overflow.
pub data Step (c : Context) (d : Context) : Type 0 where
  board : (conf : ConfBoard) (s : HalStatus) → lgw_board_setconf c conf ≡ returns s d → Step c d
  rxrf :
      (i : ℕ) (conf : ConfRxrf) (s : HalStatus) → lgw_rxrf_setconf c i conf ≡ returns s d → Step c d
  rxif :
      (i : ℕ) (conf : ConfRxif) (s : HalStatus)
      → (conf.enable ≡ true → IsShort conf.freq_hz)
      → (lgw_rxif_setconf c i conf).0 ≡ returns s d
      → Step c d
  demod : (m : ℕ) (s : HalStatus) → lgw_demod_setconf c m ≡ returns s d → Step c d
  txgain :
      (i : ℕ) (conf : TxGainLut) (s : HalStatus)
      → lgw_txgain_setconf c i conf ≡ returns s d
      → Step c d
  ftime : (conf : ConfFtime) (s : HalStatus) → lgw_ftime_setconf c conf ≡ returns s d → Step c d
  sx1261 : (conf : ConfSx1261) (s : HalStatus) → lgw_sx1261_setconf c conf ≡ returns s d → Step c d

pub data Steps : Context → Context → Type 0 where
  stay : (c : Context) → Steps c c
  then_step : (b c d : Context) → Steps b c → Step c d → Steps b d

on_return :
    (d : Context) (s : HalStatus) (o : Outcome) → OnReturn IsValid o → o ≡ returns s d → IsValid d
on_return d s o h e = subst (OnReturn IsValid) e h

Step-IsValid : (c d : Context) → IsValid c → Step c d → IsValid d
Step-IsValid c d v (Step.board conf s e) = on_return d s _ (lgw_board_setconf-IsValid c conf v) e
Step-IsValid c d v (Step.rxrf i conf s e) = on_return d s _ (lgw_rxrf_setconf-IsValid c i conf v) e
Step-IsValid c d v (Step.rxif i conf s short e) =
    on_return d s _ (lgw_rxif_setconf-IsValid c i conf v short) e
Step-IsValid c d v (Step.demod m s e) = on_return d s _ (lgw_demod_setconf-IsValid c m v) e
Step-IsValid c d v (Step.txgain i conf s e) =
    on_return d s _ (lgw_txgain_setconf-IsValid c i conf v) e
Step-IsValid c d v (Step.ftime conf s e) = on_return d s _ (lgw_ftime_setconf-IsValid c conf v) e
Step-IsValid c d v (Step.sx1261 conf s e) = on_return d s _ (lgw_sx1261_setconf-IsValid c conf v) e

Steps-keeps : (b c : Context) → Steps b c → IsValid b → IsValid c
Steps-keeps b c (Steps.stay c') v = v
Steps-keeps b d (Steps.then_step b' c d' before last) v =
    Step-IsValid c d (Steps-keeps b c before v) last

initial_context-IsValid : IsValid initial_context
unfolding is_com_type is_lora_bw is_lora_dr is_fsk_bw is_fsk_dr
initial_context-IsValid = record {
  board = record { com_type = refl; com_path = record { bytes = refl; ends = refl } };
  radios = record {
    entries = refl;
    each = All-replicate IsRxrf 2 no_rxrf (record {
      type = λ e. absurd (cc e);
      lowest = λ e. absurd (cc e);
      highest = λ e. absurd (cc e);
    });
  };
  chains = record {
    entries = refl;
    each =
        All-replicate IsRxif 10 no_rxif
          (record { rf_chain = λ e. absurd (cc e); in_band = λ e. absurd (cc e) });
  };
  service = (refl, refl);
  fsk = (refl, refl);
  tables = record { entries = refl; each = (first, (first, tt)) };
  sx1261 = record { spi_path = record { bytes = refl; ends = refl }; channels = refl };
}
  where
    first : IsLut default_lut
    first = record { entries = refl; least = omega arith; most = omega arith }

-- After any sequence of calls of the configuration functions that return, from the initial context
-- on, the centres of enabled channels less than 2147233648 Hz away, enabled radios have a known type
-- and a frequency in range, enabled channels are on one of the two radios and at least 62.5 kHz
-- inside its band, the modems have valid bandwidths and data rates, the gain tables have 1 to 16
-- entries, and the paths end in their arrays.
pub Steps-IsValid : (c : Context) → Steps initial_context c → IsValid c
Steps-IsValid c steps = Steps-keeps initial_context c steps initial_context-IsValid
