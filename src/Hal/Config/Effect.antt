-- ===== src/Hal/Config/Effect.antt =====
-- libloragw/src/loragw_hal.c: what `lgw_rxif_setconf` and `lgw_sx1261_setconf` leave in the context.
use meshbeacon_uplink.Prelude.{
  ℕ, zero, suc, ◌<◌, ◌≤◌, ◌≡◌, ◌≢◌, refl, ◌||◌, not, true, false, List, some, leb, ◌==◌, length,
  set, get_or, arith, if_split, if_true, if_false, get_or-set_self, get_or-set_ne, sym, ap, ◌∙◌,
}
use meshbeacon_uplink.Prelude.Int.{pos}
use meshbeacon_uplink.Hal.TimeOnAir.{is_lora_bw, is_lora_dr}
use meshbeacon_uplink.Hal.Config.Types.{
  ConfRxif, ConfChanLbt, ConfSx1261, Context, no_rxif, no_channel,
}
use meshbeacon_uplink.Hal.Config.{
  Outcome, returns, success, error, set_chain, set_service, set_fsk, fill_default, set_modem,
  is_rxif_checked, lgw_rxif_setconf, Ifmod, if_lora_std, if_lora_multi, if_fsk_std,
  sx1302_get_ifmod_config, is_fsk_bw, is_fsk_dr, is_too_high, is_too_low, half_bw, lgw_bw_getval,
}
use meshbeacon_uplink.Hal.Config.Tables.{
  is_channel_checked, set_channels, set_sx1261, sx1261_outcome, lgw_sx1261_setconf,
}

abbrev pub chain_of : Context → ℕ → ConfRxif
chain_of c i = get_or c.if_chain_cfg i no_rxif

-- The chain is set as asked for, and the others are as they were.
pub record IsPlaced (c : Context) (i : ℕ) (conf : ConfRxif) (d : Context) : Type 0 where
  pub enable : (chain_of d i).enable ≡ conf.enable
  pub rf_chain : conf.enable ≡ true → (chain_of d i).rf_chain ≡ conf.rf_chain
  pub freq_hz : conf.enable ≡ true → (chain_of d i).freq_hz ≡ conf.freq_hz
  pub others : (j : ℕ) → i ≢ j → chain_of d j ≡ chain_of c j

-- An error changes nothing, and a success means a stopped concentrator and a chain that is there.
pub data Effect (c : Context) (i : ℕ) (conf : ConfRxif) : Outcome → Type 0 where
  refused : Effect c i conf (returns error c)
  accepted :
      (d : Context)
      → c.is_started ≡ false
      → i < 10
      → IsPlaced c i conf d
      → Effect c i conf (returns success d)

abbrev Effects : Context → ℕ → ConfRxif → Outcome × ConfRxif → Type 0
Effects c i conf r = Effect c i conf r.0

module _ (c : Context) (i : ℕ) (conf : ConfRxif) (h : i < length c.if_chain_cfg) where
  placed_on : ConfRxif
  placed_on = record (chain_of c i) {
    enable = conf.enable;
    rf_chain = conf.rf_chain;
    freq_hz = conf.freq_hz;
  }

  set-IsPlaced :
      (d : Context) → d.if_chain_cfg ≡ set c.if_chain_cfg i placed_on → IsPlaced c i conf d
  unfolding placed_on
  set-IsPlaced d same =
      let here : chain_of d i ≡ placed_on =
        ap (λ cs. get_or cs i no_rxif) same
        ∙ get_or-set_self c.if_chain_cfg i placed_on no_rxif h in
      record {
        enable = ap (λ k. k.enable) here;
        rf_chain = λ on. ap (λ k. k.rf_chain) here;
        freq_hz = λ on. ap (λ k. k.freq_hz) here;
        others = λ j ne.
            ap (λ cs. get_or cs j no_rxif) same
            ∙ get_or-set_ne c.if_chain_cfg i j placed_on no_rxif ne;
      }

  module _ (stopped : c.is_started ≡ false) (l : i < 10) where
    set_modem-Effect : (ifmod : Ifmod) → Effects c i conf (set_modem c i conf ifmod)
    unfolding set_modem fill_default set_chain set_service set_fsk placed_on
    set_modem-Effect if_lora_std =
        let filled = fill_default 0x05 7 conf in
        let placed =
          set_service (set_chain c i filled.enable filled.rf_chain filled.freq_hz) filled in
        if_split (Effects c i conf)
          (not (is_lora_bw filled.bandwidth) || not (is_lora_dr filled.datarate))
          (returns error c, filled) (returns success placed, filled) (λ e. Effect.refused)
          (λ e. Effect.accepted placed stopped l (set-IsPlaced placed refl))
    set_modem-Effect if_lora_multi =
        let filled = fill_default 0x04 7 conf in
        let placed = set_chain c i filled.enable filled.rf_chain filled.freq_hz in
        if_split (Effects c i conf)
          (not (filled.bandwidth == 0x04) || not (is_lora_dr filled.datarate))
          (returns error c, filled) (returns success placed, filled) (λ e. Effect.refused)
          (λ e. Effect.accepted placed stopped l (set-IsPlaced placed refl))
    set_modem-Effect if_fsk_std =
        let filled = fill_default 0x05 64000 conf in
        let placed = set_fsk (set_chain c i filled.enable filled.rf_chain filled.freq_hz) filled in
        if_split (Effects c i conf)
          (not (is_fsk_bw filled.bandwidth) || not (is_fsk_dr filled.datarate))
          (returns error c, filled) (returns success placed, filled) (λ e. Effect.refused)
          (λ e. Effect.accepted placed stopped l (set-IsPlaced placed refl))

    disabled-IsPlaced :
        not conf.enable ≡ true
        → IsPlaced c i conf (set_chain c i false (chain_of c i).rf_chain (pos 0))
    unfolding set_chain
    disabled-IsPlaced off =
        let off' : conf.enable ≡ false = ground arith in
        record {
          enable = ap (λ k. k.enable) (get_or-set_self c.if_chain_cfg i _ no_rxif h) ∙ sym off';
          rf_chain = λ on. absurd (cc (on, off'));
          freq_hz = λ on. absurd (cc (on, off'));
          others = λ j ne. get_or-set_ne c.if_chain_cfg i j _ no_rxif ne;
        }

-- lgw_rxif_setconf on an array of ten chains either reports an error and leaves the context as it
-- was, or reports success, with the concentrator stopped and the index below ten, and then the
-- chain is enabled or disabled as asked for, an enabled one has the radio and frequency given, and
-- the other chains are as they were.
pub lgw_rxif_setconf-Effect :
    (c : Context) (i : ℕ) (conf : ConfRxif)
    → length c.if_chain_cfg ≡ 10
    → Effect c i conf ((lgw_rxif_setconf c i conf).0)
unfolding lgw_rxif_setconf
lgw_rxif_setconf-Effect c i conf n =
    if_split (Effects c i conf) (c.is_started || leb 10 i) _ _ (λ e. Effect.refused)
      (λ e.
        let l : i < length c.if_chain_cfg = ground arith in
        if_split (Effects c i conf) (not conf.enable) _ _
          (λ off.
            Effect.accepted _ (ground arith) (ground arith)
              (disabled-IsPlaced c i conf l (ground arith) (ground arith) off))
          (λ on.
            if_split (Effects c i conf) (is_rxif_checked conf) _ _
              (λ good.
                set_modem-Effect c i conf l (ground arith) (ground arith)
                  (sx1302_get_ifmod_config i))
              (λ bad. Effect.refused)))

-- A channel that the caller has left to the default bandwidth, for the modem of one bandwidth.
abbrev pub default_rxif : ℕ → ConfRxif
default_rxif f = record no_rxif { enable = true; freq_hz = pos f }

lgw_rxif_setconf-checked :
    (c : Context) (i : ℕ) (conf : ConfRxif)
    → (c.is_started || leb 10 i) ≡ false
    → conf.enable ≡ true
    → is_rxif_checked conf ≡ true
    → lgw_rxif_setconf c i conf ≡ set_modem c i conf (sx1302_get_ifmod_config i)
unfolding lgw_rxif_setconf
lgw_rxif_setconf-checked c i conf e on good =
    if_false (c.is_started || leb 10 i) _ _ e
    ∙ if_false (not conf.enable) _ _ (ap not on)
    ∙ if_true (is_rxif_checked conf) _ _ good

default_rxif-checked : (f : ℕ) → f ≤ 737500 → is_rxif_checked (default_rxif f) ≡ true
unfolding is_rxif_checked is_too_high is_too_low half_bw lgw_bw_getval
default_rxif-checked f h = ground arith

set_channels_first :
    (n : ℕ) (conf channels : List ConfChanLbt)
    → 1 ≤ n
    → is_channel_checked (get_or conf 0 no_channel) ≡ false
    → set_channels n 0 conf channels ≡ some (error, channels)
unfolding set_channels
set_channels_first zero conf channels h bad = absurd (omega arith)
set_channels_first (suc n) conf channels h bad =
    if_false (is_channel_checked (get_or conf 0 no_channel)) _ _ bad

-- On a stopped concentrator the chain of the single-SF LoRa modem is accepted with its bandwidth
-- left open and a centre of more than 675 kHz and up to 737.5 kHz, and gets 250 kHz, with which it
-- reaches out of the band of the radio.
pub lgw_rxif_setconf_default_bw :
    (c : Context) (f : ℕ)
    → c.is_started ≡ false
    → 675000 < f
    → f ≤ 737500
    → (d : Context) × ((lgw_rxif_setconf c 8 (default_rxif f)).0 ≡ returns success d)
      × (d.lora_service_cfg.bandwidth ≡ 0x05)
      × (is_too_high (pos f) (half_bw d.lora_service_cfg.bandwidth) ≡ true)
unfolding set_modem fill_default is_lora_bw is_lora_dr set_service is_too_high half_bw lgw_bw_getval
    sx1302_get_ifmod_config
lgw_rxif_setconf_default_bw c f stopped above below =
    let conf = fill_default 0x05 7 (default_rxif f) in
    let placed = set_service (set_chain c 8 conf.enable conf.rf_chain conf.freq_hz) conf in
    (
      placed,
      ap (λ r. r.0)
          (lgw_rxif_setconf-checked c 8 (default_rxif f) (rw stopped refl) refl
            (default_rxif-checked f below)),
      refl,
      ground arith,
    )

-- Where the first of the channels is rejected, lgw_sx1261_setconf reports an error but has already taken over
-- the switch of listening before talk and the number of channels, while the channels are the old ones.
pub lgw_sx1261_setconf_partial :
    (c : Context) (conf : ConfSx1261)
    → 1 ≤ conf.lbt_conf.nb_channel
    → is_channel_checked (get_or conf.lbt_conf.channels 0 no_channel) ≡ false
    → (d : Context) × (lgw_sx1261_setconf c conf ≡ returns error d)
      × (d.sx1261_cfg.lbt_conf.enable ≡ conf.lbt_conf.enable)
      × (d.sx1261_cfg.lbt_conf.nb_channel ≡ conf.lbt_conf.nb_channel)
      × (d.sx1261_cfg.lbt_conf.channels ≡ c.sx1261_cfg.lbt_conf.channels)
unfolding lgw_sx1261_setconf sx1261_outcome set_sx1261
lgw_sx1261_setconf_partial c conf some_channel bad =
    let old = c.sx1261_cfg.lbt_conf.channels in
    (
      set_sx1261 c conf old,
      ap (sx1261_outcome c conf)
          (set_channels_first conf.lbt_conf.nb_channel conf.lbt_conf.channels old some_channel bad),
      refl,
      refl,
      refl,
    )
