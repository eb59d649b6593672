-- ===== src/Hal/Config/Chains.antt =====
-- libloragw/src/loragw_hal.c, `lgw_rxif_setconf`: the channels that it lets pass.
use meshbeacon_uplink.Prelude.{
  ℕ, ◌+◌, ◌<◌, ◌≤◌, ◌≡◌, refl, Bool, true, false, ◌&&◌, ◌||◌, not, leb, ltb, ◌==◌, arith, if_split,
  and_split, not-or_split,
}
use meshbeacon_uplink.Prelude.Int.{ℤ, pos, negsuc, pos_part, neg_part}
use meshbeacon_uplink.Hal.TimeOnAir.{is_lora_bw, is_lora_dr}
use meshbeacon_uplink.Hal.Config.Types.{ConfRxif, Context}
use meshbeacon_uplink.Hal.Config.{
  Outcome, is_too_high, is_too_low, half_bw, lgw_bw_getval, is_fsk_bw, is_fsk_dr, set_chain,
  set_service, set_fsk, fill_default, set_modem, is_rxif_checked, lgw_rxif_setconf, Ifmod,
  if_lora_std, if_lora_multi, if_fsk_std, sx1302_get_ifmod_config,
}
use meshbeacon_uplink.Hal.Config.Valid.{IsRxif, IsArray-set, IsService, IsFsk, IsValid, OnReturn}

half_bw_least : (bw : ℕ) → 62500 ≤ half_bw bw
unfolding half_bw lgw_bw_getval
half_bw_least bw = ground arith

-- A centre with which the sums of the tests do not overflow, whatever the bandwidth.
abbrev pub IsShort : ℤ → Type 0
IsShort f = pos_part f + neg_part f ≤ 2147233647

-- The two tests, as one on the distance from the centre.
in_band :
    (f : ℤ) (half : ℕ)
    → half ≤ 250000
    → IsShort f
    → (not (is_too_high f half) && not (is_too_low f half)) ≡ true
    → pos_part f + neg_part f + half ≤ 800000
unfolding is_too_high is_too_low
in_band (pos f) half h short e = ground arith
in_band (negsuc f) half h short e = ground arith

half_bw_most : (bw : ℕ) → half_bw bw ≤ 250000
unfolding half_bw lgw_bw_getval
half_bw_most bw = ground arith

abbrev Keeps : Outcome × ConfRxif → Type 0
Keeps r = OnReturn IsValid r.0

-- What has passed the checks that all modems share.
pub record IsChecked (conf : ConfRxif) : Type 0 where
  pub rf_chain : conf.rf_chain < 2
  pub in_band : pos_part conf.freq_hz + neg_part conf.freq_hz + half_bw conf.bandwidth ≤ 800000

pub is_rxif_checked-IsChecked :
    (conf : ConfRxif) → IsShort conf.freq_hz → is_rxif_checked conf ≡ true → IsChecked conf
unfolding is_rxif_checked
is_rxif_checked-IsChecked conf short e =
    let high = is_too_high conf.freq_hz (half_bw conf.bandwidth) in
    let low = is_too_low conf.freq_hz (half_bw conf.bandwidth) in
    let a = and_split (ltb conf.rf_chain 2 && not high) (not low) e in
    let b = and_split (ltb conf.rf_chain 2) (not high) a.0 in
    record {
      rf_chain = ground (arith, b.0);
      in_band =
          in_band conf.freq_hz (half_bw conf.bandwidth) (omega (arith, half_bw_most conf.bandwidth))
            short (rw (b.1, a.1) refl);
    }

set_chain-IsValid :
    (c : Context) (if_chain rf_chain : ℕ) (enable : Bool) (f : ℤ)
    → IsValid c
    → (enable ≡ true → rf_chain < 2)
    → (enable ≡ true → pos_part f + neg_part f + 62500 ≤ 800000)
    → IsValid (set_chain c if_chain enable rf_chain f)
unfolding set_chain
set_chain-IsValid c if_chain rf_chain enable f v chain band = record {
  board = v.board;
  radios = v.radios;
  chains =
      IsArray-set IsRxif 10 c.if_chain_cfg if_chain _ v.chains
        (record { rf_chain = chain; in_band = band });
  service = v.service;
  fsk = v.fsk;
  tables = v.tables;
  sx1261 = v.sx1261;
}

set_service-IsValid :
    (c : Context) (conf : ConfRxif) → IsValid c → IsService conf → IsValid (set_service c conf)
unfolding set_service
set_service-IsValid c conf v s = record {
  board = v.board;
  radios = v.radios;
  chains = v.chains;
  service = s;
  fsk = v.fsk;
  tables = v.tables;
  sx1261 = v.sx1261;
}

set_fsk-IsValid :
    (c : Context) (conf : ConfRxif) → IsValid c → IsFsk conf → IsValid (set_fsk c conf)
unfolding set_fsk
set_fsk-IsValid c conf v s = record {
  board = v.board;
  radios = v.radios;
  chains = v.chains;
  service = v.service;
  fsk = s;
  tables = v.tables;
  sx1261 = v.sx1261;
}

placed :
    (c : Context) (if_chain : ℕ) (conf : ConfRxif)
    → IsValid c
    → IsChecked conf
    → IsValid (set_chain c if_chain conf.enable conf.rf_chain conf.freq_hz)
placed c if_chain conf v k =
    set_chain-IsValid c if_chain conf.rf_chain conf.enable conf.freq_hz v (λ on. k.rf_chain)
      (λ on. omega (arith, k.in_band, half_bw_least conf.bandwidth))

set_modem-IsValid :
    (c : Context) (if_chain : ℕ) (conf : ConfRxif) (ifmod : Ifmod)
    → IsValid c
    → IsChecked conf
    → OnReturn IsValid ((set_modem c if_chain conf ifmod).0)
unfolding set_modem fill_default
set_modem-IsValid c if_chain conf if_lora_std v k =
    if_split Keeps
      (not (is_lora_bw (fill_default 0x05 7 conf).bandwidth)
        || not (is_lora_dr (fill_default 0x05 7 conf).datarate))
      _ _ (λ e. v)
      (λ e.
        set_service-IsValid _ (fill_default 0x05 7 conf) (placed c if_chain conf v k)
          (not-or_split _ _ e))
set_modem-IsValid c if_chain conf if_lora_multi v k =
    if_split Keeps
      (not ((fill_default 0x04 7 conf).bandwidth == 0x04)
        || not (is_lora_dr (fill_default 0x04 7 conf).datarate))
      _ _ (λ e. v) (λ e. placed c if_chain conf v k)
set_modem-IsValid c if_chain conf if_fsk_std v k =
    if_split Keeps
      (not (is_fsk_bw (fill_default 0x05 64000 conf).bandwidth)
        || not (is_fsk_dr (fill_default 0x05 64000 conf).datarate))
      _ _ (λ e. v)
      (λ e.
        set_fsk-IsValid _ (fill_default 0x05 64000 conf) (placed c if_chain conf v k)
          (not-or_split _ _ e))

enabled : (b : Bool) → not b ≡ false → b ≡ true
enabled true h = refl
enabled false h = absurd (cc h)

pub lgw_rxif_setconf-IsValid :
    (c : Context) (if_chain : ℕ) (conf : ConfRxif)
    → IsValid c
    → (conf.enable ≡ true → IsShort conf.freq_hz)
    → OnReturn IsValid ((lgw_rxif_setconf c if_chain conf).0)
unfolding lgw_rxif_setconf
lgw_rxif_setconf-IsValid c if_chain conf v short =
    if_split Keeps (c.is_started || leb 10 if_chain) _ _ (λ e. v)
      (λ e.
        if_split Keeps (not conf.enable) _ _
          (λ off.
            set_chain-IsValid c if_chain _ false (pos 0) v (λ f. absurd (cc f))
              (λ f. absurd (cc f)))
          (λ on.
            if_split Keeps (is_rxif_checked conf) _ _
              (λ good.
                set_modem-IsValid c if_chain conf (sx1302_get_ifmod_config if_chain) v
                  (is_rxif_checked-IsChecked conf (short (enabled conf.enable on)) good))
              (λ bad. v)))
