-- ===== src/Hal/Config/Tests.antt =====
-- A configuration of the concentrator, and the theorems at concrete inputs.
use meshbeacon_uplink.Prelude.{◌≡◌, refl, true, false, [], ◌∷◌, arith}
use meshbeacon_uplink.Prelude.Int.{pos, negsuc}
use meshbeacon_uplink.Hal.Config.Types.{
  ConfRxrf, ConfRxif, ConfSx1261, Context, initial_context, no_rxif, no_rxrf, no_channel, sx1250,
}
use meshbeacon_uplink.Hal.Config.{
  returns, success, error, is_radio_type, lgw_rxrf_setconf, lgw_rxif_setconf, half_bw, is_too_high,
}
use meshbeacon_uplink.Hal.Config.Tables.{lgw_sx1261_setconf, is_channel_checked}
use meshbeacon_uplink.Hal.Config.Valid.{IsValid}
use meshbeacon_uplink.Hal.Config.Steps.{Step, Steps, Steps-IsValid}
use meshbeacon_uplink.Hal.Config.Effect.{
  Effect, default_rxif, lgw_rxif_setconf-Effect, lgw_rxif_setconf_default_bw,
  lgw_sx1261_setconf_partial,
}

abbrev sample_rxrf : ConfRxrf
sample_rxrf = record {
  enable = true;
  freq_hz = 867500000;
  type = sx1250;
  tx_enable = true;
  single_input_mode = false;
}

abbrev with_radio : Context
with_radio = record initial_context { rf_chain_cfg = sample_rxrf ∷ no_rxrf ∷ [] }

radio-Step : Step initial_context with_radio
unfolding lgw_rxrf_setconf is_radio_type
radio-Step = Step.rxrf 0 sample_rxrf success refl

Steps-IsValid_example : IsValid with_radio
Steps-IsValid_example = Steps-IsValid with_radio (
    Steps.then_step initial_context initial_context with_radio (Steps.stay initial_context)
      radio-Step)

-- 400 kHz below the centre of the first radio.
abbrev sample_rxif : ConfRxif
sample_rxif = record no_rxif { enable = true; freq_hz = negsuc 399999 }

lgw_rxif_setconf-Effect_example :
    Effect with_radio 3 sample_rxif ((lgw_rxif_setconf with_radio 3 sample_rxif).0)
lgw_rxif_setconf-Effect_example = lgw_rxif_setconf-Effect with_radio 3 sample_rxif refl

lgw_rxif_setconf_default_bw_example :
    (d : Context) × ((lgw_rxif_setconf with_radio 8 (default_rxif 700000)).0 ≡ returns success d)
    × (d.lora_service_cfg.bandwidth ≡ 0x05)
    × (is_too_high (pos 700000) (half_bw d.lora_service_cfg.bandwidth) ≡ true)
lgw_rxif_setconf_default_bw_example =
    lgw_rxif_setconf_default_bw with_radio 700000 refl (omega arith) (omega arith)

-- Listening before talk on 20 channels, of which the first has no scan time.
abbrev sample_sx1261 : ConfSx1261
sample_sx1261 = record {
  enable = true;
  spi_path = [];
  rssi_offset = 0;
  lbt_conf = record {
    enable = true;
    rssi_target = 176;
    nb_channel = 20;
    channels = record no_channel { bandwidth = 4 } ∷ [];
  };
}

lgw_sx1261_setconf_partial_example :
    (d : Context) × (lgw_sx1261_setconf with_radio sample_sx1261 ≡ returns error d)
    × (d.sx1261_cfg.lbt_conf.enable ≡ true)
    × (d.sx1261_cfg.lbt_conf.nb_channel ≡ 20)
    × (d.sx1261_cfg.lbt_conf.channels ≡ with_radio.sx1261_cfg.lbt_conf.channels)
unfolding is_channel_checked
lgw_sx1261_setconf_partial_example =
    lgw_sx1261_setconf_partial with_radio sample_sx1261 (omega arith) refl
