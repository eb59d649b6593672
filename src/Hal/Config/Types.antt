-- ===== src/Hal/Config/Types.antt =====
-- libloragw/inc/loragw_hal.h: the configuration structures and `lgw_context_s`, with the initial context of
-- libloragw/src/loragw_hal.c. The calibration in floating-point numbers, which no check reads, and the debug
-- configuration are left out. Fields of type `int8_t` are kept as their bit pattern.
use meshbeacon_uplink.Prelude.{ℕ, Bool, true, false, List, [], ◌∷◌, ◌++◌, replicate}
use meshbeacon_uplink.Prelude.Int.{ℤ, pos}

pub data ComType : Type 0 where
  com_spi com_usb com_unknown : ComType

pub data RadioType : Type 0 where
  type_none sx1255 sx1257 sx1272 sx1276 sx1250 : RadioType

pub data FtimeMode : Type 0 where
  high_capacity all_sf : FtimeMode

pub record ConfBoard : Type 0 where
  pub lorawan_public : Bool
  pub clksrc : ℕ
  pub full_duplex : Bool
  pub com_type : ComType
  pub com_path : List ℕ

pub record ConfRxrf : Type 0 where
  pub enable : Bool
  pub freq_hz : ℕ
  pub type : RadioType
  pub tx_enable : Bool
  pub single_input_mode : Bool

pub record ConfRxif : Type 0 where
  pub enable : Bool
  pub rf_chain : ℕ
  pub freq_hz : ℤ
  pub bandwidth : ℕ
  pub datarate : ℕ
  pub sync_word_size : ℕ
  pub sync_word : ℕ
  pub implicit_hdr : Bool
  pub implicit_payload_length : ℕ
  pub implicit_crc_en : Bool
  pub implicit_coderate : ℕ

pub record TxGain : Type 0 where
  pub rf_power : ℕ
  pub dig_gain : ℕ
  pub pa_gain : ℕ
  pub dac_gain : ℕ
  pub mix_gain : ℕ
  pub offset_i : ℕ
  pub offset_q : ℕ
  pub pwr_idx : ℕ

pub record TxGainLut : Type 0 where
  pub lut : List TxGain
  pub size : ℕ

pub record ConfFtime : Type 0 where
  pub enable : Bool
  pub mode : FtimeMode

pub record ConfChanLbt : Type 0 where
  pub freq_hz : ℕ
  pub bandwidth : ℕ
  pub scan_time_us : ℕ
  pub transmit_time_ms : ℕ

pub record ConfLbt : Type 0 where
  pub enable : Bool
  pub rssi_target : ℕ
  pub nb_channel : ℕ
  pub channels : List ConfChanLbt

pub record ConfSx1261 : Type 0 where
  pub enable : Bool
  pub spi_path : List ℕ
  pub rssi_offset : ℕ
  pub lbt_conf : ConfLbt

pub record Context : Type 0 where
  pub is_started : Bool
  pub board_cfg : ConfBoard
  pub rf_chain_cfg : List ConfRxrf
  pub if_chain_cfg : List ConfRxif
  pub multisf_datarate : ℕ
  pub lora_service_cfg : ConfRxif
  pub fsk_cfg : ConfRxif
  pub tx_gain_lut : List TxGainLut
  pub ftime_cfg : ConfFtime
  pub sx1261_cfg : ConfSx1261

abbrev pub rf_chain_nb : ℕ
rf_chain_nb = 2

abbrev pub if_chain_nb : ℕ
if_chain_nb = 10

abbrev pub tx_gain_lut_size_max : ℕ
tx_gain_lut_size_max = 16

abbrev pub lbt_channel_nb_max : ℕ
lbt_channel_nb_max = 16

-- The length of the array of a path.
abbrev pub path_size : ℕ
path_size = 64

abbrev pub no_rxrf : ConfRxrf
no_rxrf = record {
  enable = false;
  freq_hz = 0;
  type = type_none;
  tx_enable = false;
  single_input_mode = false;
}

abbrev pub no_rxif : ConfRxif
no_rxif = record {
  enable = false;
  rf_chain = 0;
  freq_hz = pos 0;
  bandwidth = 0;
  datarate = 0;
  sync_word_size = 0;
  sync_word = 0;
  implicit_hdr = false;
  implicit_payload_length = 0;
  implicit_crc_en = false;
  implicit_coderate = 0;
}

abbrev pub no_gain : TxGain
no_gain = record {
  rf_power = 0;
  dig_gain = 0;
  pa_gain = 0;
  dac_gain = 0;
  mix_gain = 0;
  offset_i = 0;
  offset_q = 0;
  pwr_idx = 0;
}

abbrev pub no_lut : TxGainLut
no_lut = record { lut = replicate tx_gain_lut_size_max no_gain; size = 0 }

abbrev pub default_lut : TxGainLut
default_lut = record {
  lut =
      record {
        rf_power = 14;
        dig_gain = 0;
        pa_gain = 2;
        dac_gain = 3;
        mix_gain = 10;
        offset_i = 0;
        offset_q = 0;
        pwr_idx = 0;
      }
      ∷ replicate 15 no_gain;
  size = 1;
}

abbrev pub no_channel : ConfChanLbt
no_channel = record { freq_hz = 0; bandwidth = 0; scan_time_us = 0; transmit_time_ms = 0 }

-- "/dev/spidev0." and the number of the device, with the zeros behind.
abbrev pub spidev_path : ℕ → List ℕ
spidev_path n =
    (b'/' ∷ b'd' ∷ b'e' ∷ b'v' ∷ b'/' ∷ b's' ∷ b'p' ∷ b'i' ∷ b'd' ∷ b'e' ∷ b'v' ∷ b'0' ∷ b'.' ∷ n
      ∷ [])
    ++ replicate 50 0

abbrev pub initial_context : Context
initial_context = record {
  is_started = false;
  board_cfg = record {
    lorawan_public = true;
    clksrc = 0;
    full_duplex = false;
    com_type = com_spi;
    com_path = spidev_path b'0';
  };
  rf_chain_cfg = replicate rf_chain_nb no_rxrf;
  if_chain_cfg = replicate if_chain_nb no_rxif;
  multisf_datarate = 0xff;
  lora_service_cfg = record no_rxif { bandwidth = 0x05; datarate = 7 };
  fsk_cfg = record no_rxif {
    bandwidth = 0x04;
    datarate = 50000;
    sync_word_size = 3;
    sync_word = 0xc194c1;
  };
  tx_gain_lut = default_lut ∷ default_lut ∷ [];
  ftime_cfg = record { enable = false; mode = all_sf };
  sx1261_cfg = record {
    enable = false;
    spi_path = spidev_path b'1';
    rssi_offset = 0;
    lbt_conf = record {
      enable = false;
      rssi_target = 0;
      nb_channel = 0;
      channels = replicate lbt_channel_nb_max no_channel;
    };
  };
}
