-- ===== src/Sx1302/Send/Supported.antt =====
-- libloragw/src/loragw_sx1302.c: the packets that `sx1302_send` sends.
use meshbeacon_uplink.Prelude.{ℕ, Bool, true, false, ◌&&◌, ◌||◌, not, Option, none, some, ◌==◌}
use meshbeacon_uplink.Hal.Packet.{TxPacket, timestamped}
use meshbeacon_uplink.Hal.TimeOnAir.{mod_lora, mod_fsk}
use meshbeacon_uplink.Hal.Send.{mod_cw}
use meshbeacon_uplink.Hal.Config.Types.{
  RadioType, type_none, sx1255, sx1257, sx1272, sx1276, sx1250,
}
use meshbeacon_uplink.Sx1302.Ops.{Part, goes_on, stops}

unfoldable pub is_success : Part → Bool
is_success (goes_on ops) = true
is_success (stops ops) = false

-- A continuous wave, LoRa or FSK.
unfoldable pub is_modulation : ℕ → Bool
is_modulation m = (m == mod_cw) || ((m == mod_lora) || (m == mod_fsk))

unfoldable pub is_radio : RadioType → Bool
is_radio sx1250 = true
is_radio sx1255 = true
is_radio sx1257 = true
is_radio sx1272 = false
is_radio sx1276 = false
is_radio type_none = false

-- 125, 250 or 500 kHz.
unfoldable pub is_bandwidth : ℕ → Bool
is_bandwidth bw = (bw == 0x04) || ((bw == 0x05) || (bw == 0x06))

-- Immediate, at a given time, or on the pulse of the GPS.
unfoldable pub is_mode : ℕ → Bool
is_mode m = (m == 0) || ((m == timestamped) || (m == 2))

unfoldable pub is_supported : RadioType → TxPacket → Bool
is_supported radio_type pkt =
    is_modulation pkt.modulation
    && (is_radio radio_type
        && ((not (pkt.modulation == mod_lora) || is_bandwidth pkt.bandwidth)
            && is_mode pkt.tx_mode))

has_delay : Option ℕ → Bool
has_delay none = false
has_delay (some delay) = true
