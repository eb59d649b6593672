-- ===== src/Sx1302/Tests.antt =====
-- A downlink of LoRa at a given time, over a radio of type sx1250.
use meshbeacon_uplink.Prelude.{true}
use meshbeacon_uplink.Prelude.Int.{pos}
use meshbeacon_uplink.Hal.Packet.{TxPacket, timestamped}
use meshbeacon_uplink.Hal.Config.Types.{sx1250, no_rxif, default_lut}
use meshbeacon_uplink.Jit.Sample.{packet_at}
use meshbeacon_uplink.Sx1302.Modem.{Undefined}
use meshbeacon_uplink.Sx1302.Send.{sx1302_send}
use meshbeacon_uplink.Sx1302.Send.Trigger.{TriggersOnce, sx1302_send-TriggersOnce}

-- A result of 0 where C leaves it undefined.
abbrev unknown_result : Undefined
unknown_result = record { nan_int = pos 0; wide_shift = λ sync_word sync_word_size. 0 }

abbrev downlink : TxPacket
downlink = record (packet_at 1000000) { tx_mode = timestamped }

sx1302_send-TriggersOnce_example :
    TriggersOnce downlink (sx1302_send unknown_result sx1250 default_lut true no_rxif downlink)
sx1302_send-TriggersOnce_example =
    sx1302_send-TriggersOnce unknown_result sx1250 default_lut true no_rxif downlink
