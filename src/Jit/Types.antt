-- ===== src/Jit/Types.antt =====
-- packet_forwarder/inc/jitqueue.h: the queue's types, and the constants of jitqueue.c.
use meshbeacon_uplink.Prelude.{ℕ, Bool, true, false, List, replicate}
use meshbeacon_uplink.Hal.Packet.{TxPacket}

abbrev pub jit_queue_max : ℕ
jit_queue_max = 32

abbrev pub tx_start_delay : ℕ
tx_start_delay = 1500

abbrev pub tx_margin_delay : ℕ
tx_margin_delay = 1000

abbrev pub tx_jit_delay : ℕ
tx_jit_delay = 40000

-- `(JIT_NUM_BEACON_IN_QUEUE + 1) * 128 * 1E6` with three beacons in the queue.
abbrev pub tx_max_advance_delay : ℕ
tx_max_advance_delay = 512000000

abbrev pub beacon_guard : ℕ
beacon_guard = 3000000

abbrev pub beacon_reserved : ℕ
beacon_reserved = 2120000

pub data JitPktType : Type 0 where
  downlink_class_a downlink_class_b downlink_class_c beacon : JitPktType

pub data JitError : Type 0 where
  ok too_late too_early full empty collision_packet collision_beacon : JitError
  tx_freq tx_power gps_unlocked invalid : JitError

pub record JitNode : Type 0 where
  pub pkt : TxPacket
  pub pkt_type : JitPktType
  pub pre_delay : ℕ
  pub post_delay : ℕ

-- `nodes` is the whole array, the entries from `num_pkt` on included.
pub record JitQueue : Type 0 where
  pub num_pkt : ℕ
  pub num_beacon : ℕ
  pub nodes : List JitNode

abbrev pub is_beacon : JitPktType → Bool
is_beacon beacon = true
is_beacon downlink_class_a = false
is_beacon downlink_class_b = false
is_beacon downlink_class_c = false

-- A node whose bytes are all zero, as `memset` leaves it: the packet type 0 is class A.
unfoldable pub zero_node : JitNode
zero_node = record {
  pkt = record {
    freq_hz = 0;
    tx_mode = 0;
    count_us = 0;
    rf_chain = 0;
    rf_power = 0;
    modulation = 0;
    freq_offset = 0;
    bandwidth = 0;
    datarate = 0;
    coderate = 0;
    invert_pol = false;
    f_dev = 0;
    preamble = 0;
    no_crc = false;
    no_header = false;
    size = 0;
    payload = replicate 256 0;
  };
  pkt_type = downlink_class_a;
  pre_delay = 0;
  post_delay = 0;
}
