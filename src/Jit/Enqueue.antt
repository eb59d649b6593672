-- ===== src/Jit/Enqueue.antt =====
-- jitqueue.c: `jit_enqueue`. The time on air comes from the hardware layer, as a parameter.
pub mod Keeps
pub mod ClassC
use meshbeacon_uplink.Prelude.{
  ℕ, ◌+◌, ◌*◌, Bool, true, false, ◌&&◌, ◌||◌, List, [], ◌∷◌, Option, none, some, ltb, leb, u8, u32,
  sub_u32, if◌then◌else◌, set,
}
use meshbeacon_uplink.Hal.Packet.{TxPacket, timestamped}
use meshbeacon_uplink.Jit.Types.{
  JitPktType, downlink_class_a, downlink_class_b, downlink_class_c, beacon, JitError, JitNode,
  JitQueue, is_beacon, tx_start_delay, tx_margin_delay, tx_jit_delay, tx_max_advance_delay,
  beacon_guard, beacon_reserved,
}
use meshbeacon_uplink.Jit.Queue.{Sorter, is_full, sort_queue, contents}
use meshbeacon_uplink.Jit.Collision.{collision_test}

unfoldable pub packet_pre_delay : JitPktType → ℕ
packet_pre_delay downlink_class_a = tx_start_delay + tx_jit_delay
packet_pre_delay downlink_class_b = tx_start_delay + tx_jit_delay
packet_pre_delay downlink_class_c = tx_start_delay + tx_jit_delay
packet_pre_delay beacon = tx_start_delay + beacon_guard + tx_jit_delay

-- `toa` is the packet's time on air in milliseconds.
unfoldable pub packet_post_delay : ℕ → JitPktType → ℕ
packet_post_delay toa downlink_class_a = u32 (toa * 1000)
packet_post_delay toa downlink_class_b = u32 (toa * 1000)
packet_post_delay toa downlink_class_c = u32 (toa * 1000)
packet_post_delay toa beacon = beacon_reserved

module _ (pre post : ℕ) where
  -- Does a packet at `count_us` collide with the node, by the delays that the node stores?
  abbrev pub collides : ℕ → JitNode → Bool
  collides count_us n = collision_test count_us pre post n.pkt.count_us n.pre_delay n.post_delay

  unfoldable pub collides_any : ℕ → List JitNode → Bool
  collides_any count_us [] = false
  collides_any count_us (n ∷ ns) = collides count_us n || collides_any count_us ns

  unfoldable pub slot_after : JitNode → ℕ
  slot_after n = u32 (n.pkt.count_us + n.post_delay + pre + tx_jit_delay + tx_margin_delay)

  -- The search for a slot between two neighbours, or behind the last packet.
  unfoldable pub search_slot : JitNode → List JitNode → ℕ
  unfolding slot_after
  search_slot n [] = slot_after n
  search_slot n (m ∷ ns) =
      let later = search_slot m ns in if collides (slot_after n) m then later else slot_after n

  -- The first possible time of an immediate downlink.
  unfoldable pub asap_count_us : ℕ → List JitNode → ℕ
  asap_count_us time_us [] = u32 (time_us + 2 * tx_jit_delay)
  asap_count_us time_us (n ∷ ns) =
      let asap = u32 (time_us + 2 * tx_jit_delay) in
      if collides_any asap (n ∷ ns) then search_slot n ns else asap

-- A class C packet is given its time here, also if it is refused later.
unfoldable pub schedule : ℕ → ℕ → JitPktType → TxPacket → List JitNode → TxPacket
schedule time_us post downlink_class_c packet ns = record packet {
  tx_mode = timestamped;
  count_us = asap_count_us (packet_pre_delay downlink_class_c) post time_us ns;
}
schedule time_us post downlink_class_a packet ns = packet
schedule time_us post downlink_class_b packet ns = packet
schedule time_us post beacon packet ns = packet

-- Criterion 1.
unfoldable pub is_too_late : ℕ → TxPacket → Bool
is_too_late time_us packet =
    leb (sub_u32 packet.count_us time_us) (tx_start_delay + tx_margin_delay + tx_jit_delay)

-- Criterion 2, for class A and class B downlinks alone.
unfoldable pub is_too_early : ℕ → JitPktType → TxPacket → Bool
is_too_early time_us downlink_class_a packet =
    ltb tx_max_advance_delay (sub_u32 packet.count_us time_us)
is_too_early time_us downlink_class_b packet =
    ltb tx_max_advance_delay (sub_u32 packet.count_us time_us)
is_too_early time_us downlink_class_c packet = false
is_too_early time_us beacon packet = false

abbrev pub ignores_beacon_guard : JitPktType → Bool
ignores_beacon_guard downlink_class_a = true
ignores_beacon_guard downlink_class_c = true
ignores_beacon_guard downlink_class_b = false
ignores_beacon_guard beacon = false

-- The pre-delay by which a new packet is held against a node.
unfoldable pub target_pre_delay : JitPktType → JitNode → ℕ
target_pre_delay pkt_type n =
    if ignores_beacon_guard pkt_type && is_beacon n.pkt_type then tx_start_delay else n.pre_delay

unfoldable pub overlaps : JitPktType → ℕ → TxPacket → JitNode → Bool
overlaps pkt_type post packet n =
    collision_test packet.count_us (packet_pre_delay pkt_type) post n.pkt.count_us
      (target_pre_delay pkt_type n) n.post_delay

-- Criterion 3: the first packet in the queue that overlaps decides the error.
unfoldable pub find_collision : JitPktType → ℕ → TxPacket → List JitNode → Option JitError
find_collision pkt_type post packet [] = none
find_collision pkt_type post packet (n ∷ ns) =
    let rest = find_collision pkt_type post packet ns in
    if overlaps pkt_type post packet n
    then some
        (if is_beacon n.pkt_type then JitError.collision_beacon else JitError.collision_packet)
    else rest

-- `none` where the packet may be queued.
unfoldable pub verdict : ℕ → ℕ → JitPktType → TxPacket → List JitNode → Option JitError
verdict time_us post pkt_type packet ns =
    let collision = find_collision pkt_type post packet ns in
    if is_too_late time_us packet
    then some JitError.too_late
    else if is_too_early time_us pkt_type packet
    then some JitError.too_early
    else collision

abbrev pub new_node : ℕ → JitPktType → TxPacket → JitNode
new_node post pkt_type packet = record {
  pkt = packet;
  pkt_type = pkt_type;
  pre_delay = packet_pre_delay pkt_type;
  post_delay = post;
}

module _ (s : Sorter) where
  -- The write behind the last packet, and the sort.
  unfoldable pub append_node : JitQueue → JitNode → JitQueue
  append_node q n = sort_queue s (record {
    num_pkt = u8 (q.num_pkt + 1);
    num_beacon = if is_beacon n.pkt_type then u8 (q.num_beacon + 1) else q.num_beacon;
    nodes = set q.nodes q.num_pkt n;
  })

module _ (s : Sorter) (lgw_time_on_air : TxPacket → ℕ) where
  unfoldable pub enqueue_packet :
      JitQueue → ℕ → TxPacket → JitPktType → JitError × JitQueue × TxPacket
  enqueue_packet q time_us packet pkt_type =
      let post = packet_post_delay (lgw_time_on_air packet) pkt_type in
      let packet' = schedule time_us post pkt_type packet (contents q) in
      elim (verdict time_us post pkt_type packet' (contents q)) [
        | some e ↦ (e, q, packet')
        | none ↦ (JitError.ok, append_node s q (new_node post pkt_type packet'), packet')
      ]

  -- A null packet is `none`. The third part is what the caller's packet holds afterwards.
  unfoldable pub enqueue :
      JitQueue → ℕ → Option TxPacket → JitPktType → JitError × JitQueue × Option TxPacket
  enqueue q time_us none pkt_type = (JitError.invalid, q, none)
  enqueue q time_us (some packet) pkt_type =
      if is_full q
      then (JitError.full, q, some packet)
      else let (e, q', packet') = enqueue_packet q time_us packet pkt_type in (e, q', some packet')
