-- ===== src/Jit/Enqueue/ClassC.antt =====
-- `jit_enqueue` for an immediate downlink (class C), and the slot that it is given.
use meshbeacon_uplink.Prelude.{
  ℕ, ◌+◌, ◌≤◌, ◌<◌, ◌≡◌, sym, ap, ◌∙◌, false, [], ◌∷◌, none, some, leb, ◌==◌, sub_u32, arith,
  length, length-take,
}
use meshbeacon_uplink.Hal.Packet.{TxPacket}
use meshbeacon_uplink.Jit.Types.{JitNode, JitQueue, JitError, downlink_class_c, tx_start_delay}
use meshbeacon_uplink.Jit.Queue.{Sorter, IsValid, contents, is_full}
use meshbeacon_uplink.Jit.Collision.{collision_test}
use meshbeacon_uplink.Jit.Enqueue.{
  packet_pre_delay, packet_post_delay, collides_any, slot_after, search_slot, asap_count_us,
  schedule, is_too_late, is_too_early, target_pre_delay, overlaps, find_collision, verdict, enqueue,
  enqueue_packet,
}

-- Shorter delays make fewer collisions, as long as the distances fit the counter.
collision_test_mono :
    (t1 pre1 post1 t2 pre2 pre2' post2 : ℕ)
    → pre2' ≤ pre2
    → pre2 + post1 + 1000 < 4294967296
    → collision_test t1 pre1 post1 t2 pre2 post2 ≡ false
    → collision_test t1 pre1 post1 t2 pre2' post2 ≡ false
unfolding collision_test
collision_test_mono t1 pre1 post1 t2 pre2 pre2' post2 le fit free = ground arith

-- A node whose reserved times, and those of the new packet, are short against the counter's period.
abbrev pub IsShort : ℕ → ℕ → JitNode → Type 0
IsShort time_us post n =
    (time_us < 4294967296)
    × (n.pkt.count_us < 4294967296)
    × (tx_start_delay ≤ n.pre_delay)
    × (n.pre_delay + n.post_delay + post ≤ 1000000000)
    × (sub_u32 n.pkt.count_us time_us ≤ 1000000000)

-- The slot behind a node does not collide with it.
slot_after-clear :
    (time_us post : ℕ) (n : JitNode)
    → IsShort time_us post n
    → collision_test (slot_after 41500 post n) 41500 post n.pkt.count_us n.pre_delay n.post_delay
      ≡ false
unfolding collision_test slot_after
slot_after-clear time_us post n h = ground arith

asap-free :
    (time_us post : ℕ) (n : JitNode)
    → IsShort time_us post n
    → collision_test
        (asap_count_us 41500 post time_us (n ∷ []))
        41500
        post
        n.pkt.count_us
        n.pre_delay
        n.post_delay
      ≡ false
unfolding asap_count_us collides_any search_slot
asap-free time_us post n h = ground (arith, slot_after-clear time_us post n h)

asap-in_time :
    (time_us post : ℕ) (n : JitNode)
    → IsShort time_us post n
    → leb (sub_u32 (asap_count_us 41500 post time_us (n ∷ [])) time_us) 42500 ≡ false
unfolding asap_count_us search_slot
asap-in_time time_us post n h = ground arith

target_pre_delay-le :
    (n : JitNode) → tx_start_delay ≤ n.pre_delay → target_pre_delay downlink_class_c n ≤ n.pre_delay
unfolding target_pre_delay
target_pre_delay-le n h = ground arith

overlaps-free :
    (time_us post : ℕ) (packet : TxPacket) (n : JitNode)
    → IsShort time_us post n
    → overlaps downlink_class_c post (schedule time_us post downlink_class_c packet (n ∷ [])) n
      ≡ false
unfolding overlaps schedule packet_pre_delay
overlaps-free time_us post packet n h =
    collision_test_mono (asap_count_us 41500 post time_us (n ∷ [])) 41500 post n.pkt.count_us
      n.pre_delay (target_pre_delay downlink_class_c n) n.post_delay (target_pre_delay-le n h.2)
      (omega arith) (asap-free time_us post n h)

is_too_late-schedule :
    (time_us post : ℕ) (packet : TxPacket) (n : JitNode)
    → IsShort time_us post n
    → is_too_late time_us (schedule time_us post downlink_class_c packet (n ∷ [])) ≡ false
unfolding is_too_late schedule packet_pre_delay
is_too_late-schedule time_us post packet n h = asap-in_time time_us post n h

verdict_one :
    (time_us post : ℕ) (packet : TxPacket) (n : JitNode)
    → IsShort time_us post n
    → verdict time_us post downlink_class_c
        (schedule time_us post downlink_class_c packet (n ∷ []))
        (n ∷ [])
      ≡ none
unfolding verdict find_collision is_too_early
verdict_one time_us post packet n h =
    rw (is_too_late-schedule time_us post packet n h, overlaps-free time_us post packet n h)

-- An immediate downlink is accepted into a queue that holds one packet, whatever that packet is, where the
-- reserved times are short against the period of the counter and the queued packet is less than 1000
-- seconds ahead.
pub enqueue_class_c :
    (s : Sorter) (lgw_time_on_air : TxPacket → ℕ) (q : JitQueue) (time_us : ℕ) (packet : TxPacket)
    (n : JitNode)
    → IsValid q
    → contents q ≡ n ∷ []
    → IsShort time_us (packet_post_delay (lgw_time_on_air packet) downlink_class_c) n
    → (enqueue s lgw_time_on_air q time_us (some packet) downlink_class_c).0 ≡ JitError.ok
unfolding enqueue enqueue_packet is_full
enqueue_class_c s lgw_time_on_air q time_us packet n v one h =
    let few : q.num_pkt ≡ 1 =
      sym (length-take q.num_pkt q.nodes (rw v.sized v.fits)) ∙ ap length one in
    let room : (q.num_pkt == 32) ≡ false = ground arith in
    let accepted =
      verdict_one time_us (packet_post_delay (lgw_time_on_air packet) downlink_class_c) packet n
        h in
    rw (room, one, accepted, enqueue_packet)
