-- ===== src/Jit/Air/Enqueue.antt =====
-- `jit_enqueue` and the packets on the air.
use mathlib.Core.List.Perm
use meshbeacon_uplink.Prelude.{
  ℕ, ◌≤◌, ◌<◌, ◌≡◌, ◌≢◌, refl, List, [], ◌∷◌, none, some, All, arith, Bool-cases, inl, inr,
}
use meshbeacon_uplink.Prelude.Every.{All-perm, Pairwise-of_All}
use meshbeacon_uplink.Hal.Packet.{TxPacket}
use meshbeacon_uplink.Jit.Types.{
  JitPktType, downlink_class_a, downlink_class_b, downlink_class_c, beacon, JitNode, JitQueue,
}
use meshbeacon_uplink.Jit.Queue.{Sorter, contents}
use meshbeacon_uplink.Jit.Enqueue.{
  overlaps, find_collision, verdict, schedule, asap_count_us, search_slot, packet_pre_delay,
  packet_post_delay, append_node, enqueue,
}
use meshbeacon_uplink.Jit.Enqueue.Keeps.{
  enqueue_cases, enqueued_node, append_node-contents, append_node-IsValid,
}
use meshbeacon_uplink.Jit.Air.{
  Apart, Apart-prop, Apart-symm, IsBounded, IsBounded-prop, overlaps-Apart, IsSafe,
}

find_collision-Apart :
    (pkt_type : JitPktType) (n : JitNode) (ns : List JitNode)
    → IsBounded n
    → n.pre_delay ≡ packet_pre_delay pkt_type
    → All IsBounded ns
    → find_collision pkt_type n.post_delay n.pkt ns ≡ none
    → All (Apart n) ns
unfolding find_collision
find_collision-Apart pkt_type n [] bn e bs h = tt
find_collision-Apart pkt_type n (m ∷ ns) bn e bs h =
    elim (Bool-cases (overlaps pkt_type n.post_delay n.pkt m)) [
      | inl o ↦ absurd (ground (arith, o))
      | inr o ↦ (
        overlaps-Apart pkt_type n m bn bs.0 e o,
        find_collision-Apart pkt_type n ns bn e bs.1 (ground (arith, o)),
      )
    ]

verdict-Apart :
    (time_us : ℕ) (pkt_type : JitPktType) (n : JitNode) (ns : List JitNode)
    → IsBounded n
    → n.pre_delay ≡ packet_pre_delay pkt_type
    → All IsBounded ns
    → verdict time_us n.post_delay pkt_type n.pkt ns ≡ none
    → All (Apart n) ns
unfolding verdict
verdict-Apart time_us pkt_type n ns bn e bs h =
    find_collision-Apart pkt_type n ns bn e bs (ground arith)

search_slot-lt :
    (pre post : ℕ) (n : JitNode) (ns : List JitNode) → search_slot pre post n ns < 4294967296
unfolding search_slot
search_slot-lt pre post n [] = omega arith
search_slot-lt pre post n (m ∷ ns) = ground (arith, search_slot-lt pre post m ns)

asap_count_us-lt :
    (pre post time_us : ℕ) (ns : List JitNode) → asap_count_us pre post time_us ns < 4294967296
unfolding asap_count_us
asap_count_us-lt pre post time_us [] = omega arith
asap_count_us-lt pre post time_us (n ∷ ns) = ground (arith, search_slot-lt pre post n ns)

schedule-lt :
    (time_us post : ℕ) (pkt_type : JitPktType) (packet : TxPacket) (ns : List JitNode)
    → packet.count_us < 4294967296
    → (schedule time_us post pkt_type packet ns).count_us < 4294967296
unfolding schedule
schedule-lt time_us post downlink_class_a packet ns h = h
schedule-lt time_us post downlink_class_b packet ns h = h
schedule-lt time_us post downlink_class_c packet ns h = asap_count_us-lt _ post time_us ns
schedule-lt time_us post beacon packet ns h = h

pre_delay_bounds :
    (pkt_type : JitPktType)
    → (1500 ≤ packet_pre_delay pkt_type) × (packet_pre_delay pkt_type ≤ 3041500)
unfolding packet_pre_delay
pre_delay_bounds downlink_class_a = omega arith
pre_delay_bounds _ = omega arith

post_delay_bounds :
    (toa : ℕ) (pkt_type : JitPktType) → toa ≤ 4000000 → packet_post_delay toa pkt_type ≤ 4000000000
unfolding packet_post_delay
post_delay_bounds toa downlink_class_a h = omega arith
post_delay_bounds toa _ h = omega arith

module _ (s : Sorter) (lgw_time_on_air : TxPacket → ℕ) where
  enqueued_node-IsBounded :
      (q : JitQueue) (time_us : ℕ) (packet : TxPacket) (pkt_type : JitPktType)
      → packet.count_us < 4294967296
      → lgw_time_on_air packet ≤ 4000000
      → IsBounded (enqueued_node s lgw_time_on_air q time_us packet pkt_type)
  enqueued_node-IsBounded q time_us packet pkt_type h toa =
      let b = pre_delay_bounds pkt_type in
      (
        schedule-lt time_us _ pkt_type packet (contents q) h,
        b.0,
        b.1,
        post_delay_bounds (lgw_time_on_air packet) pkt_type toa,
      )

  -- Whatever packet comes in, of whatever type: if the transmissions in the queue do not overlap on the
  -- air, neither do those in the queue after the call.
  pub enqueue-IsSafe :
      (q : JitQueue) (time_us : ℕ) (packet : TxPacket) (pkt_type : JitPktType)
      → IsSafe q
      → packet.count_us < 4294967296
      → lgw_time_on_air packet ≤ 4000000
      → IsSafe (enqueue s lgw_time_on_air q time_us (some packet) pkt_type).1
  enqueue-IsSafe q time_us packet pkt_type v h toa =
      enqueue_cases s lgw_time_on_air (λ r. IsSafe r.1) q time_us packet pkt_type (λ _. v)
        (λ _ _. v) queued
    where
      n : JitNode
      n = enqueued_node s lgw_time_on_air q time_us packet pkt_type

      bn : IsBounded n
      bn = enqueued_node-IsBounded q time_us packet pkt_type h toa

      queued :
          q.num_pkt ≢ 32
          → verdict time_us n.post_delay pkt_type n.pkt (contents q) ≡ none
          → IsSafe (append_node s q n)
      queued room free =
          let fits : q.num_pkt < 32 = ground (arith, v.valid.fits) in
          let moved = Perm.symm (append_node-contents s q n v.valid fits) in
          record {
            valid = append_node-IsValid s q n v.valid fits;
            bounded = All-perm IsBounded IsBounded-prop moved (bn, v.bounded);
            apart = Perm.pairwise Apart-prop Apart-symm moved (
                Pairwise-of_All Apart Apart-prop n (contents q)
                  (verdict-Apart time_us pkt_type n (contents q) bn refl v.bounded free) v.apart);
          }
