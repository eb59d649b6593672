-- ===== src/Jit/Tests.antt =====
-- Tests of the queue, and the theorems at concrete inputs.
use mathlib.Core.List.{Perm}
use meshbeacon_uplink.Prelude.{ℕ, ◌≤◌, ◌<◌, ◌≡◌, ◌≢◌, refl, ◌⊎◌, true, ◌∷◌, none, some, arith}
use meshbeacon_uplink.Prelude.Int.{pos}
use meshbeacon_uplink.Jit.Types.{downlink_class_a, downlink_class_c, JitError, zero_node}
use meshbeacon_uplink.Jit.Queue.{IsValid, contents, compare_nodes, sort_queue, init, is_full}
use meshbeacon_uplink.Jit.Order.{is_after, compare_nodes-wraps}
use meshbeacon_uplink.Jit.Collision.{collision_test}
use meshbeacon_uplink.Jit.Enqueue.{
  enqueue, enqueue_packet, append_node, verdict, find_collision, overlaps, target_pre_delay,
  is_too_late, is_too_early, schedule, packet_post_delay, packet_pre_delay,
}
use meshbeacon_uplink.Jit.Enqueue.Keeps.{enqueued_node, enqueue_effect}
use meshbeacon_uplink.Jit.Enqueue.ClassC.{enqueue_class_c}
use meshbeacon_uplink.Jit.Dequeue.{dequeue, node_at, remove_node}
use meshbeacon_uplink.Jit.Dequeue.Laws.{dequeue_effect}
use meshbeacon_uplink.Jit.Peek.{returns, fault, no_packet, at_index, ahead, peek}
use meshbeacon_uplink.Jit.Peek.Total.{EndsWith, IsMissed, peek-IsValid}
use meshbeacon_uplink.Jit.Peek.Due.{IsEarliest, peek_due}
use meshbeacon_uplink.Jit.Peek.Purge.{peek_purge_fault}
use meshbeacon_uplink.Jit.Air.{IsSafe}
use meshbeacon_uplink.Jit.Air.Steps.{enqueues, here, next, Reach-IsSafe}
use meshbeacon_uplink.Jit.Sample.{
  insert_node, insertion_sort, sorter, toa, packet_at, node_of, one_packet, one_packet-IsValid,
  one_packet-IsFresh,
}

-- A class A downlink one second ahead is queued; the same packet again collides with it.
enqueue_test :
    let r = enqueue sorter toa one_packet 0 (some (packet_at 2000000)) downlink_class_a in
    (r.0 ≡ JitError.ok)
    × ((enqueue sorter toa r.1 0 (some (packet_at 2000000)) downlink_class_a).0
        ≡ JitError.collision_packet)
unfolding enqueue enqueue_packet append_node verdict find_collision overlaps collision_test
    target_pre_delay is_too_late is_too_early schedule packet_post_delay packet_pre_delay is_full
    sort_queue compare_nodes zero_node insertion_sort insert_node
enqueue_test = (refl, refl)

compare_nodes-wraps_example :
    (1000000 < 2147483648)
    × ((compare_nodes (node_of 1000000) (node_of 2147483648) ≡ none)
        ⊎ (is_after (compare_nodes (node_of 1000000) (node_of 2147483648)) ≡ true))
compare_nodes-wraps_example =
    compare_nodes-wraps (node_of 1000000) (node_of 2147483648) (omega arith) (omega arith)
      (omega arith)

enqueue_effect_example :
    let r = enqueue sorter toa one_packet 0 (some (packet_at 2000000)) downlink_class_a in
    let n = enqueued_node sorter toa one_packet 0 (packet_at 2000000) downlink_class_a in
    ((r.0 ≢ JitError.ok) × (r.1 ≡ one_packet))
    ⊎ ((r.0 ≡ JitError.ok) × (r.2 ≡ some n.pkt) × Perm (contents r.1) (n ∷ contents one_packet))
enqueue_effect_example =
    enqueue_effect sorter toa one_packet 0 (packet_at 2000000) downlink_class_a one_packet-IsValid

enqueue_class_c_example :
    (enqueue sorter toa one_packet 920000 (some (packet_at 0)) downlink_class_c).0 ≡ JitError.ok
unfolding packet_post_delay
enqueue_class_c_example =
    enqueue_class_c sorter toa one_packet 920000 (packet_at 0) (node_of 1000000) one_packet-IsValid
      refl (omega arith)

dequeue_effect_example :
    let r = dequeue sorter one_packet (pos 0) true in
    let n = node_at one_packet 0 in
    (r.0 ≡ JitError.ok)
    × (r.2 ≡ some (n.pkt, n.pkt_type))
    × Perm (contents one_packet) (n ∷ contents r.1)
    × IsValid r.1
dequeue_effect_example = dequeue_effect sorter one_packet 0 one_packet-IsValid (omega arith)

peek-IsValid_example :
    EndsWith IsValid (IsMissed 990000 one_packet) (peek sorter 990000 one_packet true)
peek-IsValid_example = peek-IsValid sorter 990000 one_packet true one_packet-IsValid

peek_due_example :
    ((i : ℕ) × (peek sorter 990000 one_packet true ≡ returns JitError.ok one_packet (at_index i))
      × IsEarliest 990000 one_packet 1 i
      × (ahead 990000 one_packet i < 40000))
    ⊎ ((peek sorter 990000 one_packet true ≡ returns JitError.ok one_packet no_packet)
        × ((k : ℕ) → k < 1 → 40000 ≤ ahead 990000 one_packet k))
peek_due_example =
    peek_due sorter 990000 one_packet one_packet-IsValid (omega arith) one_packet-IsFresh

-- The packet was to be sent at 1000000, and the counter is at 1000001.
peek_purge_fault_example :
    peek sorter 1000001 one_packet true ≡ fault (remove_node sorter one_packet 0)
unfolding ahead node_at
peek_purge_fault_example =
    peek_purge_fault sorter 1000001 one_packet one_packet-IsValid (omega arith) (omega arith)
      (omega arith)

-- One packet is queued on an initialised queue.
Reach-IsSafe_example :
    IsSafe (enqueue sorter toa (init one_packet) 0 (some (packet_at 2000000)) downlink_class_a).1
Reach-IsSafe_example = Reach-IsSafe sorter toa one_packet (
    next here (
      enqueues (init one_packet) 0 (packet_at 2000000) downlink_class_a (omega arith)
        (omega arith)))
