-- ===== src/Jit/Queue.antt =====
-- jitqueue.c: `jit_queue_is_full`, `jit_queue_is_empty`, `jit_queue_init`, `compare` and
-- `jit_sort_queue`. The mutex only keeps the threads apart: each function is one step here.
use mathlib.Core.List.{Perm}
use mathlib.Core.List.Perm
use meshbeacon_uplink.Prelude.{
  ℕ, ◌≤◌, ◌≡◌, refl, sym, ◌∙◌, inl, inr, Bool, Bool-cases, List, [], ◌∷◌, ◌++◌, Option, arith, ◌==◌,
  if◌then◌else◌, length, take, drop, replicate, weight, length-append, length-take, length-drop,
  length-perm, length-replicate, take_prefix, weight-perm,
}
use meshbeacon_uplink.Prelude.Int.{ℤ, to_int32, ◌-ℤ◌, in_int32}
use meshbeacon_uplink.Jit.Types.{jit_queue_max, JitNode, JitQueue, is_beacon, zero_node}

-- The packets in the queue.
abbrev pub contents : JitQueue → List JitNode
contents q = take q.num_pkt q.nodes

unfoldable pub is_full : JitQueue → Bool
is_full q = q.num_pkt == jit_queue_max

unfoldable pub is_empty : JitQueue → Bool
is_empty q = q.num_pkt == 0

unfoldable pub init : JitQueue → JitQueue
init q = record { num_pkt = 0; num_beacon = 0; nodes = replicate jit_queue_max zero_node }

-- The value of `compare`: `none` where `p_count - q_count` overflows `int`, which C leaves
-- undefined. The counter of swaps serves a debug message only.
unfoldable pub compare_nodes : JitNode → JitNode → Option ℤ
compare_nodes p q = in_int32 (to_int32 p.pkt.count_us -ℤ to_int32 q.pkt.count_us)

-- `qsort_r` of the C library on an array and a comparison. It only moves entries about.
pub record Sorter : Type 0 where
  pub qsort_r : (JitNode → JitNode → Option ℤ) → List JitNode → List JitNode
  pub qsort_r-perm :
      (cmp : JitNode → JitNode → Option ℤ) (ns : List JitNode) → Perm (qsort_r cmp ns) ns

module _ (s : Sorter) where
  -- The sort of the first `num_pkt` entries of the array.
  unfoldable pub sort_queue : JitQueue → JitQueue
  sort_queue q = record q {
    nodes =
        if q.num_pkt == 0
        then q.nodes
        else s.qsort_r compare_nodes (take q.num_pkt q.nodes) ++ drop q.num_pkt q.nodes;
  }

abbrev pub beacons : List JitNode → ℕ
beacons = weight λ n. if is_beacon n.pkt_type then 1 else 0

-- The array has its size, the packets fit in it, and the beacons among them are counted.
pub record IsValid (q : JitQueue) : Type 0 where
  pub sized : length q.nodes ≡ jit_queue_max
  pub fits : q.num_pkt ≤ jit_queue_max
  pub counted : q.num_beacon ≡ beacons (contents q)

pub beacons-le-length : (ns : List JitNode) → beacons ns ≤ length ns
beacons-le-length [] = omega arith
beacons-le-length (n ∷ ns) = ground (arith, beacons-le-length ns)

pub num_beacon-le : {q : JitQueue} → IsValid q → q.num_beacon ≤ 32
num_beacon-le {q} v = omega (
  arith,
  v.counted,
  beacons-le-length (contents q),
  length-take q.num_pkt q.nodes,
  v.sized,
  v.fits,
)

pub init-IsValid : (q : JitQueue) → IsValid (init q)
unfolding init
init-IsValid q = record {
  sized = length-replicate 32 zero_node;
  fits = omega arith;
  counted = refl;
}

module _ (s : Sorter) where
  sorted-length :
      (q : JitQueue)
      → q.num_pkt ≤ length q.nodes
      → length (s.qsort_r compare_nodes (contents q)) ≡ q.num_pkt
  sorted-length q h =
      length-perm (s.qsort_r-perm compare_nodes (contents q)) ∙ length-take q.num_pkt q.nodes h

  -- Sorting only rearranges the packets in the queue.
  pub sort_queue-contents :
      (q : JitQueue) → q.num_pkt ≤ length q.nodes → Perm (contents (sort_queue s q)) (contents q)
  unfolding sort_queue
  sort_queue-contents q h = elim (Bool-cases (q.num_pkt == 0)) [
    | inl e ↦ rw e Perm.rfl
    | inr e ↦
        rw (e, take_prefix q.num_pkt _ (drop q.num_pkt q.nodes) (sorted-length q h))
          (s.qsort_r-perm compare_nodes (contents q))
  ]

  pub sort_queue-length :
      (q : JitQueue) → q.num_pkt ≤ length q.nodes → length (sort_queue s q).nodes ≡ length q.nodes
  unfolding sort_queue
  sort_queue-length q h = elim (Bool-cases (q.num_pkt == 0)) [
    | inl e ↦ rw e
    | inr e ↦ rw e (
        omega (
          arith,
          length-append (s.qsort_r compare_nodes (contents q)) (drop q.num_pkt q.nodes),
          sorted-length q h,
          length-drop q.num_pkt q.nodes,
        ))
  ]

  pub sort_queue-IsValid : {q : JitQueue} → IsValid q → IsValid (sort_queue s q)
  sort_queue-IsValid {q} v = record {
    sized = sort_queue-length q (omega arith) ∙ v.sized;
    fits = unfold sort_queue in v.fits;
    counted =
        unfold sort_queue in v.counted ∙ sym (weight-perm _ (sort_queue-contents q (omega arith)));
  }
