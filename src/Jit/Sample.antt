-- ===== src/Jit/Sample.antt =====
-- Sample queues, and an insertion sort in the place of `qsort_r`.
use mathlib.Core.List.{Perm, Pairwise-singleton}
use mathlib.Core.List.Perm
use meshbeacon_uplink.Prelude.{
  ℕ, zero, suc, ◌-◌, refl, inl, inr, Bool-cases, true, false, List, [], ◌∷◌, ◌++◌, Option,
  if◌then◌else◌, replicate, arith, length,
}
use meshbeacon_uplink.Prelude.Int.{ℤ}
use meshbeacon_uplink.Hal.Packet.{TxPacket}
use meshbeacon_uplink.Jit.Types.{downlink_class_a, JitNode, JitQueue, zero_node}
use meshbeacon_uplink.Jit.Queue.{Sorter, IsValid}
use meshbeacon_uplink.Jit.Order.{is_after}
use meshbeacon_uplink.Jit.Dequeue.{node_at}
use meshbeacon_uplink.Jit.Peek.{ahead}
use meshbeacon_uplink.Jit.Peek.Due.{IsFresh}
use meshbeacon_uplink.Jit.Air.{Apart, IsSafe}

module _ (cmp : JitNode → JitNode → Option ℤ) where
  unfoldable pub insert_node : JitNode → List JitNode → List JitNode
  insert_node n [] = n ∷ []
  insert_node n (m ∷ ns) = if is_after (cmp n m) then m ∷ insert_node n ns else n ∷ m ∷ ns

  unfoldable pub insertion_sort : List JitNode → List JitNode
  unfolding insert_node
  insertion_sort [] = []
  insertion_sort (n ∷ ns) = insert_node n (insertion_sort ns)

  insert_node-perm : (n : JitNode) (ns : List JitNode) → Perm (insert_node n ns) (n ∷ ns)
  unfolding insert_node
  insert_node-perm n [] = Perm.rfl
  insert_node-perm n (m ∷ ns) = elim (Bool-cases (is_after (cmp n m))) [
    | inl e ↦ rw e (Perm.trans (Perm.cons m (insert_node-perm n ns)) (Perm.swap _ _ _))
    | inr e ↦ rw e Perm.rfl
  ]

  pub insertion_sort-perm : (ns : List JitNode) → Perm (insertion_sort ns) ns
  unfolding insertion_sort
  insertion_sort-perm [] = Perm.rfl
  insertion_sort-perm (n ∷ ns) =
      Perm.trans (insert_node-perm n (insertion_sort ns)) (Perm.cons n (insertion_sort-perm ns))

abbrev pub sorter : Sorter
unfolding insertion_sort
sorter = record { qsort_r = insertion_sort; qsort_r-perm = insertion_sort-perm }

-- 50 ms on the air.
abbrev pub toa : TxPacket → ℕ
toa p = 50

abbrev pub packet_at : ℕ → TxPacket
packet_at t = record {
  freq_hz = 868100000;
  tx_mode = 0;
  count_us = t;
  rf_chain = 0;
  rf_power = 14;
  modulation = 16;
  freq_offset = 0;
  bandwidth = 4;
  datarate = 7;
  coderate = 1;
  invert_pol = true;
  f_dev = 0;
  preamble = 8;
  no_crc = true;
  no_header = false;
  size = 4;
  payload = replicate 256 0;
}

abbrev pub node_of : ℕ → JitNode
node_of t = record {
  pkt = packet_at t;
  pkt_type = downlink_class_a;
  pre_delay = 41500;
  post_delay = 50000;
}

abbrev pub queue_of : List JitNode → JitQueue
queue_of ns = record {
  num_pkt = length ns;
  num_beacon = 0;
  nodes = ns ++ replicate (32 - length ns) zero_node;
}

abbrev pub one_packet : JitQueue
one_packet = queue_of (node_of 1000000 ∷ [])

pub one_packet-IsValid : IsValid one_packet
one_packet-IsValid = record { sized = refl; fits = omega arith; counted = refl }

pub one_packet-IsFresh : IsFresh 990000 one_packet
unfolding ahead node_at
one_packet-IsFresh zero h = omega arith
one_packet-IsFresh (suc k) h = absurd (omega arith)

pub one_packet-IsSafe : IsSafe one_packet
one_packet-IsSafe = record {
  valid = one_packet-IsValid;
  bounded = omega arith;
  apart = Pairwise-singleton Apart (node_of 1000000);
}
