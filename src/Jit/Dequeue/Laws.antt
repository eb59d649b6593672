-- ===== src/Jit/Dequeue/Laws.antt =====
-- `jit_dequeue` on the queue as a container.
use mathlib.Core.List.{Perm}
use mathlib.Core.List.Perm
use meshbeacon_uplink.Prelude.{
  ℕ, suc, ◌+◌, ◌-◌, ◌≤◌, ◌<◌, ◌≡◌, refl, ◌∙◌, ◌∷◌, some, arith, get_or, set, length-set,
  take-set_beyond, swap_remove_perm, weight-perm, if◌then◌else◌, u8, Bool, true, false, leb, ◌==◌,
}
use meshbeacon_uplink.Prelude.Int.{pos}
use meshbeacon_uplink.Jit.Types.{JitQueue, JitError, is_beacon, zero_node}
use meshbeacon_uplink.Jit.Queue.{
  Sorter, is_empty, sort_queue, contents, beacons, IsValid, num_beacon-le, sort_queue-contents,
  sort_queue-IsValid,
}
use meshbeacon_uplink.Jit.Dequeue.{node_at, drop_node, remove_node, dequeue}

-- Taking one beacon off its counter.
uncount :
    (b : Bool) (n m : ℕ)
    → n ≡ (if b then 1 else 0) + m
    → n ≤ 32
    → (if b then u8 (n + 255) else n) ≡ m
uncount b n m e h = ground arith

module _ (q : JitQueue) (i : ℕ) (v : IsValid q) (inside : i < q.num_pkt) where
  last-eq : u8 (q.num_pkt + 255) ≡ q.num_pkt - 1
  last-eq = omega (arith, v.fits)

  front : suc (q.num_pkt - 1) ≡ q.num_pkt
  front = omega arith

  -- The queue loses the node and nothing else.
  drop_node-contents : Perm (contents q) (node_at q i ∷ contents (drop_node q i))
  unfolding drop_node
  drop_node-contents =
      rw
        (
          last-eq,
          take-set_beyond (q.num_pkt - 1) (q.num_pkt - 1)
              (set q.nodes i (get_or q.nodes (q.num_pkt - 1) zero_node)) zero_node (omega arith),
        )
        (rw front at (
          swap_remove_perm (q.num_pkt - 1) i q.nodes zero_node (omega arith)
            (omega (arith, v.sized, v.fits))))

  drop_node-IsValid : IsValid (drop_node q i)
  unfolding drop_node
  drop_node-IsValid = record {
    sized = length-set _ _ _ ∙ length-set _ _ _ ∙ v.sized;
    fits = omega (arith, last-eq, v.fits);
    counted =
        uncount (is_beacon (node_at q i).pkt_type) q.num_beacon (beacons (contents (drop_node q i)))
          (v.counted ∙ weight-perm _ drop_node-contents) (num_beacon-le v);
  }

module _ (s : Sorter) (q : JitQueue) (i : ℕ) (v : IsValid q) (inside : i < q.num_pkt) where
  pub remove_node-contents : Perm (contents q) (node_at q i ∷ contents (remove_node s q i))
  unfolding remove_node
  remove_node-contents =
      let dropped = drop_node-IsValid q i v inside in
      Perm.trans (drop_node-contents q i v inside) (
        Perm.cons (node_at q i) (
          Perm.symm
            (sort_queue-contents s (drop_node q i) (omega (arith, dropped.sized, dropped.fits)))))

  pub remove_node-IsValid : IsValid (remove_node s q i)
  unfolding remove_node
  remove_node-IsValid = sort_queue-IsValid s (drop_node-IsValid q i v inside)

  pub remove_node-num_pkt : (remove_node s q i).num_pkt ≡ q.num_pkt - 1
  unfolding remove_node drop_node sort_queue
  remove_node-num_pkt = last-eq q i v inside

-- Taking out a packet of the queue: the caller gets that packet and its type, the queue keeps all the
-- others, and is valid.
pub dequeue_effect :
    (s : Sorter) (q : JitQueue) (i : ℕ)
    → IsValid q
    → i < q.num_pkt
    → let r = dequeue s q (pos i) true in
      let n = node_at q i in
      (r.0 ≡ JitError.ok)
      × (r.2 ≡ some (n.pkt, n.pkt_type))
      × Perm (contents q) (n ∷ contents r.1)
      × IsValid r.1
unfolding dequeue is_empty
dequeue_effect s q i v inside =
    let small : leb 32 i ≡ false = ground (arith, v.fits) in
    let some_left : (q.num_pkt == 0) ≡ false = ground arith in
    rw (small, some_left)
      (refl, refl, remove_node-contents s q i v inside, remove_node-IsValid s q i v inside)
