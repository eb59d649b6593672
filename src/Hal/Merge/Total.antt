-- ===== src/Hal/Merge/Total.antt =====
-- libloragw/src/loragw_hal.c, `merge_packets`: the loop ends.
use mathlib.Core.Option
use meshbeacon_uplink.Prelude.{
  ℕ, zero, suc, ◌+◌, ◌-◌, ◌*◌, ◌<◌, ◌≤◌, ◌≡◌, ap, ◌∙◌, List, some, length, inl, inr, arith,
}
use meshbeacon_uplink.Hal.RxPkt.{RxPkt}
use meshbeacon_uplink.Hal.Merge.{
  merge_loop, merge_fuel, remove_or_keep, PktSorter, compare_pkt_tmst, merge_packets,
}
use meshbeacon_uplink.Hal.Merge.Remove.{length-remove_or_keep}
use meshbeacon_uplink.Hal.Merge.Steps.{merge_loop-cases}

-- A removal takes a packet, and a pass at most one step for each.
merge_loop_total :
    (fuel j : ℕ) (ps : List RxPkt)
    → length ps ≤ 255
    → 256 * length ps + (length ps - j) < fuel
    → (qs : List RxPkt) × (merge_loop fuel j ps ≡ some qs)
merge_loop_total zero j ps h l = absurd (omega arith)
merge_loop_total (suc fuel) j ps h l = elim (merge_loop-cases fuel j ps) [
  | inl (over, e) ↦ (ps, e)
  | inr (inl (there, alone, e)) ↦
      let rest = merge_loop_total fuel (j + 1) ps h (omega arith) in (rest.0, e ∙ rest.1)
  | inr (inr (i, kept, dup, e)) ↦
      let shorter = length-remove_or_keep ps i dup.i_in in
      let rest =
        merge_loop_total fuel 0 (remove_or_keep ps i) (omega (arith, shorter))
          (omega (arith, shorter)) in
      (rest.0, e ∙ rest.1)
]

pub merge_packets_total :
    (s : PktSorter) (ps : List RxPkt)
    → length ps ≤ 255
    → (qs : List RxPkt) × (merge_loop merge_fuel 0 ps ≡ some qs)
      × (merge_packets s ps ≡ some (s.qsort_r compare_pkt_tmst qs))
unfolding merge_packets
merge_packets_total s ps h =
    let end = merge_loop_total merge_fuel 0 ps h (omega arith) in
    (end.0, end.1, ap (Option.map (s.qsort_r compare_pkt_tmst)) end.1)
