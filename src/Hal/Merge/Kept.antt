-- ===== src/Hal/Merge/Kept.antt =====
-- libloragw/src/loragw_hal.c, `merge_packets`: what is left of the packets.
use mathlib.Core.Logic.{∥∥₁_prop, ∥∥₁_map}
use mathlib.Core.Logic.Or
use mathlib.Core.List.{Mem, mem-cons}
use mathlib.Core.List.Perm
use meshbeacon_uplink.Prelude.{
  ℕ, zero, suc, ◌+◌, ◌≤◌, ◌≡◌, sym, subst, ◌∙◌, List, some, length, inl, inr,
}
use meshbeacon_uplink.Hal.RxPkt.{RxPkt}
use meshbeacon_uplink.Hal.Merge.{
  pkt_at, merge_loop, merge_fuel, remove_or_keep, PktSorter, compare_pkt_tmst, merge_packets,
}
use meshbeacon_uplink.Hal.Merge.Remove.{remove_or_keep-perm, remove_or_keep-mem, mem-pkt_at}
use meshbeacon_uplink.Hal.Merge.Choice.{IsChecked, Carries, Carries-refl, Carries-trans}
use meshbeacon_uplink.Hal.Merge.Steps.{IsDuplicate, merge_loop-cases}
use meshbeacon_uplink.Hal.Merge.Total.{merge_packets_total}

-- The removals of a run, one after another.
pub data Removes : List RxPkt → List RxPkt → Type 0 where
  finish : (ps : List RxPkt) → Removes ps ps
  remove :
      (ps qs : List RxPkt) (i kept : ℕ)
      → IsDuplicate ps i kept
      → Removes (remove_or_keep ps i) qs
      → Removes ps qs

merge_loop-Removes :
    (fuel j : ℕ) (ps qs : List RxPkt) → merge_loop fuel j ps ≡ some qs → Removes ps qs
unfolding merge_loop
merge_loop-Removes zero j ps qs e = absurd (cc e)
merge_loop-Removes (suc fuel) j ps qs e = elim (merge_loop-cases fuel j ps) [
  | inl (over, step) ↦ let same : ps ≡ qs = cc (e, step) in subst (Removes ps) same (finish ps)
  | inr (inl (there, alone, step)) ↦ merge_loop-Removes fuel (j + 1) ps qs (sym step ∙ e)
  | inr (inr (i, kept, dup, step)) ↦
      remove ps qs i kept dup (merge_loop-Removes fuel 0 (remove_or_keep ps i) qs (sym step ∙ e))
]

-- A packet of the result that can stand for `p`.
abbrev pub IsCarried : RxPkt → List RxPkt → Type 0
IsCarried p qs = ∥ ((q : RxPkt) × Mem q qs × Carries p q) ∥₁

abbrev AllChecked : List RxPkt → Type 0
AllChecked ps = (p : RxPkt) → Mem p ps → IsChecked p

Removes-mem : {ps qs : List RxPkt} → Removes ps qs → (q : RxPkt) → Mem q qs → Mem q ps
Removes-mem (finish ps) q m = m
Removes-mem (remove ps qs i kept dup rest) q m =
    (Perm.mem_iff (remove_or_keep-perm ps i dup.i_in)).1
      (mem-cons.1 (Or.inr (Removes-mem rest q m)))

Removes-IsCarried :
    {ps qs : List RxPkt} → Removes ps qs → AllChecked ps → (p : RxPkt) → Mem p ps → IsCarried p qs
Removes-IsCarried (finish ps) checked p m = ∣ (p, m, Carries-refl p) ∣₁
Removes-IsCarried (remove ps qs i kept dup rest) checked p m =
    let split = remove_or_keep-perm ps i dup.i_in in
    let left : (q : RxPkt) → Mem q (remove_or_keep ps i) → Mem q ps =
      λ q n. (Perm.mem_iff split).1 (mem-cons.1 (Or.inr n)) in
    let carried : (q : RxPkt) → Mem q (remove_or_keep ps i) → IsCarried q qs =
      λ q n. Removes-IsCarried rest (λ r k. checked r (left r k)) q n in
    let better =
      dup.carries (checked _ (mem-pkt_at ps i dup.i_in))
        (checked _ (mem-pkt_at ps kept dup.kept_in)) in
    Or.elim ∥∥₁_prop (mem-cons.0 ((Perm.mem_iff split).0 m))
      (λ same.
        ∥∥₁_map
          (carried (pkt_at ps kept) (remove_or_keep-mem ps i kept dup.i_in dup.kept_in dup.apart))
          (λ (q, n, by_kept).
            (q, n, subst (λ r. Carries r q) (sym same) (Carries-trans _ _ _ better by_kept))))
      (carried p)

-- On at most 255 packets that all state whether their checksum is right, merge_packets ends, leaves
-- only packets that were there, and for each that was there leaves one of the same channel, data
-- rate, size and payload that is no worse: a right checksum comes first, then a fine timestamp.
pub merge_packets-IsCarried :
    (s : PktSorter) (ps : List RxPkt)
    → length ps ≤ 255
    → ((p : RxPkt) → Mem p ps → IsChecked p)
    → (result : List RxPkt) × (merge_packets s ps ≡ some result)
      × ((q : RxPkt) → Mem q result → Mem q ps)
      × ((p : RxPkt) → Mem p ps → IsCarried p result)
merge_packets-IsCarried s ps h checked =
    let (qs, e, sorted) = merge_packets_total s ps h in
    let run = merge_loop-Removes merge_fuel 0 ps qs e in
    let order = s.qsort_r-perm compare_pkt_tmst qs in
    (
      s.qsort_r compare_pkt_tmst qs,
      sorted,
      (λ q m. Removes-mem run q ((Perm.mem_iff order).0 m)),
      λ p m.
          ∥∥₁_map (Removes-IsCarried run checked p m)
            (λ (q, n, c). (q, (Perm.mem_iff order).1 n, c)),
    )
