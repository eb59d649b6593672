-- ===== src/Hal/Merge/Distinct.antt =====
-- libloragw/src/loragw_hal.c, `merge_packets`: the packets left are different from each other.
use mathlib.Core.List.{Pairwise}
use mathlib.Core.List.Perm
use meshbeacon_uplink.Prelude.{
  ℕ, zero, suc, ◌+◌, ◌<◌, ◌≤◌, ◌≡◌, sym, subst, ◌∙◌, false, List, [], ◌∷◌, some, length, inl, inr,
  arith, All, Bool-cases, ltb,
}
use meshbeacon_uplink.Prelude.Every.{Pairwise-of_All}
use meshbeacon_uplink.Hal.RxPkt.{RxPkt}
use meshbeacon_uplink.Hal.Merge.{
  pkt_at, is_same_pkt, merge_loop, merge_fuel, remove_or_keep, PktSorter, compare_pkt_tmst,
  merge_packets,
}
use meshbeacon_uplink.Hal.Merge.Choice.{is_same_pkt_comm}
use meshbeacon_uplink.Hal.Merge.Steps.{merge_loop-cases}
use meshbeacon_uplink.Hal.Merge.Total.{merge_packets_total}

abbrev pub IsDistinct : RxPkt → RxPkt → Type 0
IsDistinct p q = is_same_pkt p q ≡ false

-- The packets before `j` are different from all behind them.
DistinctTo : ℕ → List RxPkt → Type 0
DistinctTo j ps = (a b : ℕ) → a < j → a < b → b < length ps → IsDistinct (pkt_at ps a) (pkt_at ps b)

DistinctTo-step :
    (j : ℕ) (ps : List RxPkt)
    → DistinctTo j ps
    → ((k : ℕ) → j < k → k < length ps → IsDistinct (pkt_at ps j) (pkt_at ps k))
    → DistinctTo (j + 1) ps
unfolding DistinctTo
DistinctTo-step j ps d alone a b l m h = elim (Bool-cases (ltb a j)) [
  | inl before ↦ d a b (ground arith) m h
  | inr here ↦
      let now : j ≡ a = ground arith in
      subst (λ k. IsDistinct (pkt_at ps k) (pkt_at ps b)) now (alone b (omega arith) h)
]

merge_loop-DistinctTo :
    (fuel j : ℕ) (ps qs : List RxPkt)
    → DistinctTo j ps
    → merge_loop fuel j ps ≡ some qs
    → DistinctTo (length qs) qs
unfolding merge_loop DistinctTo
merge_loop-DistinctTo zero j ps qs d e = absurd (cc e)
merge_loop-DistinctTo (suc fuel) j ps qs d e = elim (merge_loop-cases fuel j ps) [
  | inl (over, step) ↦
      let same : ps ≡ qs = cc (e, step) in
      subst (λ rs. DistinctTo (length rs) rs) same (λ a b l m h. d a b (omega arith) m h)
  | inr (inl (there, alone, step)) ↦
      merge_loop-DistinctTo fuel (j + 1) ps qs (DistinctTo-step j ps d alone) (sym step ∙ e)
  | inr (inr (i, kept, dup, step)) ↦
      merge_loop-DistinctTo fuel 0 (remove_or_keep ps i) qs (λ a b l m h. elim l [ ]) (sym step ∙ e)
]

Pairwise-of_DistinctTo : (ps : List RxPkt) → DistinctTo (length ps) ps → Pairwise IsDistinct ps
unfolding DistinctTo
Pairwise-of_DistinctTo [] d = Pairwise.nil
Pairwise-of_DistinctTo (p ∷ ps) d =
    Pairwise-of_All IsDistinct (λ a b. hlevel) p ps
      (behind ps (λ b h. d 0 (suc b) (omega arith) (omega arith) (omega arith)))
      (Pairwise-of_DistinctTo ps
        (λ a b l m h. d (suc a) (suc b) (omega arith) (omega arith) (omega arith)))
  where
    behind :
        (qs : List RxPkt)
        → ((b : ℕ) → b < length qs → IsDistinct p (pkt_at qs b))
        → All (IsDistinct p) qs
    behind [] f = tt
    behind (q ∷ qs) f = (f 0 (omega arith), behind qs (λ b h. f (suc b) (omega arith)))

IsDistinct-comm : (p q : RxPkt) → IsDistinct p q → IsDistinct q p
IsDistinct-comm p q d = elim (Bool-cases (is_same_pkt q p)) [
  | inl e ↦ absurd (cc (is_same_pkt_comm q p e, d))
  | inr e ↦ e
]

pub merge_packets-IsDistinct :
    (s : PktSorter) (ps : List RxPkt)
    → length ps ≤ 255
    → (result : List RxPkt) × (merge_packets s ps ≡ some result) × Pairwise IsDistinct result
unfolding DistinctTo
merge_packets-IsDistinct s ps h =
    let (qs, e, sorted) = merge_packets_total s ps h in
    let apart = merge_loop-DistinctTo merge_fuel 0 ps qs (λ a b l m k. elim l [ ]) e in
    (
      s.qsort_r compare_pkt_tmst qs,
      sorted,
      Perm.pairwise (λ a b. hlevel) IsDistinct-comm (Perm.symm (s.qsort_r-perm compare_pkt_tmst qs))
          (Pairwise-of_DistinctTo qs apart),
    )
