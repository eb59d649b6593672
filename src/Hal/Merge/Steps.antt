-- ===== src/Hal/Merge/Steps.antt =====
-- libloragw/src/loragw_hal.c, the outer loop of `merge_packets`: the steps that it takes.
use meshbeacon_uplink.Prelude.{
  ℕ, suc, ◌+◌, ◌-◌, ◌<◌, ◌≤◌, ◌≡◌, ◌≢◌, refl, ap, subst, ◌∙◌, true, false, List, none, some,
  if◌then◌else◌, length, drop, leb, inl, inr, ◌⊎◌, arith, Bool-cases, Option-cases, length-drop,
}
use meshbeacon_uplink.Hal.RxPkt.{RxPkt}
use meshbeacon_uplink.Hal.Merge.{
  pkt_at, is_same_pkt, find_same, drops_first, remove_or_keep, pkt_dup_idx, merge_loop,
}
use meshbeacon_uplink.Hal.Merge.Search.{find_same-Found, find_same-none, pkt_at-drop}
use meshbeacon_uplink.Hal.Merge.Choice.{
  IsChecked, Carries, quality, is_same_pkt_comm, is_same_pkt-Carries, drops_first-quality,
}

-- The packet at `i` is removed, since the one at `kept` is the same.
pub record IsDuplicate (ps : List RxPkt) (i : ℕ) (kept : ℕ) : Type 0 where
  pub i_in : i < length ps
  pub kept_in : kept < length ps
  pub apart : i ≢ kept
  pub carries :
      IsChecked (pkt_at ps i) → IsChecked (pkt_at ps kept) → Carries (pkt_at ps i) (pkt_at ps kept)

module _ (p q : RxPkt) (a : IsChecked p) (b : IsChecked q) where
  drops_first-true : drops_first p q ≡ true → quality p ≤ quality q
  drops_first-true e =
      subst (λ c. if c then quality p ≤ quality q else quality q ≤ quality p) e
        (drops_first-quality p q a b)

  drops_first-false : drops_first p q ≡ false → quality q ≤ quality p
  drops_first-false e =
      subst (λ c. if c then quality p ≤ quality q else quality q ≤ quality p) e
        (drops_first-quality p q a b)

pkt_dup_idx-IsDuplicate :
    (ps : List RxPkt) (j k : ℕ)
    → j < k
    → k < length ps
    → is_same_pkt (pkt_at ps j) (pkt_at ps k) ≡ true
    → (kept : ℕ) × IsDuplicate ps (pkt_dup_idx ps j k) kept
pkt_dup_idx-IsDuplicate ps j k l h same =
    elim (Bool-cases (drops_first (pkt_at ps j) (pkt_at ps k))) [
      | inl first ↦ (
        k,
        rw first (record {
          i_in = omega arith;
          kept_in = h;
          apart = λ e. absurd (omega arith);
          carries = λ a b. is_same_pkt-Carries _ _ same (drops_first-true _ _ a b first);
        }),
      )
      | inr second ↦ (
        j,
        rw second (record {
          i_in = h;
          kept_in = omega arith;
          apart = λ e. absurd (omega arith);
          carries = λ a b.
              is_same_pkt-Carries _ _ (is_same_pkt_comm _ _ same)
                (drops_first-false _ _ b a second);
        }),
      )
    ]

module _ (fuel j : ℕ) (ps : List RxPkt) where
  merge_loop-ends : length ps ≤ j → merge_loop (suc fuel) j ps ≡ some ps
  unfolding merge_loop
  merge_loop-ends h = let e : leb (length ps) j ≡ true = ground arith in rw e refl

  merge_loop-next :
      j < length ps
      → find_same (pkt_at ps j) (drop (j + 1) ps) ≡ none
      → merge_loop (suc fuel) j ps ≡ merge_loop fuel (j + 1) ps
  unfolding merge_loop
  merge_loop-next h alone = let e : leb (length ps) j ≡ false = ground arith in rw (e, alone) refl

  merge_loop-restarts :
      (d : ℕ)
      → j < length ps
      → find_same (pkt_at ps j) (drop (j + 1) ps) ≡ some d
      → merge_loop (suc fuel) j ps
        ≡ merge_loop fuel 0 (remove_or_keep ps (pkt_dup_idx ps j (j + 1 + d)))
  unfolding merge_loop
  merge_loop-restarts d h found =
      let e : leb (length ps) j ≡ false = ground arith in rw (e, found) refl

-- Where the loop stands after a step: at the end, at the next packet, or at the first after a removal.
pub merge_loop-cases :
    (fuel j : ℕ) (ps : List RxPkt)
    → ((length ps ≤ j) × (merge_loop (suc fuel) j ps ≡ some ps))
      ⊎ (((j < length ps)
            × ((k : ℕ) → j < k → k < length ps → is_same_pkt (pkt_at ps j) (pkt_at ps k) ≡ false)
            × (merge_loop (suc fuel) j ps ≡ merge_loop fuel (j + 1) ps))
          ⊎ ((i : ℕ) × (kept : ℕ) × IsDuplicate ps i kept
              × (merge_loop (suc fuel) j ps ≡ merge_loop fuel 0 (remove_or_keep ps i))))
merge_loop-cases fuel j ps = elim (Bool-cases (leb (length ps) j)) [
  | inl over ↦ inl (ground arith, merge_loop-ends fuel j ps (ground arith))
  | inr there ↦ elim (Option-cases (find_same (pkt_at ps j) (drop (j + 1) ps))) [
    | inl alone ↦
        inr (inl (ground arith, behind alone, merge_loop-next fuel j ps (ground arith) alone))
    | inr (d, found) ↦
        let at = find_same-Found _ _ d found in
        let in_range : j + 1 + d < length ps = omega (arith, at.0, length-drop (j + 1) ps) in
        let dup =
          pkt_dup_idx-IsDuplicate ps j (j + 1 + d) (omega arith) in_range
            (subst (λ q. is_same_pkt (pkt_at ps j) q ≡ true) (pkt_at-drop (j + 1) d ps) at.1) in
        inr (
          inr (
            pkt_dup_idx ps j (j + 1 + d),
            dup.0,
            dup.1,
            merge_loop-restarts fuel j ps d (ground arith) found,
          ))
  ]
]
  where
    behind :
        find_same (pkt_at ps j) (drop (j + 1) ps) ≡ none
        → (k : ℕ) → j < k
        → k < length ps
        → is_same_pkt (pkt_at ps j) (pkt_at ps k) ≡ false
    behind alone k l h =
        let place : j + 1 + (k - (j + 1)) ≡ k = omega arith in
        subst (λ q. is_same_pkt (pkt_at ps j) q ≡ false)
          (pkt_at-drop (j + 1) (k - (j + 1)) ps ∙ ap (pkt_at ps) place)
          (find_same-none _ _ (k - (j + 1)) alone (omega (arith, length-drop (j + 1) ps)))
