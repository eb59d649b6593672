-- ===== src/Hal/Merge/Search.antt =====
-- libloragw/src/loragw_hal.c, the inner loop of `merge_packets`: what the search for a duplicate finds.
use meshbeacon_uplink.Prelude.{
  ℕ, zero, suc, ◌+◌, ◌<◌, ◌≡◌, refl, true, false, List, [], ◌∷◌, none, some, length, drop, inl, inr,
  arith, Bool-cases, Option-cases, get_or-drop, ◌⊎◌,
}
use meshbeacon_uplink.Hal.RxPkt.{RxPkt}
use meshbeacon_uplink.Hal.Merge.{no_pkt, pkt_at, is_same_pkt, find_same}

module _ (p q : RxPkt) (qs : List RxPkt) where
  find_same-hit : is_same_pkt p q ≡ true → find_same p (q ∷ qs) ≡ some 0
  unfolding find_same
  find_same-hit same = rw same refl

  find_same-miss : is_same_pkt p q ≡ false → find_same p qs ≡ none → find_same p (q ∷ qs) ≡ none
  unfolding find_same
  find_same-miss differ missing = rw (differ, missing) refl

  find_same-later :
      (i : ℕ)
      → is_same_pkt p q ≡ false
      → find_same p qs ≡ some i
      → find_same p (q ∷ qs) ≡ some (suc i)
  unfolding find_same
  find_same-later i differ at = rw (differ, at) refl

  -- The three cases of a search.
  find_same-cases :
      ((is_same_pkt p q ≡ true) × (find_same p (q ∷ qs) ≡ some 0))
      ⊎ (((is_same_pkt p q ≡ false) × (find_same p qs ≡ none) × (find_same p (q ∷ qs) ≡ none))
          ⊎ ((i : ℕ) × (find_same p qs ≡ some i) × (find_same p (q ∷ qs) ≡ some (suc i))))
  find_same-cases = elim (Bool-cases (is_same_pkt p q)) [
    | inl same ↦ inl (same, find_same-hit same)
    | inr differ ↦ elim (Option-cases (find_same p qs)) [
      | inl missing ↦ inr (inl (differ, missing, find_same-miss differ missing))
      | inr (i, at) ↦ inr (inr (i, at, find_same-later i differ at))
    ]
  ]

-- A packet found is there, and it is the same.
abbrev pub Found : RxPkt → List RxPkt → ℕ → Type 0
Found p qs d = (d < length qs) × (is_same_pkt p (pkt_at qs d) ≡ true)

pub find_same-Found : (p : RxPkt) (qs : List RxPkt) (d : ℕ) → find_same p qs ≡ some d → Found p qs d
unfolding find_same
find_same-Found p [] d e = absurd (cc e)
find_same-Found p (q ∷ qs) zero e = elim (find_same-cases p q qs) [
  | inl (same, at) ↦ (omega arith, same)
  | inr (inl (differ, missing, at)) ↦ absurd (cc (e, at))
  | inr (inr (i, rest, at)) ↦ absurd (cc (e, at))
]
find_same-Found p (q ∷ qs) (suc d) e = elim (find_same-cases p q qs) [
  | inl (same, at) ↦ absurd (cc (e, at))
  | inr (inl (differ, missing, at)) ↦ absurd (cc (e, at))
  | inr (inr (i, rest, at)) ↦
      let found = find_same-Found p qs d (cc (e, rest, at)) in (omega (arith, found.0), found.1)
]

pub find_same-none :
    (p : RxPkt) (qs : List RxPkt) (d : ℕ)
    → find_same p qs ≡ none
    → d < length qs
    → is_same_pkt p (pkt_at qs d) ≡ false
find_same-none p [] d e h = elim h [ ]
find_same-none p (q ∷ qs) zero e h = elim (find_same-cases p q qs) [
  | inl (same, at) ↦ absurd (cc (e, at))
  | inr (inl (differ, missing, at)) ↦ differ
  | inr (inr (i, rest, at)) ↦ absurd (cc (e, at))
]
find_same-none p (q ∷ qs) (suc d) e h = elim (find_same-cases p q qs) [
  | inl (same, at) ↦ absurd (cc (e, at))
  | inr (inl (differ, missing, at)) ↦ find_same-none p qs d missing (omega arith)
  | inr (inr (i, rest, at)) ↦ absurd (cc (e, at))
]

pub pkt_at-drop : (n d : ℕ) (ps : List RxPkt) → pkt_at (drop n ps) d ≡ pkt_at ps (n + d)
pkt_at-drop n d ps = get_or-drop n d ps no_pkt
