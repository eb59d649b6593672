-- ===== src/Jit/Peek/Due.antt =====
-- `jit_peek` on a queue with no outdated packet.
use meshbeacon_uplink.Prelude.{
  ℕ, zero, suc, ◌+◌, ◌-◌, ◌≤◌, ◌<◌, ◌≡◌, refl, subst, tests, true, false, Option, none, some, leb,
  ltb, ltb→lt, ◌==◌, arith, Bool-cases, inl, inr, ◌⊎◌,
}
use meshbeacon_uplink.Jit.Types.{JitError, JitQueue, tx_max_advance_delay, tx_jit_delay}
use meshbeacon_uplink.Jit.Queue.{Sorter, IsValid, is_empty}
use meshbeacon_uplink.Jit.Peek.{
  returns, no_packet, at_index, ahead, update_highest, peek_loop, peek_result, peek_from, peek,
}

-- A lower bound of the values below `i` and at `i` is one of the values below `i + 1`.
below-suc :
    (f : ℕ → ℕ) (m i : ℕ) → ((k : ℕ) → k < i → m ≤ f k) → m ≤ f i → (k : ℕ) → k < i + 1 → m ≤ f k
below-suc f m i low at k h = elim (Bool-cases (ltb k i)) [
  | inl e ↦ low k (ltb→lt k i e)
  | inr e ↦ let same : k ≡ i = ground arith in rw same at
]

module _ (time_us : ℕ) (q : JitQueue) where
  -- No packet of the queue is so far ahead that it must have been missed.
  abbrev pub IsFresh : Type 0
  IsFresh = (k : ℕ) → k < q.num_pkt → ahead time_us q k < tx_max_advance_delay

  -- `i` is the packet of the queue with the least time ahead among the first `n`.
  abbrev pub IsEarliest : ℕ → ℕ → Type 0
  IsEarliest n i = (i < n) × ((k : ℕ) → k < n → ahead time_us q i ≤ ahead time_us q k)

  abbrev IsBest : ℕ → Option ℕ → Type 0
  IsBest n none = n ≡ 0
  IsBest n (some i) = IsEarliest n i

  update_highest-IsBest :
      (best : Option ℕ) (i : ℕ) → IsBest i best → IsBest (i + 1) (update_highest time_us q best i)
  unfolding update_highest
  update_highest-IsBest none i b = (
    omega arith,
    below-suc (ahead time_us q) (ahead time_us q i) i (λ k h. absurd (omega arith)) (omega arith),
  )
  update_highest-IsBest (some j) i b =
      elim (Bool-cases (ltb (ahead time_us q i) (ahead time_us q j))) [
        | inl e ↦
            let nearer = ltb→lt _ _ e in
            rw e (
              omega arith,
              below-suc (ahead time_us q) (ahead time_us q i) i
                  (λ k h. omega (arith, b.1 k h, nearer)) (omega arith),
            )
        | inr e ↦ rw e (
          omega (arith, b.0),
          below-suc (ahead time_us q) (ahead time_us q j) i b.1 (ground arith),
        )
      ]

module _ (s : Sorter) (time_us : ℕ) (q : JitQueue) (fresh : IsFresh time_us q) where
  peek_loop-IsBest :
      (fuel i : ℕ) (best : Option ℕ)
      → i ≤ q.num_pkt
      → q.num_pkt - i < fuel
      → IsBest time_us q i best
      → (best' : Option ℕ) × (peek_loop s time_us fuel i best q ≡ some (best', q))
        × IsBest time_us q q.num_pkt best'
  unfolding peek_loop
  peek_loop-IsBest zero i best hi h b = elim h [ ]
  peek_loop-IsBest (suc fuel) i best hi h b = elim (Bool-cases (leb q.num_pkt i)) [
    | inl done ↦ rw done (best, refl, subst (λ n. IsBest time_us q n best) (omega tests) b)
    | inr more ↦
        let inside : i < q.num_pkt = ground arith in
        let fine : leb tx_max_advance_delay (ahead time_us q i) ≡ false = ground (arith, fresh i) in
        rw (more, fine)
          (peek_loop-IsBest fuel (i + 1) (update_highest time_us q best i) (omega arith)
            (omega arith) (update_highest-IsBest time_us q best i b))
  ]

peek_result-due :
    (s : Sorter) (time_us : ℕ) (q : JitQueue) (best : Option ℕ)
    → 0 < q.num_pkt
    → IsBest time_us q q.num_pkt best
    → ((i : ℕ) × (peek_result s time_us best q ≡ returns JitError.ok q (at_index i))
        × IsEarliest time_us q q.num_pkt i
        × (ahead time_us q i < tx_jit_delay))
      ⊎ ((peek_result s time_us best q ≡ returns JitError.ok q no_packet)
          × ((k : ℕ) → k < q.num_pkt → tx_jit_delay ≤ ahead time_us q k))
unfolding peek_result
peek_result-due s time_us q none h b = absurd (omega arith)
peek_result-due s time_us q (some i) h b =
    elim (Bool-cases (ltb (ahead time_us q i) tx_jit_delay)) [
      | inl e ↦ inl (i, rw e, b, ltb→lt _ _ e)
      | inr e ↦ inr (rw e, λ k hk. ground (arith, b.1 k hk))
    ]

-- With no outdated packet in it, the queue stays as it is, and the index stored is that of a packet whose
-- time is nearest ahead, if that is less than 40 ms ahead; otherwise -1, and no packet is so near.
pub peek_due :
    (s : Sorter) (time_us : ℕ) (q : JitQueue)
    → IsValid q
    → 0 < q.num_pkt
    → IsFresh time_us q
    → ((i : ℕ) × (peek s time_us q true ≡ returns JitError.ok q (at_index i))
        × IsEarliest time_us q q.num_pkt i
        × (ahead time_us q i < tx_jit_delay))
      ⊎ ((peek s time_us q true ≡ returns JitError.ok q no_packet)
          × ((k : ℕ) → k < q.num_pkt → tx_jit_delay ≤ ahead time_us q k))
unfolding peek peek_from is_empty
peek_due s time_us q v some_left fresh =
    let (best, e, b) =
      peek_loop-IsBest s time_us q fresh 1122 0 none (omega arith) (omega (arith, v.fits)) refl in
    let nonempty : (q.num_pkt == 0) ≡ false = ground arith in
    rw (nonempty, peek, e, peek_from) (peek_result-due s time_us q best some_left b)
