-- ===== src/Jit/Peek/Total.antt =====
-- `jit_peek`: the loop against its fuel, and the queue afterwards.
use meshbeacon_uplink.Prelude.{
  ℕ, zero, suc, ◌+◌, ◌-◌, ◌*◌, ◌≤◌, ◌<◌, ◌≡◌, refl, Bool, true, false, Option, none, some, leb, ltb,
  ◌==◌, arith, Bool-cases, inl, inr, ◌⊎◌, sym, subst, leb→le, ltb→lt,
}
use meshbeacon_uplink.Jit.Types.{JitError, JitQueue, tx_max_advance_delay, tx_jit_delay}
use meshbeacon_uplink.Jit.Queue.{Sorter, IsValid, is_empty}
use meshbeacon_uplink.Jit.Dequeue.{remove_node}
use meshbeacon_uplink.Jit.Dequeue.Laws.{remove_node-num_pkt, remove_node-IsValid}
use meshbeacon_uplink.Jit.Peek.{
  PeekResult, untouched, returns, fault, out_of_fuel, ahead, update_highest, peek_loop, peek_result,
  peek_from, peek,
}
use meshbeacon_uplink.Jit.Peek.Due.{IsFresh, peek_due}

-- The result of a call that returns with a queue that satisfies `P`, or reads behind the array where `B` holds; the
-- fuel is enough.
abbrev pub EndsWith : (JitQueue → Type 0) → Type 0 → PeekResult → Type 0
EndsWith P B (returns e q idx) = P q
EndsWith P B (fault q) = B
EndsWith P B out_of_fuel = ⊥

module _ (s : Sorter) (time_us : ℕ) (P : JitQueue → Type 0)
    (P-IsValid : (q : JitQueue) → P q → IsValid q)
    (P-remove_node : (q : JitQueue) (i : ℕ) → P q → i < q.num_pkt → P (remove_node s q i)) where
  -- Each round either drops a packet or moves on.
  peek_loop_ends :
      (fuel i : ℕ) (best : Option ℕ) (q : JitQueue)
      → P q
      → i ≤ 33
      → 34 * q.num_pkt + (33 - i) < fuel
      → (r : Option ℕ × JitQueue) × (peek_loop s time_us fuel i best q ≡ some r) × P r.1
  unfolding peek_loop
  peek_loop_ends zero i best q p hi h = absurd (omega arith)
  peek_loop_ends (suc fuel) i best q p hi h = elim (Bool-cases (leb q.num_pkt i)) [
    | inl done ↦ rw done ((best, q), refl, p)
    | inr more ↦ elim (Bool-cases (leb tx_max_advance_delay (ahead time_us q i))) [
      | inl late ↦
          let inside : i < q.num_pkt = ground arith in
          let v = P-IsValid q p in
          rw (more, late)
            (peek_loop_ends fuel 1 best (remove_node s q i) (P-remove_node q i p inside)
              (omega arith) (omega (arith, remove_node-num_pkt s q i v inside)))
      | inr fine ↦
          let inside : i < q.num_pkt = ground arith in
          rw (more, fine)
            (peek_loop_ends fuel (i + 1) (update_highest time_us q best i) q p
              (omega (arith, (P-IsValid q p).fits)) (omega (arith, (P-IsValid q p).fits)))
    ]
  ]

  peek_result_ends :
      (best : Option ℕ) (q : JitQueue) → P q → EndsWith P Unit (peek_result s time_us best q)
  unfolding peek_result
  peek_result_ends none q p = tt
  peek_result_ends (some best) q p = elim (Bool-cases (ltb (ahead time_us q best) tx_jit_delay)) [
    | inl e ↦ rw e p
    | inr e ↦ rw e p
  ]

  peek_from_ends :
      (fuel : ℕ) (q : JitQueue)
      → P q
      → 34 * q.num_pkt + 33 < fuel
      → EndsWith P Unit (peek_from s time_us fuel q)
  unfolding peek_from
  peek_from_ends fuel q p h =
      let (r, e, p') = peek_loop_ends fuel 0 none q p (omega arith) (omega arith) in
      rw (e, EndsWith, peek_from) (peek_result_ends r.0 r.1 p')

  pub peek_ends : (q : JitQueue) (given : Bool) → P q → EndsWith P Unit (peek s time_us q given)
  unfolding peek is_empty
  peek_ends q false p = p
  peek_ends q true p = elim (Bool-cases (q.num_pkt == 0)) [
    | inl e ↦ rw e p
    | inr e ↦ rw e (peek_from_ends 1122 q p (omega (arith, (P-IsValid q p).fits)))
  ]

below-suc-lt :
    (f : ℕ → ℕ) (m n : ℕ) → ((k : ℕ) → k < n → f k < m) → f n < m → (k : ℕ) → k < suc n → f k < m
below-suc-lt f m n low at k h = elim (Bool-cases (ltb k n)) [
  | inl e ↦ low k (ltb→lt k n e)
  | inr e ↦ let same : k ≡ n = ground (arith, e, h) in rw same at
]

-- Some packet of the first `n` has been missed, or none has.
missed_or_fresh :
    (time_us : ℕ) (q : JitQueue) (n : ℕ)
    → ((k : ℕ) × (k < n) × (tx_max_advance_delay ≤ ahead time_us q k))
      ⊎ ((k : ℕ) → k < n → ahead time_us q k < tx_max_advance_delay)
missed_or_fresh time_us q zero = inr (λ k h. absurd (omega (arith, h)))
missed_or_fresh time_us q (suc n) = elim (missed_or_fresh time_us q n) [
  | inl (k, below, late) ↦ inl (k, omega (arith, below), late)
  | inr fresh ↦ elim (Bool-cases (leb tx_max_advance_delay (ahead time_us q n))) [
    | inl late ↦ inl (n, omega arith, leb→le _ _ late)
    | inr soon ↦
        inr (below-suc-lt (ahead time_us q) tx_max_advance_delay n fresh (ground (arith, soon)))
  ]
]

-- Some packet of the queue is so far ahead that it must have been missed.
unfoldable pub IsMissed : ℕ → JitQueue → Type 0
IsMissed time_us q = (k : ℕ) × (k < q.num_pkt) × (tx_max_advance_delay ≤ ahead time_us q k)

missed_ends : (r : PeekResult) (B : Type 0) → B → EndsWith IsValid Unit r → EndsWith IsValid B r
missed_ends (returns e q idx) B b h = h
missed_ends (fault q) B b h = b
missed_ends out_of_fuel B b h = h

peek-empty :
    (s : Sorter) (time_us : ℕ) (q : JitQueue)
    → (q.num_pkt == 0) ≡ true
    → peek s time_us q true ≡ returns JitError.empty q untouched
unfolding peek is_empty
peek-empty s time_us q e = rw e refl

fresh_ends :
    (s : Sorter) (time_us : ℕ) (q : JitQueue) (B : Type 0)
    → IsValid q
    → IsFresh time_us q
    → EndsWith IsValid B (peek s time_us q true)
fresh_ends s time_us q B v fresh = elim (Bool-cases (q.num_pkt == 0)) [
  | inl none_left ↦ subst (EndsWith IsValid B) (sym (peek-empty s time_us q none_left)) v
  | inr some_left ↦ elim (peek_due s time_us q v (ground (arith, some_left)) fresh) [
    | inl (i, e, earliest, soon) ↦ subst (EndsWith IsValid B) (sym e) v
    | inr (e, later) ↦ subst (EndsWith IsValid B) (sym e) v
  ]
]

-- On a valid queue jit_peek ends: it returns and leaves a valid queue, purged packets or not, or it reads the node
-- of index -1, and that only if the queue holds a packet that is outdated.
pub peek-IsValid :
    (s : Sorter) (time_us : ℕ) (q : JitQueue) (given : Bool)
    → IsValid q
    → EndsWith IsValid (IsMissed time_us q) (peek s time_us q given)
unfolding IsMissed peek
peek-IsValid s time_us q false v = v
peek-IsValid s time_us q true v = elim (missed_or_fresh time_us q q.num_pkt) [
  | inl missed ↦
      missed_ends _ _ missed
        (peek_ends s time_us IsValid (λ q v. v) (λ q i v h. remove_node-IsValid s q i v h) q true v)
  | inr fresh ↦ fresh_ends s time_us q _ v fresh
]
