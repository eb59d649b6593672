-- ===== src/Forward/Power/Closest.antt =====
-- packet_forwarder/src/lora_pkt_fwd.c: the power that `get_tx_gain_lut_index` finds is the closest one.
use meshbeacon_uplink.Prelude.{
  ℕ, zero, suc, ◌-◌, ◌<◌, ◌≤◌, ◌≡◌, ◌⊎◌, inl, inr, refl, sym, Bool, true, false, Option, none, some,
  List, ltb, if_split, u8, arith, ltb→lt, subst,
}
use meshbeacon_uplink.Hal.Config.Types.{TxGain, TxGainLut}
use meshbeacon_uplink.Forward.Power.{
  level, level_at, is_none, record_best, search_power, found_index, get_tx_gain_lut_index,
}

-- Of the entries below an index, none has a power up to the one asked for, or the highest such power is the one recorded.
unfoldable IsRecorded : List TxGain → ℕ → ℕ → Option ℕ × ℕ → Type 0
IsRecorded lut requested n (none, best_match) = (k : ℕ) → k < n → requested < level_at lut k
IsRecorded lut requested n (some i, best_match) =
    (i < n)
    × (level_at lut i ≤ requested)
    × (best_match ≡ requested - level_at lut i)
    × ((k : ℕ) → k < n → level_at lut k ≤ requested → level_at lut k ≤ level_at lut i)

-- Below the next index is below this one, or at it.
below_next : (k n : ℕ) → k < suc n → (k < n) ⊎ (k ≡ n)
below_next k n h = omega arith

u8_small : (x y : ℕ) → x < 256 → u8 (x - y) ≡ x - y
u8_small x y small = omega arith

not_above : (a b : ℕ) → ltb a b ≡ false → b ≤ a
not_above a b h = ground arith

at_next : (lut : List TxGain) (k n top : ℕ) → k ≡ n → level_at lut n ≤ top → level_at lut k ≤ top
at_next lut k n top e h = subst (λ j. level_at lut j ≤ top) (sym e) h

above_next :
    (lut : List TxGain) (k n requested : ℕ)
    → k ≡ n
    → requested < level_at lut n
    → level_at lut k ≤ requested
    → ⊥
above_next lut k n requested e above low =
    let above_k = subst (λ j. requested < level_at lut j) (sym e) above in
    omega (arith, above_k, low)

record-none :
    (lut : List TxGain) (requested n best_match : ℕ)
    → requested < 256
    → IsRecorded lut requested n (none, best_match)
    → IsRecorded lut requested (suc n) (record_best requested (level_at lut n) n (none, best_match))
unfolding IsRecorded record_best is_none
record-none lut requested n best_match small h =
    if_split (IsRecorded lut requested (suc n)) (ltb requested (level_at lut n)) _ _
      (λ above k inside. elim (below_next k n inside) [
        | inl under ↦ h k under
        | inr e ↦
            subst (λ j. requested < level_at lut j) (sym e)
              (ltb→lt requested (level_at lut n) above)
      ])
      (λ within. (
        omega arith,
        not_above requested _ within,
        u8_small requested _ small,
        λ k inside low. elim (below_next k n inside) [
          | inl under ↦ absurd (omega (arith, h k under, low))
          | inr e ↦ at_next lut k n _ e (omega arith)
        ],
      ))

record-some :
    (lut : List TxGain) (requested n i best_match : ℕ)
    → requested < 256
    → IsRecorded lut requested n (some i, best_match)
    → IsRecorded lut requested
        (suc n)
        (record_best requested (level_at lut n) n (some i, best_match))
unfolding IsRecorded record_best is_none
record-some lut requested n i best_match small (inside_i, low_i, best, top) =
    if_split (IsRecorded lut requested (suc n)) (ltb requested (level_at lut n)) _ _
      (λ above. (
        omega arith,
        low_i,
        best,
        λ k inside low. elim (below_next k n inside) [
          | inl under ↦ top k under low
          | inr e ↦
              absurd (above_next lut k n requested e (ltb→lt requested (level_at lut n) above) low)
        ],
      ))
      (λ within.
        if_split (IsRecorded lut requested (suc n)) (ltb (requested - level_at lut n) best_match) _
          _
          (λ closer. (
            omega arith,
            not_above requested _ within,
            u8_small requested _ small,
            λ k inside low. elim (below_next k n inside) [
              | inl under ↦ omega (arith, top k under low, ltb→lt _ _ closer)
              | inr e ↦ at_next lut k n _ e (omega arith)
            ],
          ))
          (λ farther. (
            omega arith,
            low_i,
            best,
            λ k inside low. elim (below_next k n inside) [
              | inl under ↦ top k under low
              | inr e ↦
                  at_next lut k n _ e (omega (arith, not_above _ _ farther, not_above _ _ within))
            ],
          )))

record-IsRecorded :
    (lut : List TxGain) (requested n : ℕ) (st : Option ℕ × ℕ)
    → requested < 256
    → IsRecorded lut requested n st
    → IsRecorded lut requested (suc n) (record_best requested (level_at lut n) n st)
record-IsRecorded lut requested n (none, best_match) small h =
    record-none lut requested n best_match small h
record-IsRecorded lut requested n (some i, best_match) small h =
    record-some lut requested n i best_match small h

search-IsRecorded :
    (lut : List TxGain) (requested n : ℕ)
    → requested < 256
    → IsRecorded lut requested n (search_power lut requested n)
unfolding search_power IsRecorded
search-IsRecorded lut requested zero small = λ k below. absurd (omega (arith, below))
search-IsRecorded lut requested (suc n) small =
    record-IsRecorded lut requested n (search_power lut requested n) small
      (search-IsRecorded lut requested n small)

-- An index is found, and it is that of the highest power up to the one asked for; or all powers are higher.
unfoldable pub IsClosest : TxGainLut → ℕ → Bool × ℕ → Type 0
IsClosest tx_lut rf_power (false, i) =
    (i ≡ 0) × ((k : ℕ) → k < tx_lut.size → level rf_power < level_at tx_lut.lut k)
IsClosest tx_lut rf_power (true, i) =
    (i < tx_lut.size)
    × (level_at tx_lut.lut i ≤ level rf_power)
    × ((k : ℕ)
        → k < tx_lut.size
        → level_at tx_lut.lut k ≤ level rf_power
        → level_at tx_lut.lut k ≤ level_at tx_lut.lut i)

u8_index : (x : ℕ) → x < 256 → u8 x ≡ x
u8_index x small = omega arith

level-small : (x : ℕ) → level x < 256
unfolding level
level-small x = omega arith

found-IsClosest :
    (tx_lut : TxGainLut) (rf_power : ℕ) (st : Option ℕ × ℕ)
    → tx_lut.size < 256
    → IsRecorded tx_lut.lut (level rf_power) tx_lut.size st
    → IsClosest tx_lut rf_power (found_index st)
unfolding IsRecorded IsClosest found_index
found-IsClosest tx_lut rf_power (none, best_match) small h = (refl, h)
found-IsClosest tx_lut rf_power (some i, best_match) small (inside, low, best, top) =
    subst (λ j. IsClosest tx_lut rf_power (true, j)) (sym (u8_index i (omega arith)))
      (inside, low, top)

-- get_tx_gain_lut_index on a table of fewer than 256 entries finds an entry of the highest power that is not above the one
-- asked for, and reports an error and the index 0 exactly where all powers are above it.
pub get_tx_gain_lut_index-IsClosest :
    (tx_lut : TxGainLut) (rf_power : ℕ)
    → tx_lut.size < 256
    → IsClosest tx_lut rf_power (get_tx_gain_lut_index tx_lut rf_power)
unfolding get_tx_gain_lut_index
get_tx_gain_lut_index-IsClosest tx_lut rf_power small =
    found-IsClosest tx_lut rf_power (search_power tx_lut.lut (level rf_power) tx_lut.size) small
      (search-IsRecorded tx_lut.lut (level rf_power) tx_lut.size (level-small rf_power))
