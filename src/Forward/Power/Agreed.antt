-- ===== src/Forward/Power/Agreed.antt =====
-- The packet forwarder's choice of a power (packet_forwarder/src/lora_pkt_fwd.c: `get_tx_gain_lut_index`), and that of the
-- driver (libloragw/src/loragw_sx1302.c: `sx1302_send`).
use meshbeacon_uplink.Prelude.{
  ℕ, zero, suc, ◌+◌, ◌-◌, ◌<◌, ◌≤◌, ◌≡◌, ◌⊎◌, inl, inr, refl, sym, ap, true, false, List, leb,
  if_split, u8, arith, leb→le, get_or, subst,
}
use meshbeacon_uplink.Hal.Config.Types.{TxGain, TxGainLut, no_gain}
use meshbeacon_uplink.Sx1302.Gain.{is_int8_le, search_gain, gain_of}
use meshbeacon_uplink.Forward.Power.{level, level_at, get_tx_gain_lut_index}
use meshbeacon_uplink.Forward.Power.Closest.{IsClosest, get_tx_gain_lut_index-IsClosest}

-- The last of the entries up to an index, but the first, whose power is not above the one asked for, if there is one.
unfoldable IsLast : List TxGain → ℕ → ℕ → ℕ → Type 0
IsLast lut rf_power n s =
    (s ≤ n)
    × ((s ≡ 0) ⊎ (level_at lut s ≤ level rf_power))
    × ((k : ℕ) → s < k → k ≤ n → level rf_power < level_at lut k)

not_low : (a b : ℕ) → leb a b ≡ false → b < a
not_low a b h = ground arith

at_top : (k n : ℕ) → k ≤ suc n → (k ≤ n) ⊎ (k ≡ suc n)
at_top k n h = omega arith

search_gain-IsLast :
    (lut : List TxGain) (rf_power n : ℕ) → IsLast lut rf_power n (search_gain n lut rf_power)
unfolding search_gain IsLast is_int8_le level level_at
search_gain-IsLast lut rf_power zero =
    (omega arith, inl refl, λ k above inside. absurd (omega arith))
search_gain-IsLast lut rf_power (suc n) =
    if_split (IsLast lut rf_power (suc n))
      (is_int8_le (get_or lut (suc n) no_gain).rf_power rf_power) _ _
      (λ low. (omega arith, inr (leb→le _ _ low), λ k above inside. absurd (omega arith)))
      (λ high.
        let (inside, low, above) = search_gain-IsLast lut rf_power n in
        (
          omega (arith, inside),
          low,
          λ k behind upto. elim (at_top k n upto) [
            | inl under ↦ above k behind under
            | inr e ↦ subst (λ j. level rf_power < level_at lut j) (sym e) (not_low _ _ high)
          ],
        ))

-- The powers of a table do not decrease.
unfoldable pub IsAscending : TxGainLut → Type 0
IsAscending tx_lut =
    (j k : ℕ) → j ≤ k → k < tx_lut.size → level_at tx_lut.lut j ≤ level_at tx_lut.lut k

behind_or : (s i : ℕ) → (s < i) ⊎ (i ≤ s)
behind_or s i = omega arith

last_index : (n : ℕ) → 0 < n → n < 256 → u8 (n + 255) ≡ n - 1
last_index n filled small = omega arith

-- The last entry that is not above the power of an entry has that power.
last_agrees :
    (tx_lut : TxGainLut) (i s : ℕ)
    → 0 < tx_lut.size
    → i < tx_lut.size
    → IsAscending tx_lut
    → IsLast tx_lut.lut (get_or tx_lut.lut i no_gain).rf_power (tx_lut.size - 1) s
    → level_at tx_lut.lut s ≡ level_at tx_lut.lut i
unfolding IsLast IsAscending level_at
last_agrees tx_lut i s filled inside ascending (upto, low, above) = elim (behind_or s i) [
  | inl before ↦ absurd (omega (arith, above i before (omega arith)))
  | inr behind ↦
      let more = ascending i s behind (omega (arith, upto, filled)) in
      elim low [
        | inl first ↦ ap (level_at tx_lut.lut) (omega (arith, first, behind))
        | inr less ↦ omega (arith, more, less)
      ]
]

-- On a table of fewer than 256 entries whose powers do not decrease, the entry that sx1302_send takes for the power of an
-- entry that get_tx_gain_lut_index has found has that power.
pub found_power_agrees :
    (tx_lut : TxGainLut) (rf_power i : ℕ)
    → tx_lut.size < 256
    → IsAscending tx_lut
    → get_tx_gain_lut_index tx_lut rf_power ≡ (true, i)
    → let found = (get_or tx_lut.lut i no_gain).rf_power in
      level (gain_of tx_lut found).rf_power ≡ level found
unfolding gain_of IsClosest level_at
found_power_agrees tx_lut rf_power i small ascending e =
    let closest =
      subst (IsClosest tx_lut rf_power) e (get_tx_gain_lut_index-IsClosest tx_lut rf_power small) in
    let filled : 0 < tx_lut.size = omega (arith, closest.0) in
    last_agrees tx_lut i _ filled closest.0 ascending (
      subst
        (λ n.
          IsLast tx_lut.lut (get_or tx_lut.lut i no_gain).rf_power (tx_lut.size - 1)
            (search_gain n tx_lut.lut (get_or tx_lut.lut i no_gain).rf_power))
        (sym (last_index tx_lut.size filled small))
        (search_gain-IsLast tx_lut.lut (get_or tx_lut.lut i no_gain).rf_power (tx_lut.size - 1)))
