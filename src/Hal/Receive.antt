-- ===== src/Hal/Receive.antt =====
-- libloragw/src/loragw_hal.c: `lgw_receive` and `lgw_abort_tx`. The temperature, which changes the signal levels
-- only, is left out.

use mathlib.Core.Option
use mathlib.Core.List.{Pairwise}
use meshbeacon_uplink.Prelude.{
  ℕ, zero, suc, ◌≤◌, ◌≡◌, refl, ap, Bool, true, ◌&&◌, not, List, [], ◌∷◌, Option, none, some, leb,
  ltb, ◌==◌, if◌then◌else◌, length, arith, if_split,
}
use meshbeacon_uplink.Hal.RxPkt.{RxPkt}
use meshbeacon_uplink.Hal.Merge.{PktSorter, merge_packets}
use meshbeacon_uplink.Hal.Merge.Distinct.{IsDistinct, merge_packets-IsDistinct}
use meshbeacon_uplink.Hal.Config.Types.{Context, rf_chain_nb}

-- What `sx1302_parse` gives for a packet.
pub data Parsed : Type 0 where
  parsed : RxPkt → Parsed
  parse_warning : Parsed
  parse_error : Parsed

-- The packets handed to the caller, who is told their number, or an error.
pub data Received : Type 0 where
  received : List RxPkt → Received
  receive_error : Received

unfoldable pub put_first : RxPkt → Received → Received
put_first p (received ps) = received (p ∷ ps)
put_first p receive_error = receive_error

-- The loop over the packets. A warning ends it, with no packet at all, which `none` stands for here. The list
-- of answers is taken to be long enough.
unfoldable pub parse_packets : ℕ → List Parsed → Option Received
parse_packets zero ps = some (received [])
parse_packets (suc left) [] = none
parse_packets (suc left) (parse_warning ∷ ps) = none
parse_packets (suc left) (parse_error ∷ ps) = some receive_error
parse_packets (suc left) (parsed p ∷ ps) = Option.map (put_first p) (parse_packets left ps)

-- Duplicates are removed where there are fine timestamps. `none` where the fuel of `merge_packets` runs out.
unfoldable pub merge_received : PktSorter → Bool → Option Received → Option Received
merge_received s ftime none = some (received [])
merge_received s ftime (some receive_error) = some receive_error
merge_received s ftime (some (received ps)) =
    if ltb 0 (length ps) && ftime
    then Option.map received (merge_packets s ps)
    else some (received ps)

-- `fetched` is the number of packets that `sx1302_fetch` gives, none where it fails.
unfoldable pub lgw_receive :
    PktSorter → Context → Option ℕ → Bool → ℕ → List Parsed → Option Received
lgw_receive s c none update_ok max_pkt ps = some receive_error
lgw_receive s c (some fetched) update_ok max_pkt ps =
    if not update_ok
    then some receive_error
    else if fetched == 0
    then some (received [])
    else merge_received s c.ftime_cfg.enable
        (parse_packets (if leb fetched max_pkt then fetched else max_pkt) ps)

-- `sx1302_tx_abort` is called for a radio that there is, and its answer is passed on; `none` is an error before.
unfoldable pub lgw_abort_tx : (ℕ → ℕ) → ℕ → Option ℕ
lgw_abort_tx sx1302_tx_abort rf_chain =
    if leb rf_chain_nb rf_chain then none else some (sx1302_tx_abort rf_chain)

-- No two packets that the caller is handed are the same.
abbrev pub AreDistinct : Received → Type 0
AreDistinct (received ps) = Pairwise IsDistinct ps
AreDistinct receive_error = Unit

AtMost : ℕ → Option Received → Type 0
AtMost n none = Unit
AtMost n (some receive_error) = Unit
AtMost n (some (received ps)) = length ps ≤ n

put_first-AtMost :
    (n : ℕ) (p : RxPkt) (r : Option Received)
    → AtMost n r
    → AtMost (suc n) (Option.map (put_first p) r)
unfolding put_first AtMost
put_first-AtMost n p none h = tt
put_first-AtMost n p (some receive_error) h = tt
put_first-AtMost n p (some (received ps)) h = omega arith

parse_packets-AtMost : (n : ℕ) (ps : List Parsed) → AtMost n (parse_packets n ps)
unfolding parse_packets AtMost
parse_packets-AtMost zero ps = omega arith
parse_packets-AtMost (suc n) [] = tt
parse_packets-AtMost (suc n) (parse_warning ∷ ps) = tt
parse_packets-AtMost (suc n) (parse_error ∷ ps) = tt
parse_packets-AtMost (suc n) (parsed p ∷ ps) =
    put_first-AtMost n p (parse_packets n ps) (parse_packets-AtMost n ps)

Delivers : Option Received → Type 0
Delivers o = (r : Received) × (o ≡ some r) × AreDistinct r

merge_received-Delivers :
    (s : PktSorter) (ftime : Bool) (n : ℕ) (r : Option Received)
    → ftime ≡ true
    → n ≤ 255
    → AtMost n r
    → Delivers (merge_received s ftime r)
unfolding merge_received AtMost Delivers
merge_received-Delivers s ftime n none on l h = (received [], refl, Pairwise.nil)
merge_received-Delivers s ftime n (some receive_error) on l h = (receive_error, refl, tt)
merge_received-Delivers s ftime n (some (received [])) on l h = (received [], refl, Pairwise.nil)
merge_received-Delivers s ftime n (some (received (p ∷ ps))) on l h =
    let (qs, e, distinct) = merge_packets-IsDistinct s (p ∷ ps) (omega arith) in
    let some_there : (ltb 0 (length (p ∷ ps)) && ftime) ≡ true = ground arith in
    (received qs, rw some_there (ap (Option.map received) e), distinct)

-- With fine timestamps enabled and room for at most 255 packets, lgw_receive returns, and no two of
-- the packets that it hands out are the same reception.
pub lgw_receive-AreDistinct :
    (s : PktSorter) (c : Context) (fetched : Option ℕ) (update_ok : Bool) (max_pkt : ℕ)
    (ps : List Parsed)
    → c.ftime_cfg.enable ≡ true
    → max_pkt ≤ 255
    → (r : Received) × (lgw_receive s c fetched update_ok max_pkt ps ≡ some r) × AreDistinct r
unfolding lgw_receive Delivers
lgw_receive-AreDistinct s c none update_ok max_pkt ps on l = (receive_error, refl, tt)
lgw_receive-AreDistinct s c (some fetched) update_ok max_pkt ps on l =
    if_split Delivers (not update_ok) _ _ (λ e. (receive_error, refl, tt))
      (λ e.
        if_split Delivers (fetched == 0) _ _ (λ z. (received [], refl, Pairwise.nil))
          (λ z.
            merge_received-Delivers s c.ftime_cfg.enable
              (if leb fetched max_pkt then fetched else max_pkt) _ on (ground arith)
              (parse_packets-AtMost _ ps)))
