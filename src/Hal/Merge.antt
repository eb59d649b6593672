-- ===== src/Hal/Merge.antt =====
-- libloragw/src/loragw_hal.c: `is_same_pkt`, `remove_pkt`, `compare_pkt_tmst` and `merge_packets`. The array
-- of packets is the list of those counted by `nb_pkt`; what C leaves behind the count is not modelled.
mod Remove
mod Search
pub mod Choice
mod Steps
mod Total
pub mod Distinct
pub mod Kept
use mathlib.Core.Option
use mathlib.Core.List.{Perm}
use meshbeacon_uplink.Prelude.{
  ℕ, zero, suc, ◌+◌, ◌-◌, Bool, true, false, ◌&&◌, List, [], ◌∷◌, Option, none, some, leb, ltb,
  ◌==◌, if◌then◌else◌, length, take, drop, set, get_or, sub_u32,
}
use meshbeacon_uplink.Prelude.Int.{ℤ, pos, to_int32, ◌-ℤ◌, in_int32}
use meshbeacon_uplink.Hal.RxPkt.{RxPkt, stat_crc_bad, stat_crc_ok}

-- `abs` of a difference of `uint32_t`, taken as an `int`. At 2 ^ 31, where C leaves `abs` undefined, it is
-- 2 ^ 31 here.
unfoldable pub abs_diff : ℕ → ℕ → ℕ
abs_diff a b = let d = sub_u32 a b in if ltb d 2147483648 then d else 4294967296 - d

-- `memcmp` on two parts of the same length.
unfoldable pub is_same_bytes : List ℕ → List ℕ → Bool
is_same_bytes [] [] = true
is_same_bytes [] (y ∷ ys) = false
is_same_bytes (x ∷ xs) [] = false
is_same_bytes (x ∷ xs) (y ∷ ys) = x == y && is_same_bytes xs ys

-- The payloads agree on `size` bytes.
abbrev pub is_same_payload : RxPkt → RxPkt → Bool
is_same_payload p q = is_same_bytes (take p.size p.payload) (take p.size q.payload)

unfoldable pub is_same_pkt : RxPkt → RxPkt → Bool
is_same_pkt p q =
    leb (abs_diff p.count_us q.count_us) 24
    && p.if_chain == q.if_chain
    && p.datarate == q.datarate
    && p.size == q.size
    && is_same_payload p q

abbrev pub no_pkt : RxPkt
no_pkt = record {
  freq_hz = 0;
  freq_offset = pos 0;
  if_chain = 0;
  status = 0;
  count_us = 0;
  rf_chain = 0;
  modem_id = 0;
  modulation = 0;
  bandwidth = 0;
  datarate = 0;
  coderate = 0;
  crc = 0;
  size = 0;
  payload = [];
  ftime_received = false;
  ftime = 0;
}

abbrev pub pkt_at : List RxPkt → ℕ → RxPkt
pkt_at ps i = get_or ps i no_pkt

-- The last packet takes the place of the one removed, and is counted no more. An index behind the last
-- packet is an error.
unfoldable pub remove_pkt : List RxPkt → ℕ → Option (List RxPkt)
remove_pkt ps pkt_index =
    let last = length ps - 1 in
    if ltb pkt_index (length ps)
    then some (take last (if pkt_index == last then ps else set ps pkt_index (pkt_at ps last)))
    else none

-- Which of two packets that are the same is to be removed: is it the first?
unfoldable pub drops_first : RxPkt → RxPkt → Bool
drops_first p q =
    if p.status == stat_crc_ok && q.status == stat_crc_bad
    then false
    else if p.status == stat_crc_bad && q.status == stat_crc_ok
    then true
    else if p.ftime_received
    then false
    else true

-- The first packet that is the same as `p`, by its place.
unfoldable pub find_same : RxPkt → List RxPkt → Option ℕ
find_same p [] = none
find_same p (q ∷ qs) =
    let rest = find_same p qs in
    if is_same_pkt p q then some 0 else elim rest [ none ↦ none | some i ↦ some (suc i) ]

-- The packets after the removal of `i`. An error leaves them as they are.
abbrev pub remove_or_keep : List RxPkt → ℕ → List RxPkt
remove_or_keep ps i = Option.get_or (remove_pkt ps i) ps

-- The index that is removed, of the two at `j` and at `k`.
abbrev pub pkt_dup_idx : List RxPkt → ℕ → ℕ → ℕ
pkt_dup_idx ps j k = if drops_first (pkt_at ps j) (pkt_at ps k) then j else k

-- The search starts anew after each removal.
unfoldable pub merge_loop : ℕ → ℕ → List RxPkt → Option (List RxPkt)
unfolding find_same remove_pkt
merge_loop zero j ps = none
merge_loop (suc fuel) j ps =
    let next = merge_loop fuel (j + 1) ps in
    if leb (length ps) j then some ps else elim (find_same (pkt_at ps j) (drop (j + 1) ps)) [
      | none ↦ next
      | some d ↦ merge_loop fuel 0 (remove_or_keep ps (pkt_dup_idx ps j (j + 1 + d)))
    ]

abbrev pub merge_fuel : ℕ
merge_fuel = 65536

-- `none` where the subtraction overflows `int`.
unfoldable pub compare_pkt_tmst : RxPkt → RxPkt → Option ℤ
compare_pkt_tmst p q = in_int32 (to_int32 p.count_us -ℤ to_int32 q.count_us)

-- `qsort_r` of the C library. It only moves entries about.
pub record PktSorter : Type 0 where
  pub qsort_r : (RxPkt → RxPkt → Option ℤ) → List RxPkt → List RxPkt
  pub qsort_r-perm : (cmp : RxPkt → RxPkt → Option ℤ) (ps : List RxPkt) → Perm (qsort_r cmp ps) ps

-- `none` where the fuel runs out.
unfoldable pub merge_packets : PktSorter → List RxPkt → Option (List RxPkt)
unfolding merge_loop
merge_packets s ps = Option.map (s.qsort_r compare_pkt_tmst) (merge_loop merge_fuel 0 ps)
