-- ===== src/Hal/Tests.antt =====
-- The time on air of a sample packet, and the theorems at concrete inputs.
use native.Mathlib.Nat.{ℕ_set}
use mathlib.Core.List.{Mem}
use mathlib.Core.List.Perm
use meshbeacon_uplink.Prelude.Every.{All-mem}
use meshbeacon_uplink.Prelude.Int.{pos}
use meshbeacon_uplink.Prelude.{
  Bool, List, map, [], ◌∷◌, inl, inr, ap, ℕ, ◌≡◌, refl, true, false, some, arith,
}
use meshbeacon_uplink.Hal.RxPkt.{RxPkt, stat_crc_ok, stat_crc_bad}
use meshbeacon_uplink.Hal.Merge.{
  PktSorter, merge_packets, merge_loop, find_same, remove_pkt, is_same_pkt, abs_diff, is_same_bytes,
  drops_first,
}
use meshbeacon_uplink.Hal.Merge.Choice.{IsChecked}
use meshbeacon_uplink.Hal.Merge.Kept.{IsCarried, merge_packets-IsCarried}
use meshbeacon_uplink.Hal.Config.Types.{Context, initial_context, all_sf}
use meshbeacon_uplink.Hal.Receive.{
  Received, parsed, lgw_receive, AreDistinct, lgw_receive-AreDistinct,
}
use meshbeacon_uplink.Hal.TimeOnAir.{TimeOnAir}

-- SF7, 125 kHz, coding rate 4/5, 8 symbols of preamble, 20 bytes with a CRC: 56.576 ms.
abbrev sample_toa : TimeOnAir
sample_toa = record {
  toa_us = 56576;
  quarter_symbols = 221;
  nb_symbols_payload = 35;
  t_symbol_us = 1024;
}

-- A C library that sorts by leaving the packets as they are.
abbrev no_sorter : PktSorter
no_sorter = record { qsort_r = λ cmp ps. ps; qsort_r-perm = λ cmp ps. Perm.rfl }

-- A packet with its status and fine timestamp.
abbrev sample_rx : ℕ → Bool → ℕ → RxPkt
sample_rx status ftime_received count_us = record {
  freq_hz = 868100000;
  freq_offset = pos 0;
  if_chain = 2;
  status = status;
  count_us = count_us;
  rf_chain = 0;
  modem_id = 0;
  modulation = 16;
  bandwidth = 4;
  datarate = 7;
  coderate = 1;
  crc = 0;
  size = 2;
  payload = 1 ∷ 2 ∷ [];
  ftime_received = ftime_received;
  ftime = 0;
}

-- Three receptions of one packet, and a later one.
abbrev sample_rxs : List RxPkt
sample_rxs =
    sample_rx stat_crc_bad true 1000
    ∷ sample_rx stat_crc_ok false 1024
    ∷ sample_rx stat_crc_ok true 1010
    ∷ sample_rx stat_crc_ok true 5000
    ∷ []

sample_rxs-IsChecked : (p : RxPkt) → Mem p sample_rxs → IsChecked p
sample_rxs-IsChecked p m =
    All-mem IsChecked IsChecked-prop sample_rxs p (inr refl, (inl refl, (inl refl, (inl refl, tt))))
      m
  where
    IsChecked-prop : (q : RxPkt) → IsProp (IsChecked q)
    IsChecked-prop q (inl a) (inl b) = ap inl (ℕ_set _ _ a b)
    IsChecked-prop q (inl a) (inr b) = absurd (omega (arith, a, b))
    IsChecked-prop q (inr a) (inl b) = absurd (omega (arith, a, b))
    IsChecked-prop q (inr a) (inr b) = ap inr (ℕ_set _ _ a b)

merge_packets-IsCarried_example :
    (result : List RxPkt) × (merge_packets no_sorter sample_rxs ≡ some result)
    × ((q : RxPkt) → Mem q result → Mem q sample_rxs)
    × ((p : RxPkt) → Mem p sample_rxs → IsCarried p result)
merge_packets-IsCarried_example =
    merge_packets-IsCarried no_sorter sample_rxs (omega arith) sample_rxs-IsChecked

abbrev with_ftime : Context
with_ftime = record initial_context { ftime_cfg = record { enable = true; mode = all_sf } }

lgw_receive-AreDistinct_example :
    (r : Received) × (lgw_receive no_sorter with_ftime (some 4) true 255 (map parsed sample_rxs)
      ≡ some r)
    × AreDistinct r
lgw_receive-AreDistinct_example =
    lgw_receive-AreDistinct no_sorter with_ftime (some 4) true 255 (map parsed sample_rxs) refl
      (omega arith)

-- The packet with a checksum and a fine timestamp stays, and the last one takes the place of the first.
merge_packets_eq :
    merge_packets no_sorter sample_rxs
    ≡ some (sample_rx stat_crc_ok true 5000 ∷ sample_rx stat_crc_ok true 1010 ∷ [])
unfolding merge_packets merge_loop find_same remove_pkt is_same_pkt abs_diff is_same_bytes
    drops_first
merge_packets_eq = refl
