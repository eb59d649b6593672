-- ===== src/Timestamp/Tests.antt =====
-- The theorems on the counters at concrete inputs.
use meshbeacon_uplink.Prelude.{◌≡◌, refl, true, false, [], some, none, u32, arith}
use meshbeacon_uplink.Prelude.Int.{ℤ}
use meshbeacon_uplink.Timestamp.Correction.{counter_correction}
use meshbeacon_uplink.Timestamp.Correction.Bounds.{counter_correction_total}
use meshbeacon_uplink.Timestamp.Counter.{TimestampCounter}
use meshbeacon_uplink.Timestamp.Counter.Sync.{Tracks}
use meshbeacon_uplink.Timestamp.History.{no_history, history_save}
use meshbeacon_uplink.Timestamp.History.Recent.{IsValid, recent, push_recent, history_save-recent}
use meshbeacon_uplink.Timestamp.Read.{Reading, stable_read, counter_get}
use meshbeacon_uplink.Timestamp.Read.Track.{registers, counter_get-Tracks}

-- Just before the first wrap of the free-running counter.
abbrev before_wrap : TimestampCounter
before_wrap = record {
  inst = record { counter_us_27bits_ref = 134217000; counter_us_27bits_wrap = 0 };
  pps = record { counter_us_27bits_ref = 134000000; counter_us_27bits_wrap = 0 };
}

before_wrap-Tracks : Tracks before_wrap 134000000 134217000
before_wrap-Tracks = record {
  pps_sync = record { ref_eq = refl; wrap_eq = refl };
  inst_sync = record { ref_eq = refl; wrap_eq = refl };
}

-- After the wrap, at 134218000.
abbrev after_wrap : TimestampCounter
after_wrap = record {
  inst = record { counter_us_27bits_ref = 272; counter_us_27bits_wrap = 1 };
  pps = record { counter_us_27bits_ref = 134000000; counter_us_27bits_wrap = 0 };
}

no_history-IsValid : IsValid no_history
no_history-IsValid = record {
  sized = refl;
  inside = omega arith;
  fits = omega arith;
  fresh = λ e. refl;
}

history_save-recent_example :
    IsValid (history_save no_history 5) × (recent (history_save no_history 5) ≡ push_recent 5 [])
history_save-recent_example = history_save-recent no_history 5 no_history-IsValid

-- 32 times 134000000, and 32 times 272 with a fraction of 7.
counter_get-Tracks_example :
    (r : Reading) × (counter_get before_wrap no_history
        (some (registers 4288000000 8711))
        (some (registers 4288000000 8740))
        none
      ≡ some r)
    × Tracks r.counter 134000000 134218000
    × (r.pps ≡ u32 134000000)
    × (r.inst ≡ u32 134218000)
    × (recent r.pps_history ≡ push_recent 4288000000 [])
unfolding stable_read
counter_get-Tracks_example =
    counter_get-Tracks before_wrap no_history (some (registers 4288000000 8711))
      (some (registers 4288000000 8740)) none 4288000000 8711 134000000 134217000 134000000
      134218000 before_wrap-Tracks no_history-IsValid refl refl refl (omega arith) (omega arith)
      (omega arith) (omega arith)

counter_correction_total_example : (c : ℤ) × (counter_correction false 4 7 1 true 20 1 ≡ some c)
counter_correction_total_example = counter_correction_total false 4 7 1 true 20 1
