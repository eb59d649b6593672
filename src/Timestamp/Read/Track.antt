-- ===== src/Timestamp/Read/Track.antt =====
-- A reading of the registers against the times that they show.
use meshbeacon_uplink.Prelude.{
  ℕ, ◌+◌, ◌*◌, ◌/◌, ◌%◌, ◌^◌, ◌≤◌, ◌<◌, ◌≡◌, List, [], ◌∷◌, Option, some, u32, arith, bit_or,
}
use meshbeacon_uplink.Prelude.Bits.{or_shifted}
use meshbeacon_uplink.Timestamp.Counter.{TimestampCounter}
use meshbeacon_uplink.Timestamp.Counter.Sync.{Tracks, raw, period, counter_update-Tracks}
use meshbeacon_uplink.Timestamp.History.{PpsHistory}
use meshbeacon_uplink.Timestamp.History.Recent.{IsValid, recent, push_recent, history_save-recent}
use meshbeacon_uplink.Timestamp.Read.{be_word, stable_read, Reading, use_reading, counter_get}

-- The registers that show two 32-bit counters.
abbrev pub registers : ℕ → ℕ → List ℕ
registers pps inst =
    pps / 2 ^ 24
    ∷ pps / 2 ^ 16 % 256
    ∷ pps / 2 ^ 8 % 256
    ∷ pps % 256
    ∷ inst / 2 ^ 24
    ∷ inst / 2 ^ 16 % 256
    ∷ inst / 2 ^ 8 % 256
    ∷ inst % 256
    ∷ []

join_bytes :
    (w : ℕ)
    → bit_or
        (bit_or
          (bit_or (w / 2 ^ 24 * 2 ^ 24) (w / 2 ^ 16 % 256 * 2 ^ 16))
          (w / 2 ^ 8 % 256 * 2 ^ 8))
        (w % 256)
      ≡ w
join_bytes w =
    let two : w / 2 ^ 24 * 2 ^ 24 + w / 2 ^ 16 % 256 * 2 ^ 16 ≡ w / 2 ^ 16 * 2 ^ 16 = omega arith in
    let three : w / 2 ^ 16 * 2 ^ 16 + w / 2 ^ 8 % 256 * 2 ^ 8 ≡ w / 2 ^ 8 * 2 ^ 8 = omega arith in
    rw
      (
        or_shifted 24 (w / 2 ^ 24) (w / 2 ^ 16 % 256 * 2 ^ 16) (omega arith),
        two,
        or_shifted 16 (w / 2 ^ 16) (w / 2 ^ 8 % 256 * 2 ^ 8) (omega arith),
        three,
        or_shifted 8 (w / 2 ^ 8) (w % 256) (omega arith),
      )
      (omega arith)

be_word-registers :
    (pps inst : ℕ)
    → (be_word (registers pps inst) 0 ≡ pps) × (be_word (registers pps inst) 4 ≡ inst)
unfolding be_word
be_word-registers pps inst = (join_bytes pps, join_bytes inst)

-- The registers count at 32 MHz: a counter shows the time `t` in microseconds if it has 27 bits of `t`
-- over five bits of fraction.
abbrev pub Shows : ℕ → ℕ → Type 0
Shows reg t = reg / 32 ≡ raw t

-- A reading that the chip gives consistently brings the counters to the times shown, returns the low 32
-- bits of both, and enters the PPS counter in the history, provided that less than a period has passed
-- since the counters were last updated.
pub counter_get-Tracks :
    (self : TimestampCounter) (h : PpsHistory) (first second third : Option (List ℕ))
    (pps_reg inst_reg pps inst pps' inst' : ℕ)
    → Tracks self pps inst
    → IsValid h
    → stable_read first second third ≡ some (registers pps_reg inst_reg)
    → Shows pps_reg pps'
    → Shows inst_reg inst'
    → pps ≤ pps'
    → pps' < pps + period
    → inst ≤ inst'
    → inst' < inst + period
    → (r : Reading) × (counter_get self h first second third ≡ some r)
      × Tracks r.counter pps' inst'
      × (r.pps ≡ u32 pps')
      × (r.inst ≡ u32 inst')
      × (recent r.pps_history ≡ push_recent pps_reg (recent h))
unfolding counter_get use_reading
counter_get-Tracks self h first second third pps_reg inst_reg pps inst pps' inst' s v read sp si p1
      p2 i1 i2 =
    let words = be_word-registers pps_reg inst_reg in
    let (tracks, pps_eq, inst_eq) = counter_update-Tracks self pps inst pps' inst' s p1 p2 i1 i2 in
    (
      use_reading self h (registers pps_reg inst_reg),
      rw read,
      rw (words.0, words.1, sp, si) tracks,
      rw (words.0, words.1, sp, si) pps_eq,
      rw (words.0, words.1, sp, si) inst_eq,
      rw words.0 (history_save-recent h pps_reg v).1,
    )
