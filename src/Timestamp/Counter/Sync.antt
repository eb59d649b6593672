-- ===== src/Timestamp/Counter/Sync.antt =====
-- The extended counters against the time that they count: `t` is the number of microseconds since the
-- concentrator started, of which the hardware shows the low 27 bits.
use meshbeacon_uplink.Prelude.{
  ℕ, ◌+◌, ◌-◌, ◌*◌, ◌/◌, ◌%◌, ◌^◌, ◌≤◌, ◌<◌, ◌≡◌, refl, u8, u32, arith, leb, if◌then◌else◌, true,
  false,
}
use meshbeacon_uplink.Prelude.Bits.{or_shifted, and_mask}
use meshbeacon_uplink.Timestamp.Counter.{
  TimestampInfo, TimestampCounter, counter_new, update_info, counter_update, expand_info,
  counter_expand, pkt_expand,
}

abbrev pub period : ℕ
period = 134217728

-- The low 27 bits of a time, as the hardware shows them.
abbrev pub raw : ℕ → ℕ
raw t = t % period

pub record InSync (info : TimestampInfo) (t : ℕ) : Type 0 where
  pub ref_eq : info.counter_us_27bits_ref ≡ t % period
  pub wrap_eq : info.counter_us_27bits_wrap ≡ t / period % 32

-- An update less than one period after the last one counts the wraps right.
update_info-InSync :
    (info : TimestampInfo) (t later : ℕ)
    → InSync info t
    → t ≤ later
    → later < t + period
    → InSync (update_info info (raw later)) later
unfolding update_info
update_info-InSync info t later s h1 h2 = record { ref_eq = refl; wrap_eq = ground arith }

expand_info-InSync :
    (info : TimestampInfo) (t : ℕ) → InSync info t → expand_info info (raw t) ≡ u32 t
unfolding expand_info
expand_info-InSync info t s =
    let fits : u32 (info.counter_us_27bits_wrap * 2 ^ 27) ≡ info.counter_us_27bits_wrap * 2 ^ 27 =
      omega (arith, s.wrap_eq) in
    rw (fits, or_shifted 27 info.counter_us_27bits_wrap (raw t) (omega arith))
      (omega (arith, s.wrap_eq))

-- A packet received less than one period before the last update is given its own 32-bit time, also when
-- the counter has wrapped since.
pkt_expand-InSync :
    (self : TimestampCounter) (t received : ℕ)
    → InSync self.inst t
    → received ≤ t
    → t < received + period
    → pkt_expand self (raw received) ≡ u32 received
unfolding pkt_expand
pkt_expand-InSync self t received s h1 h2 =
    let back : ℕ = if leb (raw received) self.inst.counter_us_27bits_ref then 0 else 1 in
    let wrap = u8 (self.inst.counter_us_27bits_wrap + 256 - back) in
    let status : wrap % 32 ≡ received / period % 32 = ground (arith, s.wrap_eq, s.ref_eq) in
    let fits : u32 (wrap % 32 * 2 ^ 27) ≡ wrap % 32 * 2 ^ 27 = omega arith in
    rw (and_mask 5 wrap, fits, or_shifted 27 (wrap % 32) (raw received) (omega arith), status)
      (omega arith)

-- Both counters of the software are in step with times of the hardware.
pub record Tracks (self : TimestampCounter) (pps inst : ℕ) : Type 0 where
  pub pps_sync : InSync self.pps pps
  pub inst_sync : InSync self.inst inst

-- A cleared counter is in step with times in the first period.
pub counter_new-Tracks : (self : TimestampCounter) → Tracks (counter_new self) 0 0
unfolding counter_new
counter_new-Tracks self = record {
  pps_sync = record { ref_eq = refl; wrap_eq = refl };
  inst_sync = record { ref_eq = refl; wrap_eq = refl };
}

-- Updated at least once in a period, the counters follow the hardware without limit, and each expands to
-- the low 32 bits of its time.
pub counter_update-Tracks :
    (self : TimestampCounter) (pps inst pps' inst' : ℕ)
    → Tracks self pps inst
    → pps ≤ pps'
    → pps' < pps + period
    → inst ≤ inst'
    → inst' < inst + period
    → let self' = counter_update self (raw pps') (raw inst') in
      Tracks self' pps' inst'
      × (counter_expand self' true (raw pps') ≡ u32 pps')
      × (counter_expand self' false (raw inst') ≡ u32 inst')
unfolding counter_update counter_expand
counter_update-Tracks self pps inst pps' inst' s p1 p2 i1 i2 =
    let pps_sync = update_info-InSync self.pps pps pps' s.pps_sync p1 p2 in
    let inst_sync = update_info-InSync self.inst inst inst' s.inst_sync i1 i2 in
    (
      record { pps_sync = pps_sync; inst_sync = inst_sync },
      expand_info-InSync _ pps' pps_sync,
      expand_info-InSync _ inst' inst_sync,
    )
