-- ===== src/Timestamp/Correction/Bounds.antt =====
-- The size of the delays of the legacy correction, against the limit of the assertion.
use native.Mathlib.Nat.{mul-le-mul, mod-lt, mod-eq-sub-mul-div}
use meshbeacon_uplink.Prelude.{
  ℕ, ◌+◌, ◌-◌, ◌*◌, ◌/◌, ◌^◌, ◌≤◌, ◌<◌, ◌≡◌, subst, Bool, true, false, inl, inr, some, Bool-cases,
  leb, not, ◌==◌, ◌&&◌, arith, if◌then◌else◌,
}
use meshbeacon_uplink.Prelude.Int.{ℤ, pos, sub_ℕ}
use meshbeacon_uplink.Hal.TimeOnAir.{is_lora_bw, is_lora_dr, is_lora_cr, bw_pow}
use meshbeacon_uplink.Hal.TimeOnAir.Bounds.{sf_cases}
use meshbeacon_uplink.Timestamp.Correction.{
  ppm_on, clk_period, nb_nibble_left, payload_fits_in_header, nb_nibble_in_last_block,
  filtering_delay, demap_delay, fft_delay_state3, fft_delay, decode_delay, total_delay,
  legacy_timestamp_correction, precision_timestamp_correction, counter_correction,
}

ppm_on-le : (bandwidth sf : ℕ) → ppm_on bandwidth sf ≤ 1
unfolding ppm_on
ppm_on-le bandwidth sf = ground arith

last_block_bounds :
    (fits : Bool) (sf per left : ℕ)
    → left < per
    → per ≤ sf
    → 5 ≤ sf
    → let n = if fits then if leb 7 sf then sf - 2 else sf else if left == 0 then per else left in
      (1 ≤ n) × (n ≤ sf)
last_block_bounds true sf per left h p s = ground arith
last_block_bounds false sf per left h p s = ground arith

-- The last block that is decoded has at least one nibble, and no more than the spreading factor.
pub nb_nibble_in_last_block-le :
    (sf ppm payload_length : ℕ) (crc_en : Bool)
    → is_lora_dr sf ≡ true
    → ppm ≤ 1
    → (1 ≤ nb_nibble_in_last_block sf ppm payload_length crc_en)
      × (nb_nibble_in_last_block sf ppm payload_length crc_en ≤ sf)
unfolding nb_nibble_in_last_block nb_nibble_left is_lora_dr
nb_nibble_in_last_block-le sf ppm payload_length crc_en h p =
    let range : (5 ≤ sf) × (sf ≤ 12) = ground arith in
    let left : nb_nibble_left sf ppm payload_length crc_en < sf - 2 * ppm =
      subst (λ (n : ℕ). n < sf - 2 * ppm) (mod-eq-sub-mul-div _ (sf - 2 * ppm))
        (mod-lt _ (omega arith)) in
    last_block_bounds (payload_fits_in_header sf payload_length crc_en) sf (sf - 2 * ppm)
      (nb_nibble_left sf ppm payload_length crc_en) left (omega arith) range.0

clk_period-le : (bandwidth : ℕ) → clk_period bandwidth ≤ 250000
unfolding clk_period bw_pow
clk_period-le bandwidth = ground arith

filtering_delay-le : (bandwidth : ℕ) → filtering_delay bandwidth ≤ 18031250
unfolding filtering_delay bw_pow
filtering_delay-le bandwidth = ground arith

pow-le : (sf : ℕ) → is_lora_dr sf ≡ true → (2 ^ sf ≤ 4096) × (sf ≤ 12)
pow-le sf h =
    sf_cases (λ sf. (2 ^ sf ≤ 4096) × (sf ≤ 12)) (omega arith, omega arith)
      (omega arith, omega arith) (omega arith, omega arith) (omega arith, omega arith)
      (omega arith, omega arith) (omega arith, omega arith) (omega arith, omega arith)
      (omega arith, omega arith) sf h

module _ (clk sf : ℕ) (c : clk ≤ 250000) (dr : is_lora_dr sf ≡ true) where
  symbol-le : 2 ^ sf * clk ≤ 1024000000
  symbol-le = mul-le-mul (pow-le sf dr).0 c

  fft_delay_state3-le : fft_delay_state3 clk sf ≤ 11268000000
  unfolding fft_delay_state3
  fft_delay_state3-le =
      let steps : (sf + 1) / 2 - 1 ≤ 5 = omega (arith, pow-le sf dr) in
      let inner = mul-le-mul (pow-le sf dr).0 steps in
      let outer : 2 ^ sf - 6 + 2 * (2 ^ sf * ((sf + 1) / 2 - 1) + 6) ≤ 45068 =
        omega (arith, inner, pow-le sf dr) in
      omega (arith, mul-le-mul c outer)

  fft_delay-le : (ppm : ℕ) (en : Bool) → fft_delay clk sf ppm en ≤ 5130000000
  unfolding fft_delay
  fft_delay-le ppm true =
      let few : 5 - 2 * ppm ≤ 5 = omega arith in
      let each : 2 ^ sf * clk + 7 * clk ≤ 1025750000 = omega (arith, symbol-le) in
      omega (arith, mul-le-mul few each)
  fft_delay-le ppm false =
      let twice : 2 ^ sf * 2 ≤ 8192 = omega (arith, pow-le sf dr) in
      omega (arith, mul-le-mul twice c)

  demap_delay-le : (ppm : ℕ) (fits : Bool) → demap_delay clk sf ppm fits ≤ 1030000000
  unfolding demap_delay
  demap_delay-le ppm true =
      let some_clk : sf - 2 ≤ 12 = omega (arith, pow-le sf dr) in
      omega (arith, mul-le-mul some_clk c, symbol-le)
  demap_delay-le ppm false =
      let one : 1 - ppm / 4 ≤ 1 = omega arith in
      let some_clk : sf - 2 * ppm ≤ 12 = omega (arith, pow-le sf dr) in
      omega (arith, mul-le-mul some_clk c, mul-le-mul symbol-le one)

  decode_delay-le :
      (cr nibbles : ℕ) → cr ≤ 4 → nibbles ≤ 12 → decode_delay clk cr nibbles ≤ 41000000
  unfolding decode_delay
  decode_delay-le cr nibbles k n =
      let each : 9 * clk + clk * cr ≤ 3250000 = omega (arith, mul-le-mul c k) in
      omega (arith, mul-le-mul each n)

-- Of a valid packet, with a payload of any size, the delays never come near the limit of the assertion, and
-- so there is always a correction.
pub total_delay-le :
    (bandwidth sf cr : ℕ) (crc_en : Bool) (payload_length dft_peak_mode : ℕ)
    → is_lora_dr sf ≡ true
    → cr ≤ 4
    → total_delay bandwidth sf cr crc_en payload_length dft_peak_mode ≤ 18000
unfolding total_delay
total_delay-le bandwidth sf cr crc_en payload_length dft_peak_mode dr k =
    let clk = clk_period bandwidth in
    let c = clk_period-le bandwidth in
    let ppm = ppm_on bandwidth sf in
    let fits = payload_fits_in_header sf payload_length crc_en in
    let en : Bool = if fits then false else not (dft_peak_mode == 0) in
    let cr_local : ℕ = if fits then 4 else cr in
    let rate : cr_local ≤ 4 = ground arith in
    let nibbles =
      nb_nibble_in_last_block-le sf ppm payload_length crc_en dr (ppm_on-le bandwidth sf) in
    omega (
      arith,
      filtering_delay-le bandwidth,
      fft_delay_state3-le clk sf c dr,
      fft_delay-le clk sf c dr ppm en,
      demap_delay-le clk sf c dr ppm fits,
      decode_delay-le clk sf c dr cr_local (nb_nibble_in_last_block sf ppm payload_length crc_en)
          rate (omega (arith, nibbles, pow-le sf dr)),
    )

is_lora_cr-le : (cr : ℕ) → is_lora_cr cr ≡ true → cr ≤ 4
unfolding is_lora_cr
is_lora_cr-le cr h = ground arith

legacy_total :
    (bandwidth sf cr : ℕ) (crc_en : Bool) (payload_length dft_peak_mode : ℕ)
    → is_lora_dr sf ≡ true
    → is_lora_cr cr ≡ true
    → (c : ℤ) × (legacy_timestamp_correction bandwidth sf cr crc_en payload_length dft_peak_mode
        ≡ some c)
unfolding legacy_timestamp_correction
legacy_total bandwidth sf cr crc_en payload_length dft_peak_mode dr k =
    let total = total_delay bandwidth sf cr crc_en payload_length dft_peak_mode in
    let fits : leb total 2147483647 ≡ true = ground (
      arith,
      total_delay-le bandwidth sf cr crc_en payload_length dft_peak_mode dr (is_lora_cr-le cr k),
    ) in
    elim (Bool-cases (is_lora_bw bandwidth)) [
      | inl e ↦ (sub_ℕ 0 total, rw (e, fits))
      | inr e ↦ (pos 0, rw e)
    ]

-- Whatever the packet and the settings, `timestamp_counter_correction` does not fail its assertion.
pub counter_correction_total :
    (ftime_enable : Bool) (bandwidth datarate coderate : ℕ) (crc_en : Bool)
    (payload_length dft_peak_mode : ℕ)
    → (c : ℤ) × (counter_correction ftime_enable bandwidth datarate coderate crc_en payload_length
          dft_peak_mode
        ≡ some c)
unfolding counter_correction
counter_correction_total ftime_enable bandwidth datarate coderate crc_en payload_length
      dft_peak_mode =
    elim (Bool-cases (is_lora_dr datarate && is_lora_bw bandwidth && is_lora_cr coderate)) [
      | inl e ↦ enabled ftime_enable e
      | inr e ↦ (pos 0, rw e)
    ]
  where
    enabled :
        (b : Bool)
        → (is_lora_dr datarate && is_lora_bw bandwidth && is_lora_cr coderate) ≡ true
        → (c : ℤ) × (counter_correction b bandwidth datarate coderate crc_en payload_length
              dft_peak_mode
            ≡ some c)
    enabled true e =
        (precision_timestamp_correction bandwidth datarate coderate crc_en payload_length, rw e)
    enabled false e =
        let (c, found) =
          legacy_total bandwidth datarate coderate crc_en payload_length dft_peak_mode
            (ground arith) (ground arith) in
        (c, rw (e, found))
