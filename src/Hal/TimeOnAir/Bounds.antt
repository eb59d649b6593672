-- ===== src/Hal/TimeOnAir/Bounds.antt =====
-- The time on air of LoRa packets: the symbols of the payload, and the size of the results.
use native.Mathlib.Nat.{mul-le-mul}
use native.Mathlib.Decide.{dec_le}
use meshbeacon_uplink.Prelude.{
  ℕ, ◌+◌, ◌-◌, ◌*◌, ◌/◌, ◌^◌, ◌≤◌, ◌<◌, ◌≡◌, refl, Bool, true, inl, inr, some, Option-cases, arith,
  u8, u16, u32,
}
use meshbeacon_uplink.Hal.Packet.{TxPacket}
use meshbeacon_uplink.Hal.TimeOnAir.{
  is_lora_bw, is_lora_dr, is_lora_cr, bw_pow, TimeOnAir, symbol_us, payload_bits, bits_per_block,
  payload_symbols, quarters, lora_packet_time_on_air, toa_ms, lgw_time_on_air,
}

-- The eight spreading factors, one by one.
pub sf_cases :
    (P : ℕ → Type 0)
    → P 5
    → P 6
    → P 7
    → P 8
    → P 9
    → P 10
    → P 11
    → P 12
    → (sf : ℕ) → is_lora_dr sf ≡ true
    → P sf
unfolding is_lora_dr
sf_cases P p₅ p₆ p₇ p₈ p₉ p₁₀ p₁₁ p₁₂ sf h = elim (dec_le sf 8) [
  | yes low ↦ elim (dec_le sf 6) [
    | yes a ↦ elim (dec_le sf 5) [
      | yes b ↦ let e : sf ≡ 5 = ground arith in rw e p₅
      | no b ↦ let e : sf ≡ 6 = omega arith in rw e p₆
    ]
    | no a ↦ elim (dec_le sf 7) [
      | yes b ↦ let e : sf ≡ 7 = omega arith in rw e p₇
      | no b ↦ let e : sf ≡ 8 = omega arith in rw e p₈
    ]
  ]
  | no high ↦ elim (dec_le sf 10) [
    | yes a ↦ elim (dec_le sf 9) [
      | yes b ↦ let e : sf ≡ 9 = omega arith in rw e p₉
      | no b ↦ let e : sf ≡ 10 = omega arith in rw e p₁₀
    ]
    | no a ↦ elim (dec_le sf 11) [
      | yes b ↦ let e : sf ≡ 11 = omega arith in rw e p₁₁
      | no b ↦ let e : sf ≡ 12 = ground arith in rw e p₁₂
    ]
  ]
]

block_bounds : (sf : ℕ) → is_lora_dr sf ≡ true → (20 ≤ bits_per_block sf) × (bits_per_block sf ≤ 40)
unfolding bits_per_block is_lora_dr
block_bounds sf h = ground arith

-- The blocks of the payload: enough for its bits, and one less would not do. There are `cr + 4` symbols
-- in a block.
pub payload_symbols_least :
    (sf cr : ℕ) (no_header no_crc : Bool) (size : ℕ)
    → is_lora_dr sf ≡ true
    → (blocks : ℕ) × (payload_symbols sf cr no_header no_crc size ≡ blocks * (cr + 4))
      × (payload_bits sf no_header no_crc size ≤ blocks * bits_per_block sf)
      × (blocks * bits_per_block sf < payload_bits sf no_header no_crc size + bits_per_block sf)
unfolding payload_symbols
payload_symbols_least sf cr no_header no_crc size h =
    let bits = payload_bits sf no_header no_crc size in
    (
      (bits + bits_per_block sf - 1) / bits_per_block sf,
      refl,
      omega (arith, block_bounds sf h),
      omega (arith, block_bounds sf h),
    )

-- The duration of a symbol is that of its chips, exactly, and fits 16 bits.
symbol_us-exact :
    (bw sf : ℕ)
    → is_lora_dr sf ≡ true
    → is_lora_bw bw ≡ true
    → (symbol_us bw sf * bw_pow bw ≡ 2 ^ sf * 8) × (symbol_us bw sf ≤ 32768)
unfolding symbol_us is_lora_bw bw_pow
symbol_us-exact bw sf h b =
    sf_cases
      (λ s.
        (u16 (2 ^ s * 8 / bw_pow bw) * bw_pow bw ≡ 2 ^ s * 8)
        × (u16 (2 ^ s * 8 / bw_pow bw) ≤ 32768))
      (ground arith) (ground arith) (ground arith) (ground arith) (ground arith) (ground arith)
      (ground arith) (ground arith) sf h

payload_bits-le :
    (sf : ℕ) (no_header no_crc : Bool) (size : ℕ)
    → size ≤ 255
    → payload_bits sf no_header no_crc size ≤ 2084
unfolding payload_bits
payload_bits-le sf no_header no_crc size s = ground arith

blocks-le :
    (blocks per bits : ℕ)
    → 20 ≤ per
    → per ≤ 40
    → bits ≤ 2084
    → blocks * per < bits + per
    → blocks ≤ 106
blocks-le blocks per bits lo hi b h =
    let product : blocks * 20 ≤ blocks * per = grind arith in omega (arith, product)

payload_symbols-le :
    (sf cr : ℕ) (no_header no_crc : Bool) (size : ℕ)
    → is_lora_dr sf ≡ true
    → is_lora_cr cr ≡ true
    → size ≤ 255
    → payload_symbols sf cr no_header no_crc size ≤ 1000
unfolding is_lora_cr
payload_symbols-le sf cr no_header no_crc size h c s =
    let (blocks, e, _, least) = payload_symbols_least sf cr no_header no_crc size h in
    let bound = block_bounds sf h in
    let few : blocks ≤ 106 =
      blocks-le blocks (bits_per_block sf) (payload_bits sf no_header no_crc size) bound.0 bound.1
        (payload_bits-le sf no_header no_crc size s) least in
    let rate : cr + 4 ≤ 8 = ground arith in
    let product : blocks * (cr + 4) ≤ blocks * 8 = grind arith in omega (arith, e, product)

quarters-le : (sf n m : ℕ) → n ≤ 65535 → m ≤ 1000 → quarters sf n m ≤ 266200
unfolding quarters
quarters-le sf n m hn hm = ground arith

-- Neither the 16-bit nor the 32-bit result overflows, whatever the preamble and the payload.
pub lora_packet_time_on_air_bound :
    (bw sf cr n_symbol_preamble : ℕ) (no_header no_crc : Bool) (size : ℕ) (t : TimeOnAir)
    → n_symbol_preamble ≤ 65535
    → size ≤ 255
    → lora_packet_time_on_air bw sf cr n_symbol_preamble no_header no_crc size ≡ some t
    → (t.toa_us ≡ t.quarter_symbols * t.t_symbol_us / 4)
      × (t.t_symbol_us * bw_pow bw ≡ 2 ^ sf * 8)
      × (t.toa_us ≤ 2180710400)
unfolding lora_packet_time_on_air
lora_packet_time_on_air_bound bw sf cr n nh nc size t hn hs e =
    let dr : is_lora_dr sf ≡ true = ground arith in
    let band : is_lora_bw bw ≡ true = ground arith in
    let rate : is_lora_cr cr ≡ true = ground arith in
    let symbol = symbol_us-exact bw sf dr band in
    let few = quarters-le sf n _ hn (payload_symbols-le sf cr nh nc size dr rate hs) in
    let product = mul-le-mul few symbol.1 in
    let number : t.quarter_symbols ≡ quarters sf n (payload_symbols sf cr nh nc size) =
      ground arith in
    let duration : t.t_symbol_us ≡ symbol_us bw sf = ground arith in
    let total : t.toa_us
        ≡ u32 (quarters sf n (payload_symbols sf cr nh nc size) * symbol_us bw sf / 4) =
      ground arith in
    rw (total, number, duration) (omega (arith, product), symbol.0, omega (arith, product))

-- A packet of `lgw_pkt_tx_s`, LoRa or FSK, has a time on air below 4000 seconds, if the FSK ones do.
pub lgw_time_on_air-le :
    (fsk_toa_ms : TxPacket → ℕ) (packet : TxPacket)
    → packet.preamble ≤ 65535
    → fsk_toa_ms packet ≤ 4000000
    → lgw_time_on_air fsk_toa_ms packet ≤ 4000000
unfolding lgw_time_on_air toa_ms
lgw_time_on_air-le fsk packet h f =
    elim (Option-cases (
      lora_packet_time_on_air packet.bandwidth (u8 packet.datarate) packet.coderate packet.preamble
        packet.no_header packet.no_crc (u8 packet.size))) [
          | inl e ↦ ground (arith, e)
          | inr (t, e) ↦
              let bound =
                lora_packet_time_on_air_bound packet.bandwidth (u8 packet.datarate) packet.coderate
                  packet.preamble packet.no_header packet.no_crc (u8 packet.size) t h (omega arith)
                  e in
              ground (arith, e, bound.2)
        ]
