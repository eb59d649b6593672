-- ===== src/Rx/Buffer/Total.antt =====
-- The loops of `rx_buffer_fetch` against their fuel.
use meshbeacon_uplink.Prelude.{
  ℕ, zero, suc, take, ◌==◌, ◌+◌, ◌<◌, ◌≡◌, ◌≢◌, refl, Bool, true, false, List, Option, none, some,
  arith, leb, ltb, u8, Bool-cases, Option-cases, inl, inr, if◌then◌else◌,
}
use meshbeacon_uplink.Rx.Buffer.{
  RxBuffer, success, buffer_del, Count, counted, lost, outside, FetchResult, fault, count_packets,
  is_sync, packet_size, last_read, count_fetched, use_fetched, resync, find_sync, fetch,
  fetched_size,
}

pub count_packets_ends :
    (fuel : ℕ) (buffer : List ℕ) (size idx pkt_nb : ℕ)
    → size < fuel + idx
    → 0 < fuel
    → count_packets fuel buffer size idx pkt_nb ≢ Count.out_of_fuel
unfolding count_packets
count_packets_ends zero buffer size idx pkt_nb h pos = elim pos [ ]
count_packets_ends (suc zero) buffer size idx pkt_nb h pos =
    let stop : leb size idx ≡ true = ground arith in rw stop (λ f. cc)
count_packets_ends (suc (suc fuel)) buffer size idx pkt_nb h pos =
    let next =
      count_packets_ends (suc fuel) buffer size (idx + packet_size buffer idx) (u8 (pkt_nb + 1))
        (omega arith) (omega arith) in
    elim (Bool-cases (leb size idx)) [
      | inl e ↦ rw e (λ f. cc)
      | inr e ↦ rw e (sync_cases _ next (is_sync buffer idx))
    ]
  where
    sync_cases :
        (rest : Count)
        → rest ≢ Count.out_of_fuel
        → (o : Option Bool)
        → (elim o [
          | none ↦ outside
          | some false ↦ lost
          | some true ↦ if ltb (last_read buffer idx) 4096 then rest else outside
        ])
          ≢ Count.out_of_fuel
    sync_cases rest h none = λ f. cc
    sync_cases rest h (some false) = λ f. cc
    sync_cases rest h (some true) = elim (Bool-cases (ltb (last_read buffer idx) 4096)) [
      | inl e ↦ rw e h
      | inr e ↦ rw e (λ f. cc)
    ]

count_fetched-ne-fuel : (self : RxBuffer) → count_fetched self ≢ FetchResult.out_of_fuel
unfolding count_fetched
count_fetched-ne-fuel self =
    count_cases
      (count_packets (suc self.buffer_size) self.buffer self.buffer_size 0 self.buffer_pkt_nb)
      (count_packets_ends (suc self.buffer_size) self.buffer self.buffer_size 0 self.buffer_pkt_nb
        (omega arith) (omega arith))
  where
    count_cases :
        (c : Count)
        → c ≢ Count.out_of_fuel
        → (elim c [
          | counted n ↦
              FetchResult.returns success (record self { buffer_index = 0; buffer_pkt_nb = n })
          | lost ↦ FetchResult.returns success (buffer_del self)
          | outside ↦ fault
          | Count.out_of_fuel ↦ FetchResult.out_of_fuel
        ])
          ≢ FetchResult.out_of_fuel
    count_cases (counted n) h = λ f. cc
    count_cases lost h = λ f. cc
    count_cases outside h = λ f. cc
    count_cases Count.out_of_fuel h = absurd (h refl)

use_fetched-ne-fuel : (self : RxBuffer) → use_fetched self ≢ FetchResult.out_of_fuel
unfolding use_fetched
use_fetched-ne-fuel self = elim (Bool-cases (ltb self.buffer_size 23)) [
  | inl e ↦ rw e (λ f. cc)
  | inr e ↦ elim (Option-cases (find_sync (take self.buffer_size self.buffer))) [
    | inl o ↦ rw (e, o) (λ f. cc)
    | inr (i, o) ↦ rw (e, o) (count_fetched-ne-fuel (resync self i))
  ]
]

-- Whatever the FIFO holds, the loops of `rx_buffer_fetch` end within the fuel given.
fetch_ends :
    (lgw_mem_rb : ℕ → Bool × List ℕ) (self : RxBuffer) (first second : ℕ × ℕ)
    → fetch lgw_mem_rb self first second ≢ FetchResult.out_of_fuel
unfolding fetch
fetch_ends mem self first second =
    let size = fetched_size first second in
    elim (Bool-cases (size == 0)) [
      | inl e ↦ rw e (λ f. cc)
      | inr e ↦ elim (Bool-cases (ltb 4096 size)) [
        | inl big ↦ rw (e, big) (λ f. cc)
        | inr fits ↦ elim (Bool-cases (mem size).0) [
          | inl ok ↦ rw (e, fits, ok) (use_fetched-ne-fuel _)
          | inr bad ↦ rw (e, fits, bad) (λ f. cc)
        ]
      ]
    ]
