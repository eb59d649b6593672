-- ===== src/Rx/Pop/Checks.antt =====
-- The checks of `rx_buffer_pop`.
use meshbeacon_uplink.Prelude.{
  ◌+◌, ◌*◌, ◌≤◌, ◌≡◌, refl, Bool, true, false, ◌==◌, arith, leb, ltb, Bool-cases, inl, inr, some,
  none, ◌⊎◌, ◌≢◌, Option, subst,
}
use meshbeacon_uplink.Rx.Buffer.{
  RxBuffer, RegStatus, success, is_sync, packet_size, num_ts_metrics, last_read,
}
use meshbeacon_uplink.Rx.Pop.{
  RxPacket, PopResult, returns, fault, pop, pop_at, pop_checked, parse_metadata, is_sane,
  take_payload, advance, checksum_rcv, checksum_calc,
}

-- The packet at the buffer's index begins with a syncword, lies in the bytes received, and has the right
-- checksum.
pub record IsWhole (self : RxBuffer) : Type 0 where
  pub sync : is_sync self.buffer self.buffer_index ≡ some true
  pub within : self.buffer_index + packet_size self.buffer self.buffer_index ≤ self.buffer_size
  pub summed :
      checksum_rcv self.buffer self.buffer_index ≡ checksum_calc self.buffer self.buffer_index

-- A whole packet in an array of 4096 bytes: what `rx_buffer_pop` comes to.
pub pop-IsWhole :
    (self : RxBuffer) (pkt : RxPacket)
    → IsWhole self
    → self.buffer_size ≤ 4096
    → pop self pkt ≡ pop_checked self pkt
unfolding pop pop_at
pop-IsWhole self pkt w h =
    let more : leb self.buffer_size self.buffer_index ≡ false = ground (arith, w.within) in
    let inside : leb 4096 (last_read self.buffer self.buffer_index) ≡ false =
      ground (arith, w.within) in
    let complete : ltb self.buffer_size
          (self.buffer_index + packet_size self.buffer self.buffer_index)
        ≡ false =
      ground (arith, w.within) in
    let right : (checksum_rcv self.buffer self.buffer_index
          == checksum_calc self.buffer self.buffer_index)
        ≡ true =
      ground (arith, w.summed) in
    rw (more, w.sync, pop, inside, complete, right)

-- A packet handed out: it is whole, its metadata are in range, its payload is the bytes behind the head, and
-- the buffer is set on the byte behind it.
pub record Delivers (self : RxBuffer) (pkt : RxPacket) (self' : RxBuffer) (pkt' : RxPacket)
    : Type 0 where
  pub whole : IsWhole self
  pub moved : self' ≡ advance self
  pub parsed : pkt' ≡ take_payload self (parse_metadata self.buffer self.buffer_index pkt)
  pub sane : is_sane (parse_metadata self.buffer self.buffer_index pkt) ≡ true

abbrev Effect : RxBuffer → RxPacket → PopResult → Type 0
Effect self pkt fault = Unit
Effect self pkt (returns status self' pkt') =
    ((status ≢ success) × (self' ≡ self)) ⊎ ((status ≡ success) × Delivers self pkt self' pkt')

pop_checked-Effect :
    (self : RxBuffer) (pkt : RxPacket) → IsWhole self → Effect self pkt (pop_checked self pkt)
unfolding pop_checked
pop_checked-Effect self pkt w =
    elim (Bool-cases (ltb 255 (2 * num_ts_metrics self.buffer self.buffer_index))) [
      | inl e ↦ rw e tt
      | inr e ↦ elim (Bool-cases (is_sane (parse_metadata self.buffer self.buffer_index pkt))) [
        | inl ok ↦
            rw (e, ok) (inr (refl, record { whole = w; moved = refl; parsed = refl; sane = ok }))
        | inr bad ↦ rw (e, bad) (inl ((λ h. cc), refl))
      ]
    ]

pop_at-Effect :
    (self : RxBuffer) (pkt : RxPacket)
    → is_sync self.buffer self.buffer_index ≡ some true
    → Effect self pkt (pop_at self pkt)
unfolding pop_at
pop_at-Effect self pkt sync =
    let i = self.buffer_index in
    elim (Bool-cases (leb 4096 (last_read self.buffer i))) [
      | inl e ↦ rw e tt
      | inr e ↦ elim (Bool-cases (ltb self.buffer_size (i + packet_size self.buffer i))) [
        | inl short ↦ rw (e, short) (inl ((λ h. cc), refl))
        | inr full ↦ elim (Bool-cases (checksum_rcv self.buffer i == checksum_calc self.buffer i)) [
          | inl right ↦
              rw (e, full, right)
                (pop_checked-Effect self pkt
                  (record { sync = sync; within = ground arith; summed = ground arith }))
          | inr wrong ↦ rw (e, full, wrong) (inl ((λ h. cc), refl))
        ]
      ]
    ]

pop-Effect : (self : RxBuffer) (pkt : RxPacket) → Effect self pkt (pop self pkt)
unfolding pop
pop-Effect self pkt = elim (Bool-cases (leb self.buffer_size self.buffer_index)) [
  | inl e ↦ rw e (inl ((λ h. cc), refl))
  | inr e ↦ sync_cases (is_sync self.buffer self.buffer_index) refl e
]
  where
    sync_cases :
        (o : Option Bool)
        → is_sync self.buffer self.buffer_index ≡ o
        → leb self.buffer_size self.buffer_index ≡ false
        → Effect self pkt (pop self pkt)
    sync_cases none o e = rw (e, o, pop) tt
    sync_cases (some false) o e = rw (e, o, pop) (inl ((λ h. cc), refl))
    sync_cases (some true) o e = rw (e, o, pop) (pop_at-Effect self pkt o)

-- A call that returns either hands out a packet with its checks passed, or leaves the buffer as it was.
pub pop_effect :
    (self : RxBuffer) (pkt : RxPacket) (status : RegStatus) (self' : RxBuffer) (pkt' : RxPacket)
    → pop self pkt ≡ returns status self' pkt'
    → ((status ≢ success) × (self' ≡ self)) ⊎ ((status ≡ success) × Delivers self pkt self' pkt')
pop_effect self pkt status self' pkt' h = subst (Effect self pkt) h (pop-Effect self pkt)
