-- ===== src/Gps/Ubx/Progress.antt =====
-- What a caller of `lgw_parse_ubx` may rely on to step through the bytes of the serial port.
use meshbeacon_uplink.Prelude.{
  ℕ, ◌≤◌, ◌<◌, ◌≡◌, ◌⊎◌, refl, subst, inl, inr, not, true, List, Option, none, some, ltb, ◌==◌,
  length, leb, Bool-cases, Option-cases, get_or, ◌&&◌, arith, if_split,
}
use meshbeacon_uplink.Gps.Ubx.{
  ignored, incomplete, ubx_nav_timegps, GpsTime, UbxResult, has_ubx_sync, ubx_msg_size,
  is_ubx_checksum, parse_timegps, parse_ubx_body, parse_ubx, sync_last, invalid,
}
use meshbeacon_uplink.Gps.Ubx.Sums.{IsSummed, checksum-IsSummed, IsSummed-checksum}

-- A message of the class NAV with the identifier TIMEGPS.
abbrev pub IsTimegps : List ℕ → Type 0
IsTimegps buff = (get_or buff 2 0 ≡ 1) × (get_or buff 3 0 ≡ 0x20)

-- The outcomes. Without a message nothing is to be skipped; one that is not complete is longer than the bytes; any
-- other has at least eight bytes, all of which are there, and its two sums are right unless it is reported as invalid.
-- The time changes by a NAV-TIMEGPS message that is complete and has its sums right alone.
pub record Progresses (buff : List ℕ) (buff_size : ℕ) (time : GpsTime) (r : UbxResult)
    : Type 0 where
  pub step :
      ((r.msg ≡ ignored) × (r.msg_size ≡ 0))
      ⊎ ((r.msg ≡ incomplete) × (buff_size < r.msg_size))
      ⊎ ((r.msg ≡ invalid) × (8 ≤ r.msg_size) × (r.msg_size ≤ buff_size) × (IsSummed buff → ⊥))
      ⊎ (((r.msg ≡ ignored) ⊎ (r.msg ≡ ubx_nav_timegps))
          × (8 ≤ r.msg_size)
          × (r.msg_size ≤ buff_size)
          × IsSummed buff)
  pub timed :
      (r.time ≡ time)
      ⊎ ((r.msg ≡ ubx_nav_timegps)
          × IsTimegps buff
          × (ubx_msg_size buff ≤ buff_size)
          × IsSummed buff
          × (r.time ≡ parse_timegps buff time))

-- A read behind the array happens only if the caller counts bytes that are not there, or the array is short.
abbrev Ends : List ℕ → ℕ → GpsTime → Option UbxResult → Type 0
Ends buff buff_size time none = (length buff < buff_size) ⊎ (length buff ≤ 17)
Ends buff buff_size time (some r) = Progresses buff buff_size time r

timegps_bytes : (a b : ℕ) → (a == 1 && b == 0x20) ≡ true → (a ≡ 1) × (b ≡ 0x20)
timegps_bytes a b h = ground arith

body-Ends :
    (buff : List ℕ) (buff_size : ℕ) (time : GpsTime)
    → ubx_msg_size buff ≤ buff_size
    → IsSummed buff
    → Ends buff buff_size time (parse_ubx_body buff time)
unfolding parse_ubx_body
body-Ends buff buff_size time h sum =
    elim (Bool-cases (get_or buff 2 0 == 1 && get_or buff 3 0 == 0x20)) [
      | inl e ↦ elim (Bool-cases (ltb 17 (length buff))) [
        | inl long ↦
            rw (e, long)
              (record {
                step = inr (inr (inr (inr refl, omega arith, h, sum)));
                timed = inr (refl, timegps_bytes _ _ e, h, sum, refl);
              })
        | inr short ↦ rw (e, short) (inr (ground arith))
      ]
      | inr e ↦
          rw e (record { step = inr (inr (inr (inl refl, omega arith, h, sum))); timed = inl refl })
    ]

sync_last-le : (buff : List ℕ) → sync_last buff ≤ 1
unfolding sync_last
sync_last-le buff = ground arith

parse_ubx-Ends :
    (buff : List ℕ) (buff_size : ℕ) (time : GpsTime)
    → Ends buff buff_size time (parse_ubx buff buff_size time)
unfolding parse_ubx
parse_ubx-Ends buff buff_size time =
    if_split E (ltb buff_size 8) _ _ (λ e. record { step = inl (refl, refl); timed = inl refl })
      (λ filled.
        if_split E (leb (length buff) (sync_last buff)) _ _
          (λ e. inl (ground (arith, sync_last-le buff)))
          (λ two.
            if_split E (not (has_ubx_sync buff)) _ _
              (λ e. record { step = inl (refl, refl); timed = inl refl })
              (λ sync.
                if_split E (leb (length buff) 5) _ _ (λ e. inl (ground arith))
                  (λ six.
                    if_split E (ltb buff_size (ubx_msg_size buff)) _ _
                      (λ part. record { step = inr (inl (refl, ground arith)); timed = inl refl })
                      (λ all.
                        if_split E (ltb (length buff) (ubx_msg_size buff)) _ _
                          (λ e. inl (ground arith))
                          (λ there.
                            if_split E (is_ubx_checksum buff) _ _
                              (λ sum.
                                body-Ends buff buff_size time (ground arith)
                                  (checksum-IsSummed buff sum))
                              (λ bad. record {
                                step = inr (
                                    inr (
                                      inl (
                                        refl,
                                        omega arith,
                                        ground arith,
                                        λ h. absurd (cc (bad, IsSummed-checksum buff h)),
                                      )));
                                timed = inl refl;
                              })))))))
  where
    E : Option UbxResult → Type 0
    E = Ends buff buff_size time

-- On an array of at least 18 bytes, of which buff_size are filled, lgw_parse_ubx reads nothing behind the array and
-- returns. Its size is 0 for no message, more than the bytes filled for a message that is not complete, and otherwise at
-- least 8 and within them; such a message is reported as invalid exactly if its last two bytes are not the sum of its
-- bytes and the sum of their running sums, in 8 bits. The time changes only by a complete message of class 1 and
-- identifier 32 with these sums right, and then to what the bytes 6 to 17 of the array say.
pub parse_ubx-Progresses :
    (buff : List ℕ) (buff_size : ℕ) (time : GpsTime)
    → 18 ≤ length buff
    → buff_size ≤ length buff
    → (r : UbxResult) × (parse_ubx buff buff_size time ≡ some r) × Progresses buff buff_size time r
parse_ubx-Progresses buff buff_size time long filled =
    elim (Option-cases (parse_ubx buff buff_size time)) [
      | inl e ↦
          let short : (length buff < buff_size) ⊎ (length buff ≤ 17) =
            subst (Ends buff buff_size time) e (parse_ubx-Ends buff buff_size time) in
          elim short [
            | inl over ↦ absurd (omega (arith, over))
            | inr few ↦ absurd (omega (arith, few))
          ]
      | inr (r, e) ↦ (r, e, subst (Ends buff buff_size time) e (parse_ubx-Ends buff buff_size time))
    ]
