-- ===== src/Rx/Frames/Pop.antt =====
-- Popping the first of the packets that are left in the buffer.
use meshbeacon_uplink.Prelude.{
  ℕ, zero, suc, ◌+◌, ◌-◌, ◌*◌, ◌/◌, ◌%◌, ◌≤◌, ◌<◌, ◌≡◌, refl, sym, ap, ◌∙◌, true, false, List, [],
  ◌∷◌, ◌++◌, arith, ltb, u8, subst, length, take, drop, length-append, length-take, length-drop,
  take_prefix, drop_prefix,
}
use meshbeacon_uplink.Prelude.Bits.{and_mask}
use meshbeacon_uplink.Rx.Buffer.{
  RxBuffer, success, packet_size, payload_length, num_ts_metrics, byte_at,
}
use meshbeacon_uplink.Rx.Pop.{
  RxPacket, returns, pop, pop_checked, parse_metadata, is_sane, take_payload, advance, checksum_rcv,
  checksum_calc, sum_from,
}
use meshbeacon_uplink.Rx.Pop.Checks.{IsWhole, pop-IsWhole}
use meshbeacon_uplink.Rx.Frames.{
  IsFrame, concat, byte_at-frame, packet_size-frame, is_sync-frame, frame_length, frame_metrics,
  append_assoc,
}
use meshbeacon_uplink.Rx.Frames.Fetch.{placed, Holds}

-- A packet that `rx_buffer_pop` accepts: its checksum is right, it has no more metrics than there is room
-- for, and its modem, channel and spreading factor are in range.
pub record IsGood (f : List ℕ) : Type 0 where
  pub frame : IsFrame f
  pub summed : byte_at f (length f - 1) ≡ sum_from 0 (take (length f - 1) f)
  pub metrics : num_ts_metrics f 0 ≤ 127
  pub modem : byte_at f 5 ≤ 17
  pub channel : byte_at f 3 ≤ 9
  pub rate_min : 5 ≤ byte_at f 4 / 16 % 16
  pub rate_max : byte_at f 4 / 16 % 16 ≤ 12

-- The payload of a packet.
abbrev pub frame_payload : List ℕ → List ℕ
frame_payload f = take (payload_length f 0) (drop 9 f)

take-append_left : (n : ℕ) (xs ys : List ℕ) → n ≤ length xs → take n (xs ++ ys) ≡ take n xs
take-append_left zero xs ys h = refl
take-append_left (suc n) [] ys h = absurd (omega arith)
take-append_left (suc n) (x ∷ xs) ys h = ap (◌∷◌ x) (take-append_left n xs ys (omega arith))

drop-append_left : (n : ℕ) (xs ys : List ℕ) → n ≤ length xs → drop n (xs ++ ys) ≡ drop n xs ++ ys
drop-append_left zero xs ys h = refl
drop-append_left (suc n) [] ys h = absurd (omega arith)
drop-append_left (suc n) (x ∷ xs) ys h = drop-append_left n xs ys (omega arith)

drop_nil : (n : ℕ) → drop {A = ℕ} n [] ≡ []
drop_nil zero = refl
drop_nil (suc n) = refl

drop_add : (m n : ℕ) (xs : List ℕ) → drop (m + n) xs ≡ drop n (drop m xs)
drop_add zero n xs = let e : 0 + n ≡ n = omega arith in rw e
drop_add (suc m) n [] = drop_nil (suc m + n) ∙ sym (drop_nil n)
drop_add (suc m) n (x ∷ xs) =
    let e : suc m + n ≡ suc (m + n) = omega arith in rw e (drop_add m n xs)

module _ (pre f post : List ℕ) (good : IsGood f) where
  abbrev buffer : List ℕ
  buffer = pre ++ (f ++ post)

  checksum_rcv-frame : checksum_rcv buffer (length pre) ≡ byte_at f (length f - 1)
  checksum_rcv-frame =
      let at : length pre + packet_size buffer (length pre) - 1 ≡ length pre + (length f - 1) =
        omega (arith, packet_size-frame pre f post good.frame, good.frame.sized) in
      ap (byte_at buffer) at
      ∙ byte_at-frame pre f post (length f - 1) (omega (arith, good.frame.sized))

  checksum_calc-frame : checksum_calc buffer (length pre) ≡ sum_from 0 (take (length f - 1) f)
  checksum_calc-frame = rw (
    packet_size-frame pre f post good.frame,
    drop_prefix (length pre) pre (f ++ post) refl,
    take-append_left (length f - 1) f post (omega arith),
  )

  is_sane-frame : (pkt : RxPacket) → is_sane (parse_metadata buffer (length pre) pkt) ≡ true
  unfolding is_sane parse_metadata
  is_sane-frame pkt =
      let b3 = byte_at-frame pre f post 3 (omega (arith, good.frame.sized)) in
      let b4 = byte_at-frame pre f post 4 (omega (arith, good.frame.sized)) in
      let b5 = byte_at-frame pre f post 5 (omega (arith, good.frame.sized)) in
      let m3 = and_mask 8 (byte_at f 3 / 1) in
      let m4 = and_mask 4 (byte_at f 4 / 16) in
      let m5 = and_mask 8 (byte_at f 5 / 1) in
      rw (b3, b4, b5)
        (ground (arith, m3, m4, m5, good.modem, good.channel, good.rate_min, good.rate_max))

  payload-frame :
      take (payload_length buffer (length pre)) (drop (length pre + 9) buffer) ≡ frame_payload f
  payload-frame =
      let enough = length-drop 9 f in
      let start =
        drop_add (length pre) 9 buffer
        ∙ ap (drop 9) (drop_prefix (length pre) pre (f ++ post) refl)
        ∙ drop-append_left 9 f post (omega (arith, good.frame.sized)) in
      rw (
        frame_length pre f post good.frame,
        start,
        take-append_left (payload_length f 0) (drop 9 f) post
            (omega (arith, enough, good.frame.sized)),
      )

module _ (pre f : List ℕ) (fs : List (List ℕ)) (post : List ℕ) (good : IsGood f)
    (fits : length pre + length (concat (f ∷ fs)) ≤ 4096) where
  -- The buffer, with the first packet apart.
  abbrev here : RxBuffer
  here = record {
    buffer = pre ++ (f ++ (concat fs ++ post));
    buffer_size = length pre + length (f ++ concat fs);
    buffer_index = length pre;
    buffer_pkt_nb = suc (length fs);
  }

  whole : IsWhole here
  whole =
      let rest = concat fs ++ post in
      let long = length-append f (concat fs) in
      record {
        sync = is_sync-frame pre f rest good.frame (omega (arith, long, fits));
        within = omega (arith, long, packet_size-frame pre f rest good.frame);
        summed =
            checksum_rcv-frame pre f rest good
            ∙ good.summed
            ∙ sym (checksum_calc-frame pre f rest good);
      }

  pop-here :
      (pkt : RxPacket)
      → pop here pkt
        ≡ returns success
            (advance here)
            (take_payload here (parse_metadata here.buffer here.buffer_index pkt))
  unfolding pop_checked
  pop-here pkt =
      let rest = concat fs ++ post in
      let few : ltb 255 (2 * num_ts_metrics here.buffer here.buffer_index) ≡ false =
        ground (arith, frame_metrics pre f rest good.frame, good.metrics) in
      let sane = is_sane-frame pre f rest good pkt in
      rw (pop-IsWhole here pkt whole fits, pop_checked, few, sane)

  advance-here : length fs < 255 → advance here ≡ placed (pre ++ f) fs post
  unfolding advance
  advance-here few =
      let rest = concat fs ++ post in
      let number : u8 (suc (length fs) + 255) ≡ length fs = omega arith in
      let index : length pre + packet_size here.buffer here.buffer_index ≡ length (pre ++ f) =
        omega (arith, packet_size-frame pre f rest good.frame, length-append pre f) in
      let size : length pre + length (f ++ concat fs) ≡ length (pre ++ f) + length (concat fs) =
        omega (arith, length-append pre f, length-append f (concat fs)) in
      rw (number, index, size, sym (append_assoc pre f rest))

  payload-here :
      (pkt : RxPacket)
      → take
          (payload_length f 0)
          (take_payload here (parse_metadata here.buffer here.buffer_index pkt)).payload
        ≡ frame_payload f
  unfolding take_payload parse_metadata
  payload-here pkt =
      let room : payload_length f 0 ≤ length (drop 9 f) =
        omega (arith, length-drop 9 f, good.frame.sized) in
      rw (payload-frame pre f (concat fs ++ post) good) (
        take_prefix (payload_length f 0) (frame_payload f) _
          (length-take (payload_length f 0) (drop 9 f) room))

  rxbytenb-here :
      (pkt : RxPacket)
      → (take_payload here (parse_metadata here.buffer here.buffer_index pkt)).rxbytenb_modem
        ≡ payload_length f 0
  unfolding take_payload parse_metadata
  rxbytenb-here pkt = frame_length pre f (concat fs ++ post) good.frame

-- `pop` hands out the packet `f`, and leaves the packets `fs`.
abbrev pub Pops : RxBuffer → RxPacket → List ℕ → List (List ℕ) → Type 0
Pops self pkt f fs =
    (self' : RxBuffer) × (pkt' : RxPacket) × (pop self pkt ≡ returns success self' pkt')
    × Holds self' fs
    × (pkt'.rxbytenb_modem ≡ payload_length f 0)
    × (take (payload_length f 0) pkt'.payload ≡ frame_payload f)

-- A good packet at the front of those that are left is handed out with its payload, and those behind it are
-- left.
pub pop-Holds :
    (self : RxBuffer) (pkt : RxPacket) (f : List ℕ) (fs : List (List ℕ))
    → IsGood f
    → Holds self (f ∷ fs)
    → length fs < 255
    → Pops self pkt f fs
pop-Holds self pkt f fs good h few =
    let pre = h.pre in
    let post = h.post in
    let before = here pre f fs post good h.fits in
    let same : self ≡ before =
      h.state
      ∙ ap (λ (b : List ℕ). record (placed pre (f ∷ fs) post) { buffer = pre ++ b })
          (append_assoc f (concat fs) post) in
    subst (λ (b : RxBuffer). Pops b pkt f fs) (sym same)
      (
        advance before,
        take_payload before (parse_metadata before.buffer before.buffer_index pkt),
        pop-here pre f fs post good h.fits pkt,
        record {
          pre = pre ++ f;
          post = post;
          state = advance-here pre f fs post good h.fits few;
          fits = omega (arith, length-append pre f, length-append f (concat fs), h.fits);
        },
        rxbytenb-here pre f fs post good h.fits pkt,
        payload-here pre f fs post good h.fits pkt,
      )
