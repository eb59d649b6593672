-- ===== src/Rx/Frames.antt =====
-- The bytes that the concentrator puts in its FIFO: packets one behind the other.
pub mod Fetch
pub mod Pop
use meshbeacon_uplink.Prelude.{
  ℕ, zero, suc, ◌+◌, ◌-◌, ◌*◌, ◌≤◌, ◌<◌, ◌≡◌, ◌≢◌, refl, sym, ap, ◌∙◌, Bool, true, false, List, [],
  ◌∷◌, ◌++◌, Option, none, some, arith, leb, ltb, u8, Bool-cases, inl, inr, subst, ◌==◌,
  if◌then◌else◌, length, take, drop, replicate, get_or, All, length-append, get_or-append_left,
  get_or-append_right,
}
use meshbeacon_uplink.Rx.Buffer.{
  RxBuffer, Count, counted, FetchResult, success, count_packets, is_sync, packet_size,
  payload_length, num_ts_metrics, last_read, count_fetched, use_fetched, resync, find_sync, fetch,
  fetched_size, byte_at, buffer_max, nb_bytes,
}

-- A packet: two bytes of synchronisation, and the size that its own bytes state.
pub record IsFrame (f : List ℕ) : Type 0 where
  pub sync_0 : byte_at f 0 ≡ 0xa5
  pub sync_1 : byte_at f 1 ≡ 0xc0
  pub sized : length f ≡ packet_size f 0

abbrev pub concat : List (List ℕ) → List ℕ
concat [] = []
concat (f ∷ fs) = f ++ concat fs

-- A byte of a packet, found behind what stands before it.
pub byte_at-frame :
    (pre f post : List ℕ) (k : ℕ)
    → k < length f
    → byte_at (pre ++ (f ++ post)) (length pre + k) ≡ byte_at f k
byte_at-frame pre f post k h =
    get_or-append_right pre (f ++ post) k 0 ∙ get_or-append_left f post k 0 h

module _ (pre f post : List ℕ) (fr : IsFrame f) where
  pub frame_length : payload_length (pre ++ (f ++ post)) (length pre) ≡ payload_length f 0
  frame_length = ap u8 (byte_at-frame pre f post 2 (omega (arith, fr.sized)))

  pub frame_metrics : num_ts_metrics (pre ++ (f ++ post)) (length pre) ≡ num_ts_metrics f 0
  frame_metrics =
      let k = 0 + payload_length f 0 + 21 in
      let at : last_read (pre ++ (f ++ post)) (length pre) ≡ length pre + k =
        omega (arith, frame_length) in
      ap u8 (
        ap (byte_at (pre ++ (f ++ post))) at ∙ byte_at-frame pre f post k (omega (arith, fr.sized)))

  pub packet_size-frame : packet_size (pre ++ (f ++ post)) (length pre) ≡ length f
  packet_size-frame = omega (arith, frame_length, frame_metrics, fr.sized)

  pub last_read-frame : last_read (pre ++ (f ++ post)) (length pre) < length pre + length f
  last_read-frame = omega (arith, frame_length, fr.sized)

  pub is_sync-frame :
      length pre + length f ≤ 4096 → is_sync (pre ++ (f ++ post)) (length pre) ≡ some true
  unfolding is_sync
  is_sync-frame h =
      let first : byte_at (pre ++ (f ++ post)) (length pre) ≡ 0xa5 =
        ap (byte_at (pre ++ (f ++ post))) (omega arith)
        ∙ byte_at-frame pre f post 0 (omega (arith, fr.sized))
        ∙ fr.sync_0 in
      let second : byte_at (pre ++ (f ++ post)) (length pre + 1) ≡ 0xc0 =
        byte_at-frame pre f post 1 (omega (arith, fr.sized)) ∙ fr.sync_1 in
      let room : ltb (length pre + 1) 4096 ≡ true = ground (arith, fr.sized) in
      rw (first, second, room)

pub append_assoc : (xs ys zs : List ℕ) → (xs ++ ys) ++ zs ≡ xs ++ (ys ++ zs)
append_assoc [] ys zs = refl
append_assoc (x ∷ xs) ys zs = ap (◌∷◌ x) (append_assoc xs ys zs)

pub length-concat : (fs : List (List ℕ)) → All IsFrame fs → 23 * length fs ≤ length (concat fs)
length-concat [] h = omega arith
length-concat (f ∷ fs) h =
    omega (arith, h.0.sized, length-append f (concat fs), length-concat fs h.1)

count_packets_step :
    (fuel : ℕ) (buffer : List ℕ) (size idx n : ℕ)
    → leb size idx ≡ false
    → is_sync buffer idx ≡ some true
    → ltb (last_read buffer idx) 4096 ≡ true
    → count_packets (suc fuel) buffer size idx n
      ≡ count_packets fuel buffer size (idx + packet_size buffer idx) (u8 (n + 1))
unfolding count_packets
count_packets_step fuel buffer size idx n more sync inside = rw (more, sync, inside)

-- Behind `pre`, the loop counts the packets that are left.
count_packets-concat :
    (fuel : ℕ) (pre : List ℕ) (fs : List (List ℕ)) (post : List ℕ) (n size : ℕ)
    → All IsFrame fs
    → size ≡ length pre + length (concat fs)
    → size ≤ 4096
    → n + length fs < 256
    → length fs < fuel
    → count_packets fuel (pre ++ (concat fs ++ post)) size (length pre) n ≡ counted (n + length fs)
unfolding count_packets
count_packets-concat zero pre fs post n size h e fits few enough = elim enough [ ]
count_packets-concat (suc fuel) pre [] post n size h e fits few enough =
    let done : leb size (length pre) ≡ true = ground arith in
    let all : n + 0 ≡ n = omega arith in rw (done, all)
count_packets-concat (suc fuel) pre (f ∷ fs) post n size h e fits few enough =
    let rest = concat fs ++ post in
    let buffer = pre ++ (f ++ rest) in
    let long = length-append f (concat fs) in
    let same : pre ++ ((f ++ concat fs) ++ post) ≡ buffer =
      ap (◌++◌ pre) (append_assoc f (concat fs) post) in
    let moved : buffer ≡ (pre ++ f) ++ rest = sym (append_assoc pre f rest) in
    let next : length pre + packet_size buffer (length pre) ≡ length (pre ++ f) =
      omega (arith, packet_size-frame pre f rest h.0, length-append pre f) in
    let small : u8 (n + 1) ≡ n + 1 = omega arith in
    let total : n + suc (length fs) ≡ n + 1 + length fs = omega arith in
    let step =
      count_packets_step fuel buffer size (length pre) n (ground (arith, long, h.0.sized))
        (is_sync-frame pre f rest h.0 (omega (arith, long)))
        (ground (arith, long, last_read-frame pre f rest h.0)) in
    let left =
      count_packets-concat fuel (pre ++ f) fs post (n + 1) size h.1
        (omega (arith, long, length-append pre f)) fits (omega arith) (omega arith) in
    cc (same, moved, next, small, total, step, left)
