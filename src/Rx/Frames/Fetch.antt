-- ===== src/Rx/Frames/Fetch.antt =====
-- Fetching a FIFO that holds packets, and nothing else.
use meshbeacon_uplink.Prelude.{
  ℕ, suc, ◌+◌, ◌-◌, ◌≤◌, ◌≡◌, refl, Bool, true, false, List, [], ◌∷◌, ◌++◌, some, arith, ltb, ◌==◌,
  length, replicate, All, take_prefix, take-append-drop,
}
use meshbeacon_uplink.Rx.Buffer.{
  RxBuffer, returns, success, count_fetched, use_fetched, resync, find_sync, fetch, fetched_size,
  nb_bytes,
}
use meshbeacon_uplink.Rx.Frames.{IsFrame, concat, length-concat, count_packets-concat}

-- The packets `fs` stand behind `pre`, where the index is, and end the bytes received.
abbrev pub placed : List ℕ → List (List ℕ) → List ℕ → RxBuffer
placed pre fs post = record {
  buffer = pre ++ (concat fs ++ post);
  buffer_size = length pre + length (concat fs);
  buffer_index = length pre;
  buffer_pkt_nb = length fs;
}

-- The packets `fs` are in the buffer, from its index on, and they are all that is left of the bytes received.
pub record Holds (self : RxBuffer) (fs : List (List ℕ)) : Type 0 where
  pub pre : List ℕ
  pub post : List ℕ
  pub state : self ≡ placed pre fs post
  pub fits : length pre + length (concat fs) ≤ 4096

-- The bytes of the FIFO in the array, with the packets counted.
abbrev pub loaded : List (List ℕ) → RxBuffer
loaded fs = record {
  buffer = concat fs ++ replicate (4096 - length (concat fs)) 0;
  buffer_size = length (concat fs);
  buffer_index = 0;
  buffer_pkt_nb = length fs;
}

loaded-Holds : (fs : List (List ℕ)) → length (concat fs) ≤ 4096 → Holds (loaded fs) fs
loaded-Holds fs h =
    let all : 0 + length (concat fs) ≡ length (concat fs) = omega arith in
    record {
      pre = [];
      post = replicate (4096 - length (concat fs)) 0;
      state = rw all;
      fits = omega arith;
    }

resync_zero : (self : RxBuffer) → resync self 0 ≡ self
unfolding resync
resync_zero self =
    let all : self.buffer_size - 0 ≡ self.buffer_size = omega arith in
    rw (all, take-append-drop self.buffer_size self.buffer)

find_sync-frame : (f : List ℕ) (rest : List ℕ) → IsFrame f → find_sync (f ++ rest) ≡ some 0
unfolding find_sync
find_sync-frame [] rest h = absurd (omega (arith, h.sized))
find_sync-frame (x ∷ []) rest h = absurd (omega (arith, h.sized))
find_sync-frame (x ∷ y ∷ f) rest h = rw (h.sync_0, h.sync_1)

-- The buffer as it is after the bytes are read and before they are counted.
abbrev filled : List (List ℕ) → ℕ → RxBuffer
filled fs index = record {
  buffer = concat fs ++ replicate (4096 - length (concat fs)) 0;
  buffer_size = length (concat fs);
  buffer_index = index;
  buffer_pkt_nb = 0;
}

count_fetched-filled :
    (fs : List (List ℕ)) (index : ℕ)
    → All IsFrame fs
    → length (concat fs) ≤ 4096
    → count_fetched (filled fs index) ≡ returns success (loaded fs)
unfolding count_fetched
count_fetched-filled fs index h fits =
    let count =
      count_packets-concat (suc (length (concat fs))) [] fs
        (replicate (4096 - length (concat fs)) 0) 0 (length (concat fs)) h (omega arith) fits
        (omega (arith, length-concat fs h)) (omega (arith, length-concat fs h)) in
    let all : 0 + length fs ≡ length fs = omega arith in rw (count_fetched, count, all)

use_fetched-filled :
    (f : List ℕ) (fs : List (List ℕ)) (index : ℕ)
    → All IsFrame (f ∷ fs)
    → length (concat (f ∷ fs)) ≤ 4096
    → use_fetched (filled (f ∷ fs) index) ≡ returns success (loaded (f ∷ fs))
unfolding use_fetched
use_fetched-filled f fs index h fits =
    let long : ltb (length (f ++ concat fs)) 23 ≡ false =
      ground (arith, length-concat (f ∷ fs) h) in
    let bytes =
      take_prefix (length (f ++ concat fs)) (f ++ concat fs)
        (replicate (4096 - length (f ++ concat fs)) 0) refl in
    rw (long, bytes, find_sync-frame f (concat fs) h.0, resync_zero (filled (f ∷ fs) index))
      (count_fetched-filled (f ∷ fs) index h fits)

-- A FIFO with packets in it, and nothing else: they are all fetched and counted, also if the first reading
-- of its level was too low.
pub fetch-Holds :
    (lgw_mem_rb : ℕ → Bool × List ℕ) (self : RxBuffer) (first second : ℕ × ℕ) (f : List ℕ)
    (fs : List (List ℕ))
    → All IsFrame (f ∷ fs)
    → length (concat (f ∷ fs)) ≤ 4096
    → nb_bytes first ≤ length (concat (f ∷ fs))
    → nb_bytes second ≡ length (concat (f ∷ fs))
    → lgw_mem_rb (length (concat (f ∷ fs))) ≡ (true, concat (f ∷ fs))
    → self.buffer_pkt_nb ≡ 0
    → (self' : RxBuffer) × (fetch lgw_mem_rb self first second ≡ returns success self')
      × Holds self' (f ∷ fs)
unfolding fetch
fetch-Holds mem self first second f fs h fits low level read empty =
    let size : fetched_size first second ≡ length (f ++ concat fs) = ground arith in
    let some_bytes : (length (f ++ concat fs) == 0) ≡ false =
      ground (arith, length-concat (f ∷ fs) h) in
    let room : ltb 4096 (length (f ++ concat fs)) ≡ false = ground arith in
    (
      loaded (f ∷ fs),
      rw (size, some_bytes, room, read, empty) (use_fetched-filled f fs self.buffer_index h fits),
      loaded-Holds (f ∷ fs) fits,
    )
