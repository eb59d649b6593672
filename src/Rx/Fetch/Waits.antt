-- ===== src/Rx/Fetch/Waits.antt =====
-- `sx1302_fetch` with packets in the buffer, and with none.
use meshbeacon_uplink.Prelude.{
  ℕ, ◌≤◌, ◌≡◌, refl, ap, Bool, true, false, List, [], ◌∷◌, length, All, ◌==◌, arith,
}
use meshbeacon_uplink.Rx.Buffer.{RxBuffer, returns, success, buffer_new, nb_bytes}
use meshbeacon_uplink.Rx.Fetch.{sx1302_fetch}
use meshbeacon_uplink.Rx.Frames.{IsFrame, concat}
use meshbeacon_uplink.Rx.Frames.Fetch.{Holds, fetch-Holds}

-- The packets in the buffer after a call, from those left in it before and those in the FIFO.
abbrev pub queued_after : List (List ℕ) → List (List ℕ) → List (List ℕ)
queued_after [] fifo = fifo
queued_after (g ∷ gs) fifo = g ∷ gs

-- A FIFO with packets in it, and nothing else: with packets left in the buffer, these stay and none is
-- fetched; with none left, all those of the FIFO are in the buffer afterwards.
pub sx1302_fetch-Holds :
    (lgw_mem_rb : ℕ → Bool × List ℕ) (self : RxBuffer) (first second : ℕ × ℕ) (gs : List (List ℕ))
    (f : List ℕ) (fs : List (List ℕ))
    → Holds self gs
    → All IsFrame (f ∷ fs)
    → length (concat (f ∷ fs)) ≤ 4096
    → nb_bytes first ≤ length (concat (f ∷ fs))
    → nb_bytes second ≡ length (concat (f ∷ fs))
    → lgw_mem_rb (length (concat (f ∷ fs))) ≡ (true, concat (f ∷ fs))
    → (self' : RxBuffer) × (sx1302_fetch lgw_mem_rb self first second ≡ returns success self')
      × Holds self' (queued_after gs (f ∷ fs))
unfolding sx1302_fetch buffer_new
sx1302_fetch-Holds mem self first second [] f fs held h fits low level read =
    let empty : self.buffer_pkt_nb ≡ 0 = ap (λ (b : RxBuffer). b.buffer_pkt_nb) held.state in
    let found = fetch-Holds mem (buffer_new self) first second f fs h fits low level read refl in
    (found.0, rw empty found.1, found.2)
sx1302_fetch-Holds mem self first second (g ∷ gs) f fs held h fits low level read =
    let number = ap (λ (b : RxBuffer). b.buffer_pkt_nb) held.state in
    let some_left : (self.buffer_pkt_nb == 0) ≡ false = ground (arith, number) in
    (self, rw some_left, held)
