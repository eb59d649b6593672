-- ===== src/Mcu/Bulk/Flush.antt =====
-- libloragw/src/loragw_mcu.c: `mcu_spi_flush` sends the requests stored and takes their answers.
use mathlib.Core.List.{append-nil}
use meshbeacon_uplink.Prelude.{
  ℕ, ◌≤◌, ◌≡◌, refl, sym, ap, ◌∙◌, Bool, true, false, not, List, [], ◌∷◌, ◌++◌, ltb, ◌==◌,
  if◌then◌else◌, length, take, drop, replicate, some, take_prefix, arith, if_false, length-take,
  All,
}
use meshbeacon_uplink.Mcu.Frame.{
  header, write_payload, write_req, Read, gives, interrupted, ack, read_ack, max_size_command,
}
use meshbeacon_uplink.Mcu.Frame.RoundTrip.{Cut, read_ack-Cut, read_ack-interrupted, header-fields}
use meshbeacon_uplink.Mcu.Bulk.{
  SpiReqBulk, lgw_usb_burst_chunk, order_id_req_multiple_spi, order_id_ack_multiple_spi, decoded,
  decode_error, spi, answered_spi, decoded_spi, mcu_spi_write, flushed, mcu_spi_flush,
}
use meshbeacon_uplink.Mcu.Bulk.Stores.{joined, store_all, store_all-Stored}
use meshbeacon_uplink.Mcu.Bulk.Answers.{
  Answer, answers_bytes, all_done, Fits, decode_ack_spi_bulk-answers,
}

take_whole : (n : ℕ) (xs : List ℕ) → length xs ≡ n → take n xs ≡ xs
take_whole n xs h = ap (take n) (sym (append-nil xs)) ∙ take_prefix n xs [] h

-- What is written, if the writes take all bytes.
write_req-written :
    (random cmd n : ℕ) (payload : List ℕ)
    → length payload ≤ max_size_command
    → length payload ≡ n
    → write_req random (some 4) (some n) cmd payload ≡ (true, header random cmd n ++ payload)
unfolding write_req write_payload header
write_req-written random cmd n [] h e =
    ap (λ k. (true, header random cmd k)) e
    ∙ ap (λ bs. (true, bs)) (sym (append-nil (header random cmd n)))
write_req-written random cmd n (b ∷ bs) h e =
    if_false (ltb max_size_command (length (b ∷ bs))) _ _ (ground arith)
    ∙ if_false (length (b ∷ bs) == 0) _ _ (ground arith)
    ∙ ap (λ k. (true, header random cmd k ++ take n (b ∷ bs))) e
    ∙ ap (λ ys. (true, header random cmd n ++ ys)) (take_whole n (b ∷ bs) e)

-- The state behind a flush that was answered.
unfoldable pub answered : SpiReqBulk → Bool → List ℕ → SpiReqBulk
answered bulk done bytes =
    let buffer = bytes ++ drop (length bytes) bulk.buffer in
    if done
    then record { size = 0; nb_req = 0; buffer = buffer }
    else record bulk { buffer = buffer }

flushed-decoded :
    (bulk : SpiReqBulk) (done : Bool) (written hdr bytes : List ℕ)
    → flushed bulk (
        decoded_spi written hdr
          (bytes ++ drop (length bytes) bulk.buffer)
          (if done then decoded else decode_error))
      ≡ spi done written hdr (answered bulk done bytes)
unfolding flushed decoded_spi answered
flushed-decoded bulk true written hdr bytes = refl
flushed-decoded bulk false written hdr bytes = refl

-- The answers to the requests stored come in one frame.
mcu_spi_flush-answered :
    (random random' n : ℕ) (old : List ℕ) (bulk : SpiReqBulk) (answers : List Answer)
    (reads left : List Read)
    → bulk.size ≤ length bulk.buffer
    → bulk.size ≤ lgw_usb_burst_chunk
    → length old ≡ 4
    → All Fits answers
    → length (answers_bytes answers) ≤ bulk.size
    → Cut reads (answers_bytes answers) left
    → mcu_spi_flush random
        (some 4)
        (some bulk.size)
        old
        (replicate n interrupted
          ++ gives (header random' order_id_ack_multiple_spi (length (answers_bytes answers)))
            ∷ reads)
        bulk
      ≡ spi
          (all_done answers)
          (header random order_id_req_multiple_spi bulk.size ++ take bulk.size bulk.buffer)
          (header random' order_id_ack_multiple_spi (length (answers_bytes answers)))
          (answered bulk (all_done answers) (answers_bytes answers))
unfolding mcu_spi_flush mcu_spi_write answered_spi
mcu_spi_flush-answered random random' n old bulk answers reads left h1 h2 h3 fit h4 c =
    let bytes = answers_bytes answers in
    let hdr = header random' order_id_ack_multiple_spi (length bytes) in
    let written = header random order_id_req_multiple_spi bulk.size ++ take bulk.size bulk.buffer in
    let sent : write_req random (some 4) (some bulk.size) order_id_req_multiple_spi
          (take bulk.size bulk.buffer)
        ≡ (true, written) =
      write_req-written random order_id_req_multiple_spi bulk.size (take bulk.size bulk.buffer)
        (omega (arith, length-take bulk.size bulk.buffer h1))
        (length-take bulk.size bulk.buffer h1) in
    let all_reads = replicate n interrupted ++ gives hdr ∷ reads in
    let got : read_ack bulk.size old all_reads ≡ ack hdr bytes left =
      read_ack-interrupted n bulk.size old (gives hdr ∷ reads)
      ∙ read_ack-Cut random' order_id_ack_multiple_spi bulk.size old bytes reads left (omega arith)
          (omega arith) h3 h4 (omega arith) c in
    let fields = header-fields random' order_id_ack_multiple_spi (length bytes) (omega arith) in
    ap
      (λ (r : Bool × List ℕ). flushed bulk (
        if not r.0
        then spi false r.1 old bulk.buffer
        else answered_spi r.1 bulk.buffer (read_ack bulk.size old all_reads)))
      sent
    ∙ ap (λ a. flushed bulk (answered_spi written bulk.buffer a)) got
    ∙ ap (λ d. flushed bulk (decoded_spi written hdr (bytes ++ drop (length bytes) bulk.buffer) d))
        (decode_ack_spi_bulk-answers hdr (drop (length bytes) bulk.buffer) answers fit fields.1
          fields.0)
    ∙ flushed-decoded bulk (all_done answers) written hdr bytes

-- At most 255 requests of at most 4096 bytes together, stored one after the other in an empty buffer, are all stored.
-- If the writes then take all bytes, and the microcontroller answers in a frame no longer than the requests, whose
-- header one read gives as a whole, behind any number of interrupted reads, and whose payload the reads cut and
-- interrupt in any way, mcu_spi_flush writes one frame with all requests in their order and returns. It succeeds
-- exactly if no status in the answers reports an error; then no request counts as stored any more, while otherwise all
-- of them still do, and the answers stand in the buffer in both cases.
pub mcu_spi_flush-stored :
    (random random' n : ℕ) (old : List ℕ) (bulk : SpiReqBulk) (reqs : List (List ℕ))
    (answers : List Answer) (reads left : List Read)
    → bulk.size ≡ 0
    → bulk.nb_req ≡ 0
    → length bulk.buffer ≡ lgw_usb_burst_chunk
    → length reqs ≤ 255
    → length (joined reqs) ≤ lgw_usb_burst_chunk
    → length old ≡ 4
    → All Fits answers
    → length (answers_bytes answers) ≤ length (joined reqs)
    → Cut reads (answers_bytes answers) left
    → let stored = store_all bulk reqs in
      let hdr = header random' order_id_ack_multiple_spi (length (answers_bytes answers)) in
      (stored.0 ≡ true)
      × (mcu_spi_flush random
            (some 4)
            (some (length (joined reqs)))
            old
            (replicate n interrupted ++ gives hdr ∷ reads)
            stored.1
          ≡ spi
              (all_done answers)
              (header random order_id_req_multiple_spi (length (joined reqs)) ++ joined reqs)
              hdr
              (answered stored.1 (all_done answers) (answers_bytes answers)))
mcu_spi_flush-stored random random' n old bulk reqs answers reads left h1 h2 h3 h4 h5 h6 fit h7 c =
    let stored = store_all-Stored bulk reqs (omega arith) (omega arith) h3 in
    let after = (store_all bulk reqs).1 in
    let hdr = header random' order_id_ack_multiple_spi (length (answers_bytes answers)) in
    let size : after.size ≡ length (joined reqs) = omega (arith, stored.size_after) in
    let requests : take after.size after.buffer ≡ joined reqs =
      stored.requests_after ∙ ap (λ k. take k bulk.buffer ++ joined reqs) h1 in
    let sent =
      mcu_spi_flush-answered random random' n old after answers reads left
        (omega (arith, stored.room_after, size)) (omega (arith, size)) h6 fit (omega (arith, size))
        c in
    (
      stored.is_stored,
      ap
            (λ k.
              mcu_spi_flush random (some 4) (some k) old
                (replicate n interrupted ++ gives hdr ∷ reads) after)
            (sym size)
          ∙ sent
          ∙ ap
              (λ bs.
                spi (all_done answers) bs hdr
                  (answered after (all_done answers) (answers_bytes answers)))
              (ap (λ k. header random order_id_req_multiple_spi k ++ take after.size after.buffer)
                  size
                ∙ ap (λ bs. header random order_id_req_multiple_spi (length (joined reqs)) ++ bs)
                    requests),
    )
