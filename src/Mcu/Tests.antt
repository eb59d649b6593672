-- ===== src/Mcu/Tests.antt =====
-- Requests for the SPI buses and their answers in three reads, and the theorem at this input.
use meshbeacon_uplink.Prelude.{
  ℕ, ◌≡◌, refl, List, [], ◌∷◌, ◌++◌, arith, true, some, length, length-replicate,
}
use meshbeacon_uplink.Mcu.Frame.{header, Read, gives, interrupted}
use meshbeacon_uplink.Mcu.Frame.RoundTrip.{Cut, all_read, piece, interruption}
use meshbeacon_uplink.Mcu.Bulk.{spi_bulk_buffer, spi, mcu_spi_flush}
use meshbeacon_uplink.Mcu.Bulk.Answers.{
  Answer, read_write, read_modify_write, answer_bytes, answers_bytes, all_done, Fits,
}
use meshbeacon_uplink.Mcu.Bulk.Stores.{store_all, joined}
use meshbeacon_uplink.Mcu.Bulk.Flush.{answered, mcu_spi_flush-stored}

abbrev two_requests : List (List ℕ)
two_requests = (0 ∷ 1 ∷ 0 ∷ 0 ∷ 2 ∷ 5 ∷ 6 ∷ []) ∷ (1 ∷ 2 ∷ 0 ∷ 9 ∷ 4 ∷ 3 ∷ 7 ∷ []) ∷ []

abbrev two_answers : List Answer
two_answers = read_write 0 0 (8 ∷ 9 ∷ []) ∷ read_modify_write 1 0 4 6 ∷ []

abbrev answered_reads : List Read
answered_reads =
    gives (0 ∷ 1 ∷ 0 ∷ []) ∷ interrupted ∷ gives (0 ∷ 2 ∷ 8 ∷ 9 ∷ 1 ∷ 2 ∷ 0 ∷ 4 ∷ 6 ∷ []) ∷ []

answered_reads-Cut : Cut answered_reads (answers_bytes two_answers) []
unfolding answers_bytes answer_bytes
answered_reads-Cut =
    let behind : List ℕ = 0 ∷ 2 ∷ 8 ∷ 9 ∷ 1 ∷ 2 ∷ 0 ∷ 4 ∷ 6 ∷ [] in
    piece 0 (1 ∷ 0 ∷ []) behind (answers_bytes two_answers) (interrupted ∷ gives behind ∷ []) []
      refl
      (interruption 0 (2 ∷ 8 ∷ 9 ∷ 1 ∷ 2 ∷ 0 ∷ 4 ∷ 6 ∷ []) (gives behind ∷ []) []
        (piece 0 (2 ∷ 8 ∷ 9 ∷ 1 ∷ 2 ∷ 0 ∷ 4 ∷ 6 ∷ []) [] behind [] [] refl (all_read [])))

mcu_spi_flush-stored_example :
    ((store_all spi_bulk_buffer two_requests).0 ≡ true)
    × (mcu_spi_flush 7
          (some 4)
          (some 14)
          (0 ∷ 0 ∷ 0 ∷ 0 ∷ [])
          (interrupted
            ∷ gives (header 7 0x45 (length (answers_bytes two_answers)))
            ∷ answered_reads)
          (store_all spi_bulk_buffer two_requests).1
        ≡ spi
            (all_done two_answers)
            (header 7 0x05 (length (joined two_requests)) ++ joined two_requests)
            (header 7 0x45 (length (answers_bytes two_answers)))
            (answered
              (store_all spi_bulk_buffer two_requests).1
              (all_done two_answers)
              (answers_bytes two_answers)))
unfolding joined answers_bytes answer_bytes Fits
mcu_spi_flush-stored_example =
    mcu_spi_flush-stored 7 7 1 (0 ∷ 0 ∷ 0 ∷ 0 ∷ []) spi_bulk_buffer two_requests two_answers
      answered_reads [] refl refl (length-replicate {A = ℕ} 4096 0) (omega arith) (omega arith) refl
      (omega arith, (tt, tt)) (omega arith) answered_reads-Cut
