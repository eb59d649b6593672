-- ===== src/Reg/Tests.antt =====
-- A chip whose memory is a function, and the theorems at concrete inputs.
use meshbeacon_uplink.Prelude.{ℕ, ◌≡◌, refl, Bool, true, List, [], ◌∷◌, some, ltb, u8, arith, ap}
use meshbeacon_uplink.Reg.Sample.{store, store-inside, store-outside}
use meshbeacon_uplink.Reg.Mem.{Link, lgw_mem_wb}
use meshbeacon_uplink.Reg.Mem.Write.{IsMemory, Holds, lgw_mem_wb-Holds}
use meshbeacon_uplink.Reg.Mem.Answer.{second_chunk, lgw_mem_wb_last_answer}

-- Two bytes are transferred at once. `answer` says of an address whether a write succeeds.
abbrev sample_link : (ℕ → Bool) → Link (ℕ → ℕ)
sample_link answer = record {
  lgw_com_wb = λ s addr bytes. (answer addr, store s addr bytes);
  lgw_com_rb = λ s addr size. (true, [], s);
  chunk_size_max = 2;
}

abbrev sample_peek : (ℕ → ℕ) → ℕ → ℕ
sample_peek s a = u8 (s a)

sample_link-IsMemory : IsMemory (sample_link (λ a. true)) sample_peek 65536
sample_link-IsMemory = record {
  succeeds = λ s addr bytes one small fits. refl;
  stored = λ s addr bytes i small fits l. ap u8 (store-inside s addr bytes i l);
  untouched = λ s addr bytes a one small fits away. ap u8 (store-outside s addr bytes a away);
}

abbrev sample_buf : List ℕ
sample_buf = 10 ∷ 20 ∷ 30 ∷ []

lgw_mem_wb-Holds_example :
    (t : ℕ → ℕ) × (lgw_mem_wb (sample_link (λ a. true)) (λ a. 0) 256 sample_buf 3 ≡ some (true, t))
    × Holds sample_peek (λ a. 0) t 256 sample_buf
lgw_mem_wb-Holds_example =
    lgw_mem_wb-Holds (sample_link (λ a. true)) sample_peek 65536 sample_link-IsMemory (omega arith)
      (omega arith) (λ a. 0) 256 sample_buf (omega arith) (omega arith)

-- The first chunk fails, at address 256, and a success is returned.
lgw_mem_wb_last_answer_example :
    lgw_mem_wb (sample_link (ltb 256)) (λ a. 0) 256 sample_buf 3
    ≡ some (true, (second_chunk (sample_link (ltb 256)) (λ a. 0) 256 sample_buf).1)
lgw_mem_wb_last_answer_example =
    lgw_mem_wb_last_answer (sample_link (ltb 256)) (λ a. 0) 256 sample_buf (omega arith)
      (omega arith) (omega arith) (omega arith)
