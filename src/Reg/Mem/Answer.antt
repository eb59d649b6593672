-- ===== src/Reg/Mem/Answer.antt =====
-- libloragw/src/loragw_reg.c, `lgw_mem_wb`: what is returned for a write of two chunks.
use meshbeacon_uplink.Prelude.{
  ℕ, suc, ◌+◌, ◌-◌, ◌*◌, ◌<◌, ◌≤◌, ◌≡◌, ap, ◌∙◌, Bool, true, List, Option, some, ltb, ◌==◌, length,
  take, drop, arith, if_true, if_false, u16,
}
use meshbeacon_uplink.Reg.Mem.{Link, chunk_size, write_chunks, lgw_mem_wb}

module _ {S : Type 0} (link : Link S) where
  -- The chip after the first chunk, and what the link says of the second.
  abbrev pub first_chunk : S → ℕ → List ℕ → Bool × S
  first_chunk s addr buf = link.lgw_com_wb s addr (take link.chunk_size_max buf)

  abbrev pub second_chunk : S → ℕ → List ℕ → Bool × S
  second_chunk s addr buf =
      link.lgw_com_wb ((first_chunk s addr buf).1) (addr + link.chunk_size_max)
        (take (length buf - link.chunk_size_max) (drop link.chunk_size_max buf))

  write_chunks-step :
      (fuel : ℕ) (buf : List ℕ) (s : S) (addr sz_todo chunk_cnt : ℕ) (com_stat : Bool)
      → 1 ≤ sz_todo
      → write_chunks link (suc fuel) buf s addr sz_todo chunk_cnt com_stat
        ≡ write_chunks link fuel buf
            ((link.lgw_com_wb s addr
              (take (chunk_size link sz_todo) (drop (chunk_cnt * link.chunk_size_max) buf))).1)
            (u16 (addr + chunk_size link sz_todo))
            (sz_todo - chunk_size link sz_todo)
            (chunk_cnt + 1)
            ((link.lgw_com_wb s addr
              (take (chunk_size link sz_todo) (drop (chunk_cnt * link.chunk_size_max) buf))).0)
  unfolding write_chunks
  write_chunks-step fuel buf s addr sz_todo chunk_cnt com_stat h =
      if_false (sz_todo == 0) _ _ (ground arith)

  -- A chunk that takes all that is left is the last, and the link's answer to it is what is returned.
  write_last :
      (fuel : ℕ) (buf : List ℕ) (s : S) (addr sz_todo chunk_cnt : ℕ) (com_stat : Bool)
      → 1 ≤ sz_todo
      → sz_todo ≤ link.chunk_size_max
      → write_chunks link (suc (suc fuel)) buf s addr sz_todo chunk_cnt com_stat
        ≡ some (link.lgw_com_wb s addr (take sz_todo (drop (chunk_cnt * link.chunk_size_max) buf)))
  unfolding write_chunks
  write_last fuel buf s addr sz_todo chunk_cnt com_stat h l =
      let size : chunk_size link sz_todo ≡ sz_todo =
        if_false (ltb link.chunk_size_max sz_todo) _ _ (ground arith) in
      write_chunks-step (suc fuel) buf s addr sz_todo chunk_cnt com_stat h
      ∙ if_true (sz_todo - chunk_size link sz_todo == 0) _ _ (ground (arith, size))
      ∙ ap
          (λ k. some (link.lgw_com_wb s addr (take k (drop (chunk_cnt * link.chunk_size_max) buf))))
          size

  -- What is left after a first chunk of `k` bytes.
  abbrev from_second : S → ℕ → List ℕ → ℕ → ℕ → List ℕ → ℕ → Option (Bool × S)
  from_second s addr buf fuel k bytes next =
      write_chunks link (suc (suc fuel)) buf ((link.lgw_com_wb s addr (take k bytes)).1) next
        (length buf - k) 1 ((link.lgw_com_wb s addr (take k bytes)).0)

  -- Of a write that takes two chunks, lgw_mem_wb returns what the link answered to the second one,
  -- whatever it answered to the first.
  pub lgw_mem_wb_last_answer :
      (s : S) (addr : ℕ) (buf : List ℕ)
      → 1 ≤ link.chunk_size_max
      → link.chunk_size_max < length buf
      → length buf ≤ 2 * link.chunk_size_max
      → addr + length buf ≤ 65536
      → lgw_mem_wb link s addr buf (length buf) ≡ some (second_chunk s addr buf)
  unfolding lgw_mem_wb
  lgw_mem_wb_last_answer s addr buf h1 h2 h3 h4 =
      let max = link.chunk_size_max in
      let n = length buf in
      let steps : n + 1 ≡ suc (suc (suc (n - 2))) = omega arith in
      let size : chunk_size link n ≡ max = if_true (ltb max n) _ _ (ground arith) in
      let none_before : 0 * max ≡ 0 = omega arith in
      let one_before : 1 * max ≡ max = omega arith in
      let flat : u16 (addr + max) ≡ addr + max = ground arith in
      if_false (n == 0) _ _ (ground arith)
      ∙ ap (λ f. write_chunks link f buf s addr n 0 true) steps
      ∙ write_chunks-step (suc (suc (n - 2))) buf s addr n 0 true (omega arith)
      ∙ ap (λ k. from_second s addr buf (n - 2) k (drop (0 * max) buf) (u16 (addr + k))) size
      ∙ ap (λ k. from_second s addr buf (n - 2) max (drop k buf) (u16 (addr + max))) none_before
      ∙ ap (λ a. from_second s addr buf (n - 2) max buf a) flat
      ∙ write_last (n - 2) buf ((first_chunk s addr buf).1) (addr + max) (n - max) 1
          ((first_chunk s addr buf).0) (omega arith) (omega arith)
      ∙ ap
          (λ k. some (
            link.lgw_com_wb ((first_chunk s addr buf).1) (addr + max)
              (take (n - max) (drop k buf))))
          one_before
