-- ===== src/Reg/Mem/Write.antt =====
-- libloragw/src/loragw_reg.c, `lgw_mem_wb`: what a write in chunks leaves in the memory.
use meshbeacon_uplink.Prelude.{
  ℕ, zero, suc, ◌+◌, ◌-◌, ◌*◌, ◌<◌, ◌≤◌, ◌≡◌, refl, sym, ap, ◌∙◌, subst, ◌⊎◌, inl, inr, Bool, true,
  List, some, ltb, ◌==◌, length, take, drop, get_or, arith, Bool-cases, if_true, if_false,
  length-take, length-drop, get_or-take, get_or-drop, drop-drop, u8, u16,
}
use meshbeacon_uplink.Reg.Mem.{Link, chunk_size, write_chunks, lgw_mem_wb}

-- A chip with a memory behind the link: a burst of at most one chunk below `limit` succeeds, what is written is there
-- afterwards, and the rest is as it was.
pub record IsMemory {S : Type 0} (link : Link S) (peek : S → ℕ → ℕ) (limit : ℕ) : Type 0 where
  pub succeeds :
      (s : S) (addr : ℕ) (bytes : List ℕ)
      → 1 ≤ length bytes
      → length bytes ≤ link.chunk_size_max
      → addr + length bytes ≤ limit
      → (link.lgw_com_wb s addr bytes).0 ≡ true
  pub stored :
      (s : S) (addr : ℕ) (bytes : List ℕ) (i : ℕ)
      → length bytes ≤ link.chunk_size_max
      → addr + length bytes ≤ limit
      → i < length bytes
      → peek ((link.lgw_com_wb s addr bytes).1) (addr + i) ≡ u8 (get_or bytes i 0)
  pub untouched :
      (s : S) (addr : ℕ) (bytes : List ℕ) (a : ℕ)
      → 1 ≤ length bytes
      → length bytes ≤ link.chunk_size_max
      → addr + length bytes ≤ limit
      → (a < addr) ⊎ (addr + length bytes ≤ a)
      → peek ((link.lgw_com_wb s addr bytes).1) a ≡ peek s a

-- The bytes stand at the address and behind it, and nothing else has changed.
pub record Holds {S : Type 0} (peek : S → ℕ → ℕ) (s : S) (t : S) (addr : ℕ) (bytes : List ℕ)
    : Type 0 where
  pub inside : (i : ℕ) → i < length bytes → peek t (addr + i) ≡ u8 (get_or bytes i 0)
  pub outside : (a : ℕ) → (a < addr) ⊎ (addr + length bytes ≤ a) → peek t a ≡ peek s a

module _ {S : Type 0} (link : Link S) (peek : S → ℕ → ℕ) where
  -- A part and the rest behind it.
  Holds-join :
      (s t u : S) (addr n : ℕ) (bytes : List ℕ)
      → n ≤ length bytes
      → Holds peek s t addr (take n bytes)
      → Holds peek t u (addr + n) (drop n bytes)
      → Holds peek s u addr bytes
  Holds-join s t u addr n bytes h first last =
      let short = length-take n bytes h in
      let left = length-drop n bytes in
      record {
        inside = λ i l. elim (Bool-cases (ltb i n)) [
          | inl before ↦
              last.outside (addr + i) (inl (ground arith))
              ∙ first.inside i (ground (arith, short))
              ∙ ap u8 (get_or-take n i bytes 0 (ground arith))
          | inr behind ↦
              let place : addr + n + (i - n) ≡ addr + i = ground arith in
              let index : n + (i - n) ≡ i = ground arith in
              ap (peek u) (sym place)
              ∙ last.inside (i - n) (ground (arith, left))
              ∙ ap u8 (get_or-drop n (i - n) bytes 0)
              ∙ ap (λ k. u8 (get_or bytes k 0)) index
        ];
        outside = λ a away.
            last.outside a (away_last a away left) ∙ first.outside a (away_first a away short);
      }
    where
      away_last :
          (a : ℕ)
          → (a < addr) ⊎ (addr + length bytes ≤ a)
          → length (drop n bytes) ≡ length bytes - n
          → (a < addr + n) ⊎ (addr + n + length (drop n bytes) ≤ a)
      away_last a (inl before) e = inl (omega arith)
      away_last a (inr behind) e = inr (omega arith)

      away_first :
          (a : ℕ)
          → (a < addr) ⊎ (addr + length bytes ≤ a)
          → length (take n bytes) ≡ n
          → (a < addr) ⊎ (addr + length (take n bytes) ≤ a)
      away_first a (inl before) e = inl before
      away_first a (inr behind) e = inr (omega arith)

  -- Of no bytes, the address does not matter.
  Holds-none :
      (t u : S) (addr addr' : ℕ) (bytes bytes' : List ℕ)
      → length bytes ≡ 0
      → length bytes' ≡ 0
      → Holds peek t u addr bytes
      → Holds peek t u addr' bytes'
  Holds-none t u addr addr' bytes bytes' e e' h = record {
    inside = λ i l. absurd (omega arith);
    outside = λ a away. elim (Bool-cases (ltb a addr)) [
      | inl below ↦ h.outside a (inl (ground arith))
      | inr above ↦ h.outside a (inr (ground (arith, e)))
    ];
  }

  module _ (limit : ℕ) (memory : IsMemory link peek limit) (some_size : 1 ≤ link.chunk_size_max)
      (in_16_bits : limit ≤ 65536) where
    Written : ℕ → List ℕ → S → ℕ → ℕ → ℕ → Bool → Type 0
    Written fuel buf s addr sz_todo chunk_cnt com_stat =
        (t : S) × (write_chunks link fuel buf s addr sz_todo chunk_cnt com_stat ≡ some (true, t))
        × Holds peek s t addr (drop (chunk_cnt * link.chunk_size_max) buf)

    chunk_length :
        (buf : List ℕ) (sz_todo chunk_cnt : ℕ)
        → length (drop (chunk_cnt * link.chunk_size_max) buf) ≡ sz_todo
        → length (take (chunk_size link sz_todo) (drop (chunk_cnt * link.chunk_size_max) buf))
          ≡ chunk_size link sz_todo
    chunk_length buf sz_todo chunk_cnt n =
        length-take (chunk_size link sz_todo) (drop (chunk_cnt * link.chunk_size_max) buf)
          (ground (arith, n))

    -- The first chunk is in place, and the others follow.
    chunk-Holds :
        (buf : List ℕ) (s : S) (addr sz_todo chunk_cnt : ℕ)
        → length (drop (chunk_cnt * link.chunk_size_max) buf) ≡ sz_todo
        → 1 ≤ sz_todo
        → addr + sz_todo ≤ limit
        → Holds peek s
            ((link.lgw_com_wb s addr
              (take (chunk_size link sz_todo) (drop (chunk_cnt * link.chunk_size_max) buf))).1)
            addr
            (take (chunk_size link sz_todo) (drop (chunk_cnt * link.chunk_size_max) buf))
    chunk-Holds buf s addr sz_todo chunk_cnt n one fits =
        let bytes = take (chunk_size link sz_todo) (drop (chunk_cnt * link.chunk_size_max) buf) in
        let exact = chunk_length buf sz_todo chunk_cnt n in
        let some_byte : 1 ≤ length bytes = ground (arith, exact) in
        let small : length bytes ≤ link.chunk_size_max = ground (arith, exact) in
        let low : addr + length bytes ≤ limit = ground (arith, exact) in
        record {
          inside = λ i l. memory.stored s addr bytes i small low l;
          outside = λ a away. memory.untouched s addr bytes a some_byte small low away;
        }

    -- The place of the next chunk.
    next_start :
        (buf : List ℕ) (chunk_cnt : ℕ)
        → drop link.chunk_size_max (drop (chunk_cnt * link.chunk_size_max) buf)
          ≡ drop ((chunk_cnt + 1) * link.chunk_size_max) buf
    next_start buf chunk_cnt =
        let place : chunk_cnt * link.chunk_size_max + link.chunk_size_max
            ≡ (chunk_cnt + 1) * link.chunk_size_max =
          omega arith in
        drop-drop link.chunk_size_max (chunk_cnt * link.chunk_size_max) buf
        ∙ ap (λ k. drop k buf) place

    next_length :
        (buf : List ℕ) (sz_todo chunk_cnt : ℕ)
        → length (drop (chunk_cnt * link.chunk_size_max) buf) ≡ sz_todo
        → length (drop ((chunk_cnt + 1) * link.chunk_size_max) buf)
          ≡ sz_todo - chunk_size link sz_todo
    next_length buf sz_todo chunk_cnt n =
        ap length (sym (next_start buf chunk_cnt))
        ∙ length-drop link.chunk_size_max (drop (chunk_cnt * link.chunk_size_max) buf)
        ∙ ground (arith, n)

    next-Holds :
        (buf : List ℕ) (t u : S) (addr sz_todo chunk_cnt : ℕ)
        → length (drop (chunk_cnt * link.chunk_size_max) buf) ≡ sz_todo
        → addr + sz_todo ≤ limit
        → Holds peek t u
            (u16 (addr + chunk_size link sz_todo))
            (drop ((chunk_cnt + 1) * link.chunk_size_max) buf)
        → Holds peek t u
            (addr + chunk_size link sz_todo)
            (drop (chunk_size link sz_todo) (drop (chunk_cnt * link.chunk_size_max) buf))
    next-Holds buf t u addr sz_todo chunk_cnt n fits h =
        let max = link.chunk_size_max in
        let rest = drop (chunk_cnt * max) buf in
        elim (Bool-cases (ltb max sz_todo)) [
          | inl full ↦
              let size : chunk_size link sz_todo ≡ max = if_true (ltb max sz_todo) _ _ full in
              let flat : u16 (addr + chunk_size link sz_todo) ≡ addr + chunk_size link sz_todo =
                ground (arith, size) in
              subst (λ k. Holds peek t u (addr + chunk_size link sz_todo) (drop k rest)) (sym size)
                (subst (Holds peek t u (addr + chunk_size link sz_todo))
                  (sym (next_start buf chunk_cnt))
                  (subst (λ a. Holds peek t u a (drop ((chunk_cnt + 1) * max) buf)) flat h))
          | inr last ↦
              let size : chunk_size link sz_todo ≡ sz_todo = if_false (ltb max sz_todo) _ _ last in
              Holds-none t u _ _ _ _ (next_length buf sz_todo chunk_cnt n ∙ omega (arith, size))
                (length-drop (chunk_size link sz_todo) rest ∙ omega (arith, size, n)) h
        ]

    write_chunks-Written :
        (fuel : ℕ) (buf : List ℕ) (s : S) (addr sz_todo chunk_cnt : ℕ) (com_stat : Bool)
        → length (drop (chunk_cnt * link.chunk_size_max) buf) ≡ sz_todo
        → addr + sz_todo ≤ limit
        → sz_todo < fuel
        → com_stat ≡ true
        → Written fuel buf s addr sz_todo chunk_cnt com_stat
    unfolding write_chunks Written
    write_chunks-Written zero buf s addr sz_todo chunk_cnt com_stat n fits enough ok =
        absurd (omega arith)
    write_chunks-Written (suc fuel) buf s addr sz_todo chunk_cnt com_stat n fits enough ok =
        elim (Bool-cases (sz_todo == 0)) [
          | inl over ↦ (
            s,
            if_true (sz_todo == 0) _ _ over ∙ ap (λ b. some (b, s)) ok,
            record { inside = λ i l. absurd (ground (arith, n)); outside = λ a away. refl },
          )
          | inr more ↦
              let max = link.chunk_size_max in
              let rest = drop (chunk_cnt * max) buf in
              let size = chunk_size link sz_todo in
              let exact = chunk_length buf sz_todo chunk_cnt n in
              let some_byte : 1 ≤ length (take size rest) = ground (arith, exact) in
              let small : length (take size rest) ≤ max = ground (arith, exact) in
              let low : addr + length (take size rest) ≤ limit = ground (arith, exact) in
              let done = link.lgw_com_wb s addr (take size rest) in
              let (u, e, h) =
                write_chunks-Written fuel buf (done.1) (u16 (addr + size)) (sz_todo - size)
                  (chunk_cnt + 1) (done.0) (next_length buf sz_todo chunk_cnt n) (ground arith)
                  (ground arith) (memory.succeeds s addr (take size rest) some_byte small low) in
              (
                u,
                if_false (sz_todo == 0) _ _ more ∙ e,
                Holds-join s (done.1) u addr size rest (ground (arith, n))
                    (chunk-Holds buf s addr sz_todo chunk_cnt n (ground arith) fits)
                    (next-Holds buf (done.1) u addr sz_todo chunk_cnt n fits h),
              )
        ]

    -- Over a link whose bursts of at most one chunk succeed and store what they are given, lgw_mem_wb of a buffer that
    -- fits the addresses ends, reports success, and leaves the memory as one write of the whole
    -- buffer would, whatever the size of a chunk.
    pub lgw_mem_wb-Holds :
        (s : S) (mem_addr : ℕ) (buf : List ℕ)
        → 1 ≤ length buf
        → mem_addr + length buf ≤ limit
        → (t : S) × (lgw_mem_wb link s mem_addr buf (length buf) ≡ some (true, t))
          × Holds peek s t mem_addr buf
    unfolding lgw_mem_wb Written
    lgw_mem_wb-Holds s mem_addr buf some_byte fits =
        let whole : drop (0 * link.chunk_size_max) buf ≡ buf = ap (λ k. drop k buf) none_before in
        let (t, e, h) =
          write_chunks-Written (length buf + 1) buf s mem_addr (length buf) 0 true (ap length whole)
            fits (omega arith) refl in
        (
          t,
          if_false (length buf == 0) _ _ (ground arith) ∙ e,
          subst (Holds peek s t mem_addr) whole h,
        )
      where
        none_before : 0 * link.chunk_size_max ≡ 0
        none_before = omega arith
