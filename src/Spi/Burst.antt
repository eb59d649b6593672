-- ===== src/Spi/Burst.antt =====
-- libloragw/src/loragw_spi.c: bursts over a chip that answers SPI frames.
use mathlib.Core.List.{append-nil}
use meshbeacon_uplink.Prelude.{
  ℕ, suc, ◌+◌, ◌-◌, ◌*◌, ◌≤◌, ◌≡◌, refl, sym, ap, ◌∙◌, Bool, true, List, [], ◌++◌, leb, ltb, ◌==◌,
  if◌then◌else◌, length, take, drop, arith, if_true, if_false, take_prefix,
}
use meshbeacon_uplink.Prelude.Int.{ℤ, pos, ◌-ℤ◌}
use meshbeacon_uplink.Reg.Mem.{Link}
use meshbeacon_uplink.Reg.Mem.Write.{IsMemory}
use meshbeacon_uplink.Spi.{
  command, write_access, lgw_burst_chunk, is_count, plus, write_burst, lgw_spi_wb, lgw_spi_rb,
}
use meshbeacon_uplink.Spi.Chip.{AnswersSpi, written_at, command_write}

counted : (n : ℕ) → is_count (plus (pos 0) (pos (3 + n) -ℤ pos 3)) n ≡ true
unfolding is_count plus
counted n =
    let sent : pos (3 + n) -ℤ pos 3 ≡ pos n =
      if_true (leb (0 + 3) (3 + n + 0)) _ _ (ground arith) ∙ ap pos (omega arith) in
    let sum : plus (pos 0) (pos n) ≡ pos n =
      if_true (leb (0 + 0) (0 + n)) _ _ (ground arith) ∙ ap pos (omega arith) in
    ap (λ z. is_count (plus (pos 0) z) n) sent ∙ ap (λ z. is_count z n) sum ∙ ground arith

module _ {S : Type 0} (ioctl : S → List ℕ → ℕ → ℤ × List ℕ × S) where
  -- The link of the memory accesses, where SPI is in use.
  abbrev pub spi_link : Link S
  spi_link = record {
    lgw_com_wb = λ s address bytes. lgw_spi_wb ioctl s 0 address bytes (length bytes);
    lgw_com_rb = λ s address size. lgw_spi_rb ioctl s 0 address size;
    chunk_size_max = lgw_burst_chunk;
  }

  -- A burst of one chunk at most.
  one_chunk :
      (fuel : ℕ) (cmd bytes : List ℕ) (sum : ℤ) (s : S)
      → 1 ≤ length bytes
      → length bytes ≤ lgw_burst_chunk
      → write_burst ioctl (suc (suc fuel)) cmd bytes 0 (length bytes) sum s
        ≡ (plus sum ((ioctl s (cmd ++ bytes) 0).0 -ℤ pos 3), (ioctl s (cmd ++ bytes) 0).2)
  unfolding write_burst
  one_chunk fuel cmd bytes sum s one small =
      let n = length bytes in
      let chunk = if ltb n lgw_burst_chunk then n else lgw_burst_chunk in
      let size : chunk ≡ n = ground arith in
      let whole : take chunk (drop (0 * lgw_burst_chunk) bytes) ≡ bytes =
        ap (λ k. take k bytes) size
        ∙ ap (take n) (sym (append-nil bytes))
        ∙ take_prefix n bytes [] refl in
      let over : n - chunk ≡ 0 = omega (arith, size) in
      if_false (n == 0) _ _ (ground arith)
      ∙ if_true ((n - chunk) == 0) _ _ (ground (arith, over))
      ∙ ap (λ bs. (plus sum ((ioctl s (cmd ++ bs) 0).0 -ℤ pos 3), (ioctl s (cmd ++ bs) 0).2)) whole

  module _ (byte : S → ℕ → ℕ) (chip : AnswersSpi ioctl byte) where
    burst_lem :
        (s : S) (addr : ℕ) (bytes : List ℕ)
        → 1 ≤ length bytes
        → length bytes ≤ lgw_burst_chunk
        → addr + length bytes ≤ 0x8000
        → lgw_spi_wb ioctl s 0 addr bytes (length bytes)
          ≡ (true, (ioctl s (written_at addr bytes) 0).2)
    unfolding lgw_spi_wb is_count plus
    burst_lem s addr bytes one small fits =
        let n = length bytes in
        let steps : n + 1 ≡ suc (suc (n - 1)) = omega arith in
        let cmd = command 0 write_access addr in
        let sent = ap (λ c. ioctl s (c ++ bytes) 0) (command_write addr (omega arith)) in
        let finish : ℤ × S → Bool × S = λ r. (is_count r.0 n, r.1) in
        let t = (ioctl s (written_at addr bytes) 0).2 in
        if_false (n == 0) _ _ (ground arith)
        ∙ ap (λ f. finish (write_burst ioctl f cmd bytes 0 n (pos 0) s)) steps
        ∙ ap finish (one_chunk (n - 1) cmd bytes (pos 0) s one small)
        ∙ ap (λ (r : ℤ × List ℕ × S). finish (plus (pos 0) (r.0 -ℤ pos 3), r.2)) sent
        ∙ ap (λ c. finish (plus (pos 0) (c -ℤ pos 3), t)) (chip.write_count s addr bytes one fits)
        ∙ ap (λ b. (b, t)) (counted n)

    -- A burst of at most 1024 bytes below the address 2^15 succeeds, and writes the bytes to the address and behind it,
    -- and nothing else.
    pub spi_link-IsMemory : IsMemory spi_link byte 0x8000
    spi_link-IsMemory = record {
      succeeds = λ s addr bytes one small fits.
          ap (λ (r : Bool × S). r.0) (burst_lem s addr bytes one small fits);
      stored = λ s addr bytes i small fits l.
          ap (λ (r : Bool × S). byte r.1 (addr + i))
            (burst_lem s addr bytes (omega arith) small fits)
          ∙ chip.write_stores s addr bytes i fits l;
      untouched = λ s addr bytes a one small fits away.
          ap (λ (r : Bool × S). byte r.1 a) (burst_lem s addr bytes one small fits)
          ∙ chip.write_keeps s addr bytes a fits away;
    }
