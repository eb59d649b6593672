-- ===== src/Spi/Tests.antt =====
-- A chip that answers SPI frames, and the theorems over it.
use meshbeacon_uplink.Prelude.{
  ℕ, ◌+◌, ◌-◌, ◌*◌, ◌/◌, ◌%◌, ◌<◌, ◌≡◌, ap, ◌∙◌, List, [], ◌∷◌, ltb, if◌then◌else◌, length, u8,
  arith, if_true, if_false,
}
use meshbeacon_uplink.Prelude.Int.{ℤ, pos, negsuc}
use meshbeacon_uplink.Reg.Sample.{store, store-inside, store-outside}
use meshbeacon_uplink.Reg.Mem.Write.{IsMemory}
use meshbeacon_uplink.Reg.Access.Holds.{KeepsBytes}
use meshbeacon_uplink.Spi.{spi_com}
use meshbeacon_uplink.Spi.Chip.{AnswersSpi, written_at, read_at, spi_com-KeepsBytes}
use meshbeacon_uplink.Spi.Burst.{spi_link, spi_link-IsMemory}

abbrev sample_byte : (ℕ → ℕ) → ℕ → ℕ
sample_byte s a = u8 (s a)

-- A frame with the high bit of the address set is a write.
sample_ioctl : (ℕ → ℕ) → List ℕ → ℕ → ℤ × List ℕ × (ℕ → ℕ)
sample_ioctl s (mux ∷ high ∷ low ∷ bytes) n =
    if ltb high 128
    then (pos (4 + n), u8 (s (high * 256 + low)) ∷ [], s)
    else (pos (3 + length bytes), [], store s ((high - 128) * 256 + low) bytes)
sample_ioctl s frame n = (negsuc 0, [], s)

writes_at :
    (s : ℕ → ℕ) (a : ℕ) (bytes : List ℕ)
    → sample_ioctl s (written_at a bytes) 0 ≡ (pos (3 + length bytes), [], store s a bytes)
unfolding sample_ioctl
writes_at s a bytes =
    let place : (128 + a / 256 - 128) * 256 + a % 256 ≡ a = omega arith in
    if_false (ltb (128 + a / 256) 128) _ _ (ground arith)
    ∙ ap (λ k. (pos (3 + length bytes), [], store s k bytes)) place

reads_at :
    (s : ℕ → ℕ) (a : ℕ) → a < 0x8000 → sample_ioctl s (read_at a) 1 ≡ (pos 5, u8 (s a) ∷ [], s)
unfolding sample_ioctl
reads_at s a h =
    let place : a / 256 * 256 + a % 256 ≡ a = omega arith in
    if_true (ltb (a / 256) 128) _ _ (ground arith) ∙ ap (λ k. (pos 5, u8 (s k) ∷ [], s)) place

abbrev Reply : Type 0
Reply = ℤ × List ℕ × (ℕ → ℕ)

sample_ioctl-AnswersSpi : AnswersSpi sample_ioctl sample_byte
sample_ioctl-AnswersSpi = record {
  is_byte = λ s a. omega arith;
  write_count = λ s a bytes one fits. ap (λ (r : Reply). r.0) (writes_at s a bytes);
  write_stores = λ s a bytes i fits l.
      ap (λ (r : Reply). u8 (r.2 (a + i))) (writes_at s a bytes)
      ∙ ap u8 (store-inside s a bytes i l);
  write_keeps = λ s a bytes b fits away.
      ap (λ (r : Reply). u8 (r.2 b)) (writes_at s a bytes) ∙ ap u8 (store-outside s a bytes b away);
  read_count = λ s a h. ap (λ (r : Reply). r.0) (reads_at s a h);
  read_byte = λ s a h. ap (λ (r : Reply). r.1) (reads_at s a h);
  read_keeps = λ s a b h. ap (λ (r : Reply). u8 (r.2 b)) (reads_at s a h);
}

spi_com-KeepsBytes_example : KeepsBytes (spi_com sample_ioctl) sample_byte
spi_com-KeepsBytes_example = spi_com-KeepsBytes sample_ioctl sample_byte sample_ioctl-AnswersSpi

spi_link-IsMemory_example : IsMemory (spi_link sample_ioctl) sample_byte 0x8000
spi_link-IsMemory_example = spi_link-IsMemory sample_ioctl sample_byte sample_ioctl-AnswersSpi
