-- ===== src/Spi/Chip.antt =====
-- libloragw/src/loragw_spi.c: over a chip that answers SPI frames, the functions are a link to its bytes.
use meshbeacon_uplink.Prelude.{
  ℕ, ◌+◌, ◌/◌, ◌%◌, ◌<◌, ◌≤◌, ◌≡◌, ◌⊎◌, refl, ap, ◌∙◌, Bool, true, false, List, [], ◌∷◌, ◌++◌,
  if◌then◌else◌, bit_and, u8, length, get_or, arith,
}
use meshbeacon_uplink.Prelude.Int.{ℤ, pos}
use meshbeacon_uplink.Prelude.Bits.{or_shifted, and_mask}
use meshbeacon_uplink.Reg.Access.Holds.{KeepsBytes}
use meshbeacon_uplink.Spi.{
  command, read_access, write_access, is_count, lgw_spi_w, lgw_spi_r, spi_com,
}

-- The frame of a write, at an address of 15 bits.
abbrev pub written_at : ℕ → List ℕ → List ℕ
written_at a bytes = (0 ∷ (128 + a / 256) ∷ (a % 256) ∷ []) ++ bytes

abbrev pub read_at : ℕ → List ℕ
read_at a = 0 ∷ (a / 256) ∷ (a % 256) ∷ 0 ∷ []

-- The chip behind the call of `ioctl`: the bytes written stand at the address and behind it.
pub record AnswersSpi {S : Type 0} (ioctl : S → List ℕ → ℕ → ℤ × List ℕ × S) (byte : S → ℕ → ℕ)
    : Type 0 where
  pub is_byte : (s : S) (a : ℕ) → byte s a < 256
  pub write_count :
      (s : S) (a : ℕ) (bytes : List ℕ)
      → 1 ≤ length bytes
      → a + length bytes ≤ 0x8000
      → (ioctl s (written_at a bytes) 0).0 ≡ pos (3 + length bytes)
  pub write_stores :
      (s : S) (a : ℕ) (bytes : List ℕ) (i : ℕ)
      → a + length bytes ≤ 0x8000
      → i < length bytes
      → byte (ioctl s (written_at a bytes) 0).2 (a + i) ≡ u8 (get_or bytes i 0)
  pub write_keeps :
      (s : S) (a : ℕ) (bytes : List ℕ) (b : ℕ)
      → a + length bytes ≤ 0x8000
      → (b < a) ⊎ (a + length bytes ≤ b)
      → byte (ioctl s (written_at a bytes) 0).2 b ≡ byte s b
  pub read_count : (s : S) (a : ℕ) → a < 0x8000 → (ioctl s (read_at a) 1).0 ≡ pos 5
  pub read_byte : (s : S) (a : ℕ) → a < 0x8000 → (ioctl s (read_at a) 1).1 ≡ byte s a ∷ []
  pub read_keeps : (s : S) (a b : ℕ) → a < 0x8000 → byte (ioctl s (read_at a) 1).2 b ≡ byte s b

high_bits : (a : ℕ) → a < 0x8000 → bit_and (a / 256) 0x7F ≡ a / 256
high_bits a h = and_mask 7 (a / 256) ∙ omega arith

pub command_write :
    (a : ℕ) → a < 0x8000 → command 0 write_access a ≡ 0 ∷ (128 + a / 256) ∷ (a % 256) ∷ []
unfolding command
command_write a h = rw (high_bits a h, or_shifted 7 1 (a / 256) (omega arith), and_mask 8 a) refl

command_read : (a : ℕ) → a < 0x8000 → command 0 read_access a ++ 0 ∷ [] ≡ read_at a
unfolding command
command_read a h =
    let plain : 0 + a / 256 ≡ a / 256 = omega arith in
    rw (high_bits a h, or_shifted 8 0 (a / 256) (omega arith), and_mask 8 a, plain) refl

module _ {S : Type 0} (ioctl : S → List ℕ → ℕ → ℤ × List ℕ × S) (byte : S → ℕ → ℕ)
    (chip : AnswersSpi ioctl byte) where
  -- What a write of one byte comes to.
  written_one :
      (s : S) (a v : ℕ)
      → a < 0x8000
      → lgw_spi_w ioctl s 0 a v ≡ (true, (ioctl s (written_at a (v ∷ [])) 0).2)
  unfolding lgw_spi_w is_count
  written_one s a v h =
      let sent = ap (λ cmd. ioctl s (cmd ++ v ∷ []) 0) (command_write a h) in
      let count = chip.write_count s a (v ∷ []) (omega arith) (omega arith) in
      ap (λ (r : ℤ × List ℕ × S). (is_count r.0 4, r.2)) sent
      ∙ ap (λ n. (is_count n 4, (ioctl s (written_at a (v ∷ [])) 0).2)) count

  read_one :
      (s : S) (a : ℕ)
      → a < 0x8000
      → lgw_spi_r ioctl s 0 a ≡ (true, byte s a, (ioctl s (read_at a) 1).2)
  unfolding lgw_spi_r is_count
  read_one s a h =
      let sent = ap (λ frame. ioctl s frame 1) (command_read a h) in
      let answer = λ (r : ℤ × List ℕ × S).
        if is_count r.0 5 then (true, get_or r.1 0 0, r.2) else (false, 0, r.2) in
      let left = (ioctl s (read_at a) 1).2 in
      ap answer sent
      ∙ ap (λ n. answer (n, (ioctl s (read_at a) 1).1, left)) (chip.read_count s a h)
      ∙ ap (λ bytes. answer (pos 5, bytes, left)) (chip.read_byte s a h)

  -- Reads and writes of single bytes over a chip that answers SPI frames succeed, a write changes the byte at its
  -- address alone, and a read changes none, at addresses of 15 bits.
  pub spi_com-KeepsBytes : KeepsBytes (spi_com ioctl) byte
  spi_com-KeepsBytes = record {
    is_byte = chip.is_byte;
    read_ok = λ s a h. ap (λ (r : Bool × ℕ × S). r.0) (read_one s a h);
    read_byte = λ s a h. ap (λ (r : Bool × ℕ × S). r.1) (read_one s a h);
    read_keeps =
        λ s a b h. ap (λ (r : Bool × ℕ × S). byte r.2 b) (read_one s a h) ∙ chip.read_keeps s a b h;
    write_ok = λ s a v h small. ap (λ (r : Bool × S). r.0) (written_one s a v h);
    write_byte = λ s a v h small.
        let place : a ≡ a + 0 = omega arith in
        let fits : u8 v ≡ v = omega arith in
        ap (λ (r : Bool × S). byte r.1 a) (written_one s a v h)
        ∙ ap (byte (ioctl s (written_at a (v ∷ [])) 0).2) place
        ∙ chip.write_stores s a (v ∷ []) 0 (omega arith) (omega arith)
        ∙ fits;
    write_keeps = λ s a b v h small n.
        let away : (b < a) ⊎ (a + length (v ∷ []) ≤ b) = ground (arith, n) in
        ap (λ (r : Bool × S). byte r.1 b) (written_one s a v h)
        ∙ chip.write_keeps s a (v ∷ []) b (omega arith) away;
  }
