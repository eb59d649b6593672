-- ===== src/Spi.antt =====
-- libloragw/src/loragw_spi.c: the frames that are exchanged over SPI. The call of `ioctl` is a parameter: it sends bytes,
-- receives a number of bytes, and gives the number of bytes transferred or -1.
pub mod Burst
pub mod Chip
mod Tests
use meshbeacon_uplink.Prelude.{
  ℕ, zero, suc, ◌+◌, ◌-◌, ◌*◌, ◌/◌, ◌%◌, ◌^◌, ◌<◌, Bool, true, false, ◌&&◌, List, [], ◌∷◌, ◌++◌,
  ltb, ◌==◌, if◌then◌else◌, bit_and, bit_or, u8, length, take, drop, get_or,
}
use meshbeacon_uplink.Prelude.Int.{ℤ, pos, negsuc, ◌-ℤ◌, pos_part, neg_part, sub_ℕ}
use meshbeacon_uplink.Reg.Field.{Com}

abbrev pub read_access : ℕ
read_access = 0x00

abbrev pub write_access : ℕ
write_access = 0x80

abbrev pub lgw_burst_chunk : ℕ
lgw_burst_chunk = 1024

abbrev pub lgw_spi_mux_target_sx1302 : ℕ
lgw_spi_mux_target_sx1302 = 0x00

unfoldable pub command : ℕ → ℕ → ℕ → List ℕ
command spi_mux_target access address =
    spi_mux_target ∷ bit_or access (bit_and (address / 256) 0x7F) ∷ bit_and address 0xFF ∷ []

unfoldable pub is_count : ℤ → ℕ → Bool
is_count (pos n) k = n == k
is_count (negsuc n) k = false

-- a + b
unfoldable pub plus : ℤ → ℤ → ℤ
plus a b = sub_ℕ (pos_part a + pos_part b) (neg_part a + neg_part b)

module _ {S : Type 0} (ioctl : S → List ℕ → ℕ → ℤ × List ℕ × S) where
  unfoldable pub lgw_spi_w : S → ℕ → ℕ → ℕ → Bool × S
  lgw_spi_w s spi_mux_target address byte =
      let (count, received, t) =
        ioctl s (command spi_mux_target write_access address ++ byte ∷ []) 0 in
      (is_count count 4, t)

  -- Where it fails, the byte is not set, and the callers' buffer holds 0.
  unfoldable pub lgw_spi_r : S → ℕ → ℕ → Bool × ℕ × S
  lgw_spi_r s spi_mux_target address =
      let (count, received, t) = ioctl s (command spi_mux_target read_access address ++ 0 ∷ []) 1 in
      if is_count count 5 then (true, get_or received 0 0, t) else (false, 0, t)

  -- The chunks of a burst. The address is not moved on.
  unfoldable pub write_burst : ℕ → List ℕ → List ℕ → ℕ → ℕ → ℤ → S → ℤ × S
  write_burst zero cmd buf i size_to_do byte_transfered s = (byte_transfered, s)
  write_burst (suc fuel) cmd buf i size_to_do byte_transfered s =
      let chunk_size = if ltb size_to_do lgw_burst_chunk then size_to_do else lgw_burst_chunk in
      let (count, received, t) =
        ioctl s (cmd ++ take chunk_size (drop (i * lgw_burst_chunk) buf)) 0 in
      let rest =
        write_burst fuel cmd buf (i + 1) (size_to_do - chunk_size)
          (plus byte_transfered (count -ℤ pos 3)) t in
      if size_to_do == 0 then (byte_transfered, s) else rest

  -- A step for each byte and one more.
  unfoldable pub lgw_spi_wb : S → ℕ → ℕ → List ℕ → ℕ → Bool × S
  lgw_spi_wb s spi_mux_target address buf size =
      let (byte_transfered, t) =
        write_burst (size + 1) (command spi_mux_target write_access address) buf 0 size (pos 0) s in
      if size == 0 then (false, s) else (is_count byte_transfered size, t)

  unfoldable pub read_burst : ℕ → List ℕ → ℕ → ℤ → List ℕ → S → ℤ × List ℕ × S
  read_burst zero cmd size_to_do byte_transfered buf s = (byte_transfered, buf, s)
  read_burst (suc fuel) cmd size_to_do byte_transfered buf s =
      let chunk_size = if ltb size_to_do lgw_burst_chunk then size_to_do else lgw_burst_chunk in
      let (count, received, t) = ioctl s cmd chunk_size in
      let rest =
        read_burst fuel cmd (size_to_do - chunk_size) (plus byte_transfered (count -ℤ pos 4))
          (buf ++ received) t in
      if size_to_do == 0 then (byte_transfered, buf, s) else rest

  unfoldable pub lgw_spi_rb : S → ℕ → ℕ → ℕ → Bool × List ℕ × S
  lgw_spi_rb s spi_mux_target address size =
      let (byte_transfered, buf, t) =
        read_burst (size + 1) (command spi_mux_target read_access address ++ 0 ∷ []) size (pos 0) []
          s in
      if size == 0 then (false, [], s) else (is_count byte_transfered size, buf, t)

  -- The link of the registers, as `lgw_com_w` and `lgw_com_r` pass it on where SPI is in use.
  abbrev pub spi_com : Com S
  spi_com = record {
    lgw_com_w = λ s address byte. lgw_spi_w s lgw_spi_mux_target_sx1302 address byte;
    lgw_com_r = λ s address. lgw_spi_r s lgw_spi_mux_target_sx1302 address;
  }
