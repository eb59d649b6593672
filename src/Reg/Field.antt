-- ===== src/Reg/Field.antt =====
-- libloragw/src/loragw_reg.c: `reg_w` and `reg_r`, which write and read the bits of a register, and `lgw_spi_rmw` of
-- libloragw/src/loragw_spi.c.
pub mod Bits
pub mod Value
use meshbeacon_uplink.Prelude.{
  ℕ, suc, ◌+◌, ◌-◌, ◌*◌, ◌/◌, ◌%◌, ◌^◌, ◌<◌, ◌≤◌, Bool, true, false, ◌&&◌, Option, none, some, leb,
  ltb, ◌==◌, if◌then◌else◌, bit_and, bit_or, u8,
}
use meshbeacon_uplink.Prelude.Int.{ℤ, pos, negsuc, to_int8}

pub record LgwReg : Type 0 where
  pub page : ℤ
  pub addr : ℕ
  pub offs : ℕ
  pub sign : Bool
  pub leng : ℕ
  pub rdon : Bool
  pub chck : Bool
  pub dflt : ℤ

-- The bytes of the chip, one at a time: whether the access succeeded, the byte read, and the chip.
pub record Com (S : Type 0) : Type 0 where
  pub lgw_com_w : S → ℕ → ℕ → Bool × S
  pub lgw_com_r : S → ℕ → Bool × ℕ × S

-- `(uint8_t)x` for an `int32_t`.
unfoldable pub to_uint8 : ℤ → ℕ
to_uint8 (pos n) = n % 256
to_uint8 (negsuc n) = 255 - n % 256

-- `x >> k` for an `int8_t`, which keeps the sign.
unfoldable pub shift_int8 : ℤ → ℕ → ℤ
shift_int8 (pos n) k = pos (n / 2 ^ k)
shift_int8 (negsuc n) k = negsuc (n / 2 ^ k)

unfoldable pub bit_mask : ℕ → ℕ → ℕ
bit_mask offs leng = u8 ((2 ^ leng - 1) * 2 ^ offs)

-- `buf[3]`, where `old` is the byte read.
unfoldable pub mix_byte : ℕ → ℕ → ℕ → ℕ → ℕ
mix_byte offs leng old new =
    let mask = bit_mask offs leng in
    bit_or (bit_and (255 - mask) old) (bit_and mask (u8 (new * 2 ^ offs)))

-- `value`, for the byte `buf`.
unfoldable pub field_value : LgwReg → ℕ → ℤ
field_value r buf =
    let left = u8 (buf * 2 ^ (8 - r.leng - r.offs)) in
    if r.sign then shift_int8 (to_int8 left) (8 - r.leng) else pos (left / 2 ^ (8 - r.leng))

module _ {S : Type 0} (link : Com S) where
  unfoldable pub lgw_spi_rmw : S → ℕ → ℕ → ℕ → ℕ → Bool × S
  lgw_spi_rmw s address offs leng new =
      let (read, old, t) = link.lgw_com_r s address in
      let (written, u) = link.lgw_com_w t address (mix_byte offs leng old new) in
      (read && written, u)

  unfoldable pub reg_w : S → LgwReg → ℤ → Bool × S
  reg_w s r reg_value =
      if (r.leng == 8) && (r.offs == 0)
      then link.lgw_com_w s r.addr (to_uint8 reg_value)
      else if leb (r.offs + r.leng) 8
      then lgw_spi_rmw s r.addr r.offs r.leng (to_uint8 reg_value)
      else (false, s)

  -- The value is not set if the register does not fit in a byte.
  unfoldable pub reg_r : S → LgwReg → Bool × Option ℤ × S
  reg_r s r =
      let (read, buf, t) = link.lgw_com_r s r.addr in
      if leb (r.offs + r.leng) 8 then (read, some (field_value r buf), t) else (false, none, s)
