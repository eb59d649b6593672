-- ===== src/Reg/Access/Tests.antt =====
-- A chip that keeps its bytes, and the theorems on two registers of one byte.
use meshbeacon_uplink.Prelude.{
  ℕ, ◌+◌, ◌%◌, ◌<◌, ◌≤◌, ◌≡◌, refl, true, some, ◌==◌, if◌then◌else◌, arith,
}
use meshbeacon_uplink.Prelude.Int.{pos}
use meshbeacon_uplink.Reg.Field.{Com}
use meshbeacon_uplink.Reg.Table.System.{common_regs}
use meshbeacon_uplink.Reg.Table.Entry.{reg, at_base}
use meshbeacon_uplink.Reg.Table.{flat, reg_blocks, loregs, reg_at}
use meshbeacon_uplink.Reg.Table.Order.{is_value}
use meshbeacon_uplink.Reg.Table.Apart.{AreApart, reg_at-AreApart}
use meshbeacon_uplink.Reg.Access.{lgw_reg_w, lgw_reg_r}
use meshbeacon_uplink.Reg.Access.Holds.{KeepsBytes, lgw_reg_w-Holds}

abbrev sample_com : Com (ℕ → ℕ)
sample_com = record {
  lgw_com_w = λ s a v. (true, λ b. if a == b then v else s b);
  lgw_com_r = λ s a. (true, s a % 256, s);
}

abbrev sample_byte : (ℕ → ℕ) → ℕ → ℕ
sample_byte s a = s a % 256

sample_com-KeepsBytes : KeepsBytes sample_com sample_byte
sample_com-KeepsBytes = record {
  is_byte = λ s a. omega arith;
  read_ok = λ s a low. refl;
  read_byte = λ s a low. refl;
  read_keeps = λ s a b low. refl;
  write_ok = λ s a v low small. refl;
  write_byte = λ s a v low small. ground arith;
  write_keeps = λ s a b v low small n. ground arith;
}

abbrev erased : ℕ → ℕ
erased a = 255

reg_at-AreApart_example :
    ((1 ≤ (reg_at 1).leng)
      × ((reg_at 1).offs + (reg_at 1).leng ≤ 8)
      × ((reg_at 1).addr < 0x8000)
      × (is_value (reg_at 1) (reg_at 1).dflt ≡ true))
    × AreApart (reg_at 1) (reg_at 2)
reg_at-AreApart_example = reg_at-AreApart 1 2 (omega arith) (omega arith) (omega arith)

lgw_reg_w-Holds_example :
    let out = lgw_reg_w sample_com erased 1 (pos 0) in
    (out.0 ≡ true)
    × (((lgw_reg_r sample_com out.1 1).0 ≡ true)
        × ((lgw_reg_r sample_com out.1 1).1 ≡ some (pos 0)))
    × (((lgw_reg_r sample_com out.1 2).0 ≡ true)
        × ((lgw_reg_r sample_com out.1 2).1 ≡ (lgw_reg_r sample_com erased 2).1))
unfolding reg_at loregs flat reg_blocks common_regs at_base reg is_value
lgw_reg_w-Holds_example =
    lgw_reg_w-Holds sample_com sample_byte sample_com-KeepsBytes erased 1 2 (pos 0) (omega arith)
      (omega arith) (omega arith) refl refl
