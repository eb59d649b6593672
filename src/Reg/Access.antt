-- ===== src/Reg/Access.antt =====
-- libloragw/src/loragw_reg.c: the registers by their numbers. The link is a parameter.
pub mod Holds
mod Tests
use meshbeacon_uplink.Prelude.{
  ℕ, ◌<◌, ◌≤◌, Bool, true, false, List, [], ◌∷◌, Option, none, some, leb, ltb, ◌==◌, if◌then◌else◌,
  take,
}
use meshbeacon_uplink.Prelude.Int.{ℤ}
use meshbeacon_uplink.Reg.Mem.{Link}
use meshbeacon_uplink.Reg.Field.{LgwReg, Com, reg_w, reg_r}
use meshbeacon_uplink.Reg.Table.{reg_at, lgw_totalregs}

module _ {S : Type 0} (link : Com S) where
  unfoldable pub lgw_reg_w : S → ℕ → ℤ → Bool × S
  lgw_reg_w s register_id reg_value =
      if leb lgw_totalregs register_id
      then (false, s)
      else if (reg_at register_id).rdon
      then (false, s)
      else reg_w link s (reg_at register_id) reg_value

  unfoldable pub lgw_reg_r : S → ℕ → Bool × Option ℤ × S
  lgw_reg_r s register_id =
      if leb lgw_totalregs register_id then (false, none, s) else reg_r link s (reg_at register_id)

module _ {S : Type 0} (link : Link S) where
  unfoldable pub lgw_reg_wb : S → ℕ → List ℕ → ℕ → Bool × S
  lgw_reg_wb s register_id bytes size =
      if size == 0
      then (false, s)
      else if leb lgw_totalregs register_id
      then (false, s)
      else if (reg_at register_id).rdon
      then (false, s)
      else link.lgw_com_wb s (reg_at register_id).addr (take size bytes)

  unfoldable pub lgw_reg_rb : S → ℕ → ℕ → Bool × List ℕ × S
  lgw_reg_rb s register_id size =
      if size == 0
      then (false, [], s)
      else if leb lgw_totalregs register_id
      then (false, [], s)
      else link.lgw_com_rb s (reg_at register_id).addr size
