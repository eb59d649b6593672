-- ===== src/Sx1302/Ops.antt =====
-- libloragw/src/loragw_sx1302.c: the writes that a function makes one after the other. `CHECK_ERR` ends the function at the
-- first that fails.
use meshbeacon_uplink.Prelude.{ℕ, List, ◌++◌}
use meshbeacon_uplink.Prelude.Int.{ℤ}

pub data Op : Type 0 where
  reg_w : ℕ → ℤ → Op
  reg_wb : ℕ → List ℕ → Op
  mem_wb : ℕ → List ℕ → Op
  set_write_mode_bulk : Op
  set_write_mode_single : Op
  com_flush : Op

-- The writes of a part of a function, if all succeed, and whether the function goes on behind them or reports an error.
pub data Part : Type 0 where
  goes_on : List Op → Part
  stops : List Op → Part

unfoldable pub ops_of : Part → List Op
ops_of (goes_on ops) = ops
ops_of (stops ops) = ops

unfoldable pub after_ops : List Op → Part → Part
after_ops before (goes_on ops) = goes_on (before ++ ops)
after_ops before (stops ops) = stops (before ++ ops)

infixr 55 ◌andthen◌
unfoldable pub ◌andthen◌ : Part → Part → Part
goes_on ops andthen next = after_ops ops next
stops ops andthen next = stops ops
