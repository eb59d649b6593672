-- ===== src/Reg/Table/System.antt =====
-- libloragw/src/loragw_reg.c: entries of `loregs`, the registers of the clocks, the pins and the counters.
use meshbeacon_uplink.Prelude.{List, [], ◌∷◌}
use meshbeacon_uplink.Reg.Table.Entry.{
  LgwReg, reg, at_base, agc_mcu_base_addr, clk_ctrl_base_addr, common_base_addr, gpio_base_addr,
  timestamp_base_addr,
}

unfoldable pub common_regs : List LgwReg
common_regs = at_base common_base_addr (
    reg 0 0 0 0 2 0 1 0
    ∷ reg 0 1 4 0 1 0 1 0
    ∷ reg 0 1 3 0 1 0 1 1
    ∷ reg 0 1 2 0 1 0 1 0
    ∷ reg 0 1 1 0 1 0 1 1
    ∷ reg 0 1 0 0 1 0 1 1
    ∷ reg 0 2 3 0 1 0 1 0
    ∷ reg 0 2 2 0 1 0 1 1
    ∷ reg 0 2 1 0 1 0 1 0
    ∷ reg 0 2 0 0 1 0 1 1
    ∷ reg 0 3 0 0 8 0 1 2
    ∷ reg 0 4 0 0 8 0 1 128
    ∷ reg 0 5 3 0 1 0 1 0
    ∷ reg 0 5 2 0 1 0 1 0
    ∷ reg 0 5 1 0 1 0 1 0
    ∷ reg 0 5 0 0 1 0 1 0
    ∷ reg 0 6 0 0 8 1 1 16
    ∷ reg 0 7 0 0 1 1 1 0
    ∷ [])

unfoldable pub agc_mcu_regs : List LgwReg
agc_mcu_regs = at_base agc_mcu_base_addr (
    reg 0 0 4 0 1 0 1 1
    ∷ reg 0 0 3 0 1 0 1 0
    ∷ reg 0 0 2 0 1 0 1 1
    ∷ reg 0 0 1 0 1 0 1 0
    ∷ reg 0 0 0 0 1 1 1 0
    ∷ reg 0 1 0 0 8 1 1 0
    ∷ reg 0 2 2 0 2 0 1 0
    ∷ reg 0 2 0 0 2 0 1 0
    ∷ reg 0 3 3 0 1 0 1 0
    ∷ reg 0 3 2 0 1 0 1 0
    ∷ reg 0 3 1 0 1 0 1 0
    ∷ reg 0 3 0 0 1 0 1 0
    ∷ reg 0 4 3 0 1 0 1 0
    ∷ reg 0 4 2 0 1 0 1 0
    ∷ reg 0 4 1 0 1 0 1 0
    ∷ reg 0 4 0 0 1 0 1 0
    ∷ reg 0 5 4 0 4 0 1 0
    ∷ reg 0 5 0 0 4 0 1 0
    ∷ reg 0 6 4 0 4 0 1 0
    ∷ reg 0 6 0 0 4 0 1 0
    ∷ reg 0 7 5 0 1 0 1 0
    ∷ reg 0 7 4 0 1 0 1 0
    ∷ reg 0 7 3 0 1 0 1 0
    ∷ reg 0 7 2 0 1 0 1 0
    ∷ reg 0 7 1 0 1 0 1 0
    ∷ reg 0 7 0 0 1 0 1 1
    ∷ reg 0 8 0 0 8 0 1 0
    ∷ reg 0 9 0 0 8 0 1 0
    ∷ reg 0 10 0 0 8 0 1 0
    ∷ reg 0 11 0 0 8 0 1 0
    ∷ reg 0 12 0 0 8 0 1 0
    ∷ reg 0 13 0 0 8 1 1 0
    ∷ reg 0 14 0 0 8 1 1 0
    ∷ reg 0 15 0 0 8 1 1 0
    ∷ reg 0 16 0 0 8 1 1 0
    ∷ reg 0 17 0 0 1 1 1 0
    ∷ [])

unfoldable pub clk_ctrl_regs : List LgwReg
clk_ctrl_regs =
    at_base clk_ctrl_base_addr
      (reg 0 0 2 0 1 0 1 0 ∷ reg 0 0 1 0 1 0 1 0 ∷ reg 0 0 0 0 1 0 1 0 ∷ reg 0 1 3 0 1 1 1 0 ∷ [])

unfoldable pub gpio_regs : List LgwReg
gpio_regs = at_base gpio_base_addr (
    reg 0 0 0 0 4 0 1 0
    ∷ reg 0 1 0 0 8 0 1 0
    ∷ reg 0 2 0 0 4 0 1 0
    ∷ reg 0 3 0 0 8 0 1 0
    ∷ reg 0 4 0 0 4 1 1 0
    ∷ reg 0 5 0 0 8 1 1 0
    ∷ reg 0 6 0 0 4 0 1 0
    ∷ reg 0 7 0 0 8 0 1 0
    ∷ reg 0 8 0 0 4 0 1 0
    ∷ reg 0 9 0 0 4 0 1 0
    ∷ reg 0 10 0 0 4 0 1 0
    ∷ reg 0 11 0 0 4 0 1 0
    ∷ reg 0 12 0 0 4 0 1 0
    ∷ reg 0 13 0 0 4 0 1 0
    ∷ reg 0 14 0 0 4 0 1 0
    ∷ reg 0 15 0 0 4 0 1 0
    ∷ reg 0 16 1 0 4 0 1 0
    ∷ reg 0 16 0 0 1 0 1 0
    ∷ reg 0 17 5 0 1 0 0 0
    ∷ reg 0 17 4 0 1 0 0 0
    ∷ reg 0 17 3 0 1 0 0 0
    ∷ reg 0 17 2 0 1 0 0 0
    ∷ reg 0 17 1 0 1 0 0 0
    ∷ reg 0 17 0 0 1 0 0 0
    ∷ reg 0 18 5 0 1 0 1 0
    ∷ reg 0 18 4 0 1 0 1 0
    ∷ reg 0 18 3 0 1 0 1 0
    ∷ reg 0 18 2 0 1 0 1 0
    ∷ reg 0 18 1 0 1 0 1 0
    ∷ reg 0 18 0 0 1 0 1 0
    ∷ reg 0 19 0 0 1 1 1 0
    ∷ [])

unfoldable pub timestamp_regs : List LgwReg
timestamp_regs = at_base timestamp_base_addr (
    reg 0 0 1 0 1 0 1 0
    ∷ reg 0 0 0 0 1 0 1 0
    ∷ reg 0 1 0 0 8 1 1 0
    ∷ reg 0 2 0 0 8 1 1 0
    ∷ reg 0 3 0 0 8 1 1 0
    ∷ reg 0 4 0 0 8 1 1 0
    ∷ reg 0 5 0 0 8 1 1 0
    ∷ reg 0 6 0 0 8 1 1 0
    ∷ reg 0 7 0 0 8 1 1 0
    ∷ reg 0 8 0 0 8 1 1 0
    ∷ reg 0 9 0 0 8 0 1 0
    ∷ reg 0 10 0 0 8 0 1 0
    ∷ reg 0 11 0 0 8 0 1 0
    ∷ reg 0 12 0 0 8 0 1 0
    ∷ reg 0 13 0 0 8 0 1 0
    ∷ reg 0 14 0 0 8 0 1 0
    ∷ reg 0 15 0 0 8 0 1 0
    ∷ reg 0 16 0 0 8 0 1 0
    ∷ reg 0 17 0 0 1 1 1 0
    ∷ [])
