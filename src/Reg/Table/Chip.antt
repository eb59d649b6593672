-- ===== src/Reg/Table/Chip.antt =====
-- libloragw/src/loragw_reg.c: entries of `loregs`, the registers of the arbiter, the radio front end and the memories.
use meshbeacon_uplink.Prelude.{List, [], ◌∷◌}
use meshbeacon_uplink.Reg.Table.Entry.{
  LgwReg, reg, at_base, arb_mcu_base_addr, capture_ram_base_addr, otp_base_addr, radio_fe_base_addr,
}

unfoldable pub arb_mcu_regs : List LgwReg
arb_mcu_regs = at_base arb_mcu_base_addr (
    reg 0 0 5 0 1 0 1 1
    ∷ reg 0 0 4 0 1 0 1 0
    ∷ reg 0 0 3 0 1 0 1 0
    ∷ reg 0 0 2 0 1 0 1 1
    ∷ reg 0 0 1 0 1 0 1 0
    ∷ reg 0 0 0 0 1 1 1 0
    ∷ reg 0 1 0 0 8 1 1 0
    ∷ reg 0 7 5 0 1 0 1 0
    ∷ reg 0 7 4 0 1 0 1 0
    ∷ reg 0 7 3 0 1 0 1 0
    ∷ reg 0 7 2 0 1 0 1 0
    ∷ reg 0 7 1 0 1 0 1 0
    ∷ reg 0 7 0 0 1 0 1 1
    ∷ reg 0 8 0 0 8 0 1 0
    ∷ reg 0 9 0 0 8 0 1 0
    ∷ reg 0 10 0 0 8 0 1 0
    ∷ reg 0 11 0 0 8 0 1 0
    ∷ reg 0 12 0 0 8 0 1 0
    ∷ reg 0 13 0 0 8 1 1 0
    ∷ reg 0 14 0 0 8 1 1 0
    ∷ reg 0 15 0 0 8 1 1 0
    ∷ reg 0 16 0 0 8 1 1 0
    ∷ reg 0 17 0 0 8 1 1 0
    ∷ reg 0 18 0 0 8 1 1 0
    ∷ reg 0 19 0 0 8 1 1 0
    ∷ reg 0 20 0 0 8 1 1 0
    ∷ reg 0 21 0 0 8 1 1 0
    ∷ reg 0 22 0 0 8 1 1 0
    ∷ reg 0 23 0 0 8 1 1 0
    ∷ reg 0 24 0 0 8 1 1 0
    ∷ reg 0 25 0 0 8 1 1 0
    ∷ reg 0 26 0 0 8 1 1 0
    ∷ reg 0 27 0 0 8 1 1 0
    ∷ reg 0 28 0 0 8 1 1 0
    ∷ reg 0 29 4 0 4 0 1 0
    ∷ reg 0 29 0 0 4 0 1 0
    ∷ reg 0 30 4 0 4 0 1 0
    ∷ reg 0 30 0 0 4 0 1 0
    ∷ reg 0 31 4 0 4 0 1 0
    ∷ reg 0 31 0 0 4 0 1 0
    ∷ reg 0 32 4 0 4 0 1 0
    ∷ reg 0 32 0 0 4 0 1 0
    ∷ reg 0 33 0 0 1 1 1 0
    ∷ [])

unfoldable pub radio_fe_regs : List LgwReg
radio_fe_regs = at_base radio_fe_base_addr (
    reg 0 0 1 0 1 0 1 0
    ∷ reg 0 0 0 0 1 0 1 0
    ∷ reg 0 1 5 0 1 0 1 0
    ∷ reg 0 1 4 0 1 0 1 0
    ∷ reg 0 1 0 0 4 0 1 0
    ∷ reg 0 2 0 0 8 0 1 0
    ∷ reg 0 3 0 0 8 0 1 0
    ∷ reg 0 4 0 0 8 1 1 0
    ∷ reg 0 5 0 0 8 1 1 0
    ∷ reg 0 6 0 0 4 1 1 0
    ∷ reg 0 7 0 0 5 0 1 0
    ∷ reg 0 8 0 0 5 0 1 0
    ∷ reg 0 9 0 0 6 0 1 0
    ∷ reg 0 10 0 0 6 0 1 0
    ∷ reg 0 11 0 0 6 0 1 0
    ∷ reg 0 12 0 0 6 0 1 0
    ∷ reg 0 13 0 0 6 1 1 0
    ∷ reg 0 14 5 0 1 0 1 0
    ∷ reg 0 14 4 0 1 0 1 0
    ∷ reg 0 14 0 0 4 0 1 0
    ∷ reg 0 15 0 0 8 0 1 0
    ∷ reg 0 16 0 0 8 0 1 0
    ∷ reg 0 17 0 0 8 1 1 0
    ∷ reg 0 18 0 0 8 1 1 0
    ∷ reg 0 19 0 0 4 1 1 0
    ∷ reg 0 20 0 0 5 0 1 0
    ∷ reg 0 21 0 0 5 0 1 0
    ∷ reg 0 22 0 0 6 0 1 0
    ∷ reg 0 23 0 0 6 0 1 0
    ∷ reg 0 24 0 0 6 0 1 0
    ∷ reg 0 25 0 0 6 0 1 0
    ∷ reg 0 26 0 0 6 1 1 0
    ∷ reg 0 27 7 0 1 1 1 0
    ∷ reg 0 27 6 0 1 1 1 0
    ∷ reg 0 27 4 0 2 0 1 0
    ∷ reg 0 27 3 0 1 0 1 0
    ∷ reg 0 27 2 0 1 0 1 0
    ∷ reg 0 27 1 0 1 0 1 0
    ∷ reg 0 27 0 0 1 0 1 0
    ∷ reg 0 28 0 0 8 0 1 0
    ∷ reg 0 29 0 0 8 1 1 0
    ∷ reg 0 30 0 0 8 1 1 0
    ∷ reg 0 31 0 0 1 1 1 0
    ∷ [])

unfoldable pub otp_regs : List LgwReg
otp_regs = at_base otp_base_addr (
    reg 0 0 0 0 8 0 1 0
    ∷ reg 0 1 0 0 8 1 1 0
    ∷ reg 0 2 4 0 4 1 1 0
    ∷ reg 0 2 0 0 1 1 1 0
    ∷ reg 0 3 0 0 2 0 1 0
    ∷ reg 0 4 0 0 3 0 1 0
    ∷ reg 0 5 4 0 4 0 1 0
    ∷ reg 0 5 3 0 1 0 1 0
    ∷ reg 0 5 2 0 1 0 1 0
    ∷ reg 0 5 1 0 1 0 1 0
    ∷ reg 0 5 0 0 1 0 1 0
    ∷ reg 0 6 2 0 1 0 1 0
    ∷ reg 0 6 1 0 1 0 1 0
    ∷ reg 0 6 0 0 1 0 1 0
    ∷ reg 0 7 0 0 1 1 1 0
    ∷ reg 0 8 0 0 8 0 1 255
    ∷ reg 0 9 0 0 8 0 1 255
    ∷ reg 0 10 0 0 8 0 1 255
    ∷ reg 0 11 0 0 1 0 1 1
    ∷ reg 0 12 0 0 1 1 1 0
    ∷ [])

unfoldable pub capture_ram_regs : List LgwReg
capture_ram_regs = at_base capture_ram_base_addr (
    reg 0 0 4 0 1 0 1 0
    ∷ reg 0 0 3 0 1 0 1 0
    ∷ reg 0 0 2 0 1 0 1 0
    ∷ reg 0 0 1 0 1 0 1 0
    ∷ reg 0 0 0 0 1 0 1 0
    ∷ reg 0 1 0 0 5 0 1 0
    ∷ reg 0 2 0 0 5 0 1 0
    ∷ reg 0 3 0 0 8 0 1 0
    ∷ reg 0 4 0 0 8 0 1 0
    ∷ reg 0 5 0 0 1 1 1 0
    ∷ reg 0 6 0 0 8 1 1 0
    ∷ reg 0 7 0 0 4 1 1 0
    ∷ reg 0 8 0 0 2 0 1 2
    ∷ reg 0 9 0 0 1 1 1 0
    ∷ [])
