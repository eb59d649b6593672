-- ===== src/Reg/Table.antt =====
-- libloragw/src/loragw_reg.c: `loregs`, the table of the registers, put together from its blocks.
pub mod Entry
pub mod System
pub mod Chip
pub mod Tx
pub mod Rx
pub mod Demod
pub mod Service
pub mod Order
pub mod Apart
use meshbeacon_uplink.Prelude.{ℕ, List, [], ◌∷◌, ◌++◌, get_or}
use meshbeacon_uplink.Reg.Table.Entry.{LgwReg, reg}
use meshbeacon_uplink.Reg.Table.System.{
  common_regs, agc_mcu_regs, clk_ctrl_regs, gpio_regs, timestamp_regs,
}
use meshbeacon_uplink.Reg.Table.Chip.{arb_mcu_regs, radio_fe_regs, otp_regs, capture_ram_regs}
use meshbeacon_uplink.Reg.Table.Tx.{tx_top_a_regs, tx_top_b_regs}
use meshbeacon_uplink.Reg.Table.Rx.{rx_channel_regs, rx_correlator_regs}
use meshbeacon_uplink.Reg.Table.Demod.{rx_front_regs, rx_timing_regs, rx_modem_regs}
use meshbeacon_uplink.Reg.Table.Service.{service_front_regs, service_modem_regs}

abbrev pub lgw_totalregs : ℕ
lgw_totalregs = 1044

unfoldable pub rx_top_regs : List LgwReg
rx_top_regs =
    rx_channel_regs ++ (rx_correlator_regs ++ (rx_front_regs ++ (rx_timing_regs ++ rx_modem_regs)))

unfoldable pub service_regs : List LgwReg
service_regs = service_front_regs ++ service_modem_regs

-- Registers at addresses from `from` on, below `below`.
pub record Block : Type 0 where
  pub from : ℕ
  pub below : ℕ
  pub regs : List LgwReg

-- The order is that of the table.
unfoldable pub reg_blocks : List Block
reg_blocks =
    record { from = 0x5600; below = 0x5640; regs = common_regs }
    ∷ record { from = 0x5780; below = 0x57c0; regs = agc_mcu_regs }
    ∷ record { from = 0x57c0; below = 0x5800; regs = clk_ctrl_regs }
    ∷ record { from = 0x5200; below = 0x5400; regs = tx_top_a_regs }
    ∷ record { from = 0x5400; below = 0x5600; regs = tx_top_b_regs }
    ∷ record { from = 0x5640; below = 0x56c0; regs = gpio_regs }
    ∷ record { from = 0x6100; below = 0x6180; regs = timestamp_regs }
    ∷ record { from = 0x5800; below = 0x5b00; regs = rx_top_regs }
    ∷ record { from = 0x6080; below = 0x6100; regs = arb_mcu_regs }
    ∷ record { from = 0x5700; below = 0x5780; regs = radio_fe_regs }
    ∷ record { from = 0x6180; below = 0x6200; regs = otp_regs }
    ∷ record { from = 0x5b00; below = 0x6000; regs = service_regs }
    ∷ record { from = 0x6000; below = 0x6080; regs = capture_ram_regs }
    ∷ []

unfoldable pub flat : List Block → List LgwReg
flat [] = []
flat (b ∷ bs) = b.regs ++ flat bs

-- The last entry only ends the table.
unfoldable pub loregs : List LgwReg
loregs = flat reg_blocks ++ reg 0 0 0 0 0 0 0 0 ∷ []

-- `loregs[id]`
unfoldable pub reg_at : ℕ → LgwReg
reg_at id = get_or loregs id (reg 0 0 0 0 0 0 0 0)
