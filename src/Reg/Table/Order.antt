-- ===== src/Reg/Table/Order.antt =====
-- libloragw/src/loragw_reg.c: the entries of `loregs` ascend in each block, and the blocks do not meet.
use meshbeacon_uplink.Prelude.{
  ℕ, ◌+◌, ◌-◌, ◌*◌, ◌^◌, ◌≡◌, refl, Bool, true, ◌&&◌, List, [], ◌∷◌, leb, ltb, length,
  if◌then◌else◌,
}
use meshbeacon_uplink.Prelude.Int.{ℤ, pos, negsuc}
use meshbeacon_uplink.Reg.Table.Entry.{LgwReg, reg, reg_below_zero, at_base}
use meshbeacon_uplink.Reg.Table.System.{
  common_regs, agc_mcu_regs, clk_ctrl_regs, gpio_regs, timestamp_regs,
}
use meshbeacon_uplink.Reg.Table.Chip.{arb_mcu_regs, radio_fe_regs, otp_regs, capture_ram_regs}
use meshbeacon_uplink.Reg.Table.Tx.{tx_top_a_regs, tx_top_b_regs}
use meshbeacon_uplink.Reg.Table.Rx.{rx_channel_regs, rx_correlator_regs}
use meshbeacon_uplink.Reg.Table.Demod.{rx_front_regs, rx_timing_regs, rx_modem_regs}
use meshbeacon_uplink.Reg.Table.Service.{service_front_regs, service_modem_regs}
use meshbeacon_uplink.Reg.Table.{Block, rx_top_regs, service_regs, reg_blocks, flat, lgw_totalregs}

-- Whether a value can be written to the register and read again.
unfoldable pub is_value : LgwReg → ℤ → Bool
is_value r (pos n) = ltb n (if r.sign then 2 ^ (r.leng - 1) else 2 ^ r.leng)
is_value r (negsuc n) = r.sign && ltb n (2 ^ (r.leng - 1))

-- The bits of the chip are counted from the highest of each byte on.
unfoldable pub first_bit : LgwReg → ℕ
first_bit r = 8 * r.addr + (8 - (r.offs + r.leng))

unfoldable pub end_bit : LgwReg → ℕ
end_bit r = 8 * r.addr + (8 - r.offs)

-- A register has a bit, lies within a byte, at an address of 15 bits, and its default value fits.
unfoldable pub is_sound : LgwReg → Bool
is_sound r = (leb 1 r.leng && leb (r.offs + r.leng) 8) && (ltb r.addr 0x8000 && is_value r r.dflt)

-- The registers follow each other between two bits.
unfoldable pub ascends : ℕ → ℕ → List LgwReg → Bool
ascends from below [] = leb from below
ascends from below (r ∷ rs) = (is_sound r && leb from (first_bit r)) && ascends (end_bit r) below rs

unfoldable pub all_ascend : List Block → Bool
all_ascend [] = true
all_ascend (b ∷ bs) = ascends (8 * b.from) (8 * b.below) b.regs && all_ascend bs

unfoldable pub is_apart : Block → List Block → Bool
is_apart b [] = true
is_apart b (c ∷ cs) = (if leb b.below c.from then true else leb c.below b.from) && is_apart b cs

unfoldable pub all_apart : List Block → Bool
all_apart [] = true
all_apart (b ∷ bs) = is_apart b bs && all_apart bs

pub reg_blocks-ascend : all_ascend reg_blocks ≡ true
unfolding all_ascend reg_blocks ascends is_sound is_value first_bit end_bit at_base reg
    reg_below_zero common_regs agc_mcu_regs clk_ctrl_regs tx_top_a_regs tx_top_b_regs gpio_regs
    timestamp_regs rx_channel_regs rx_correlator_regs rx_front_regs rx_timing_regs rx_modem_regs
    arb_mcu_regs radio_fe_regs otp_regs service_front_regs service_modem_regs capture_ram_regs
    rx_top_regs service_regs
reg_blocks-ascend = refl

pub reg_blocks-apart : all_apart reg_blocks ≡ true
unfolding all_apart is_apart reg_blocks
reg_blocks-apart = refl

pub loregs_length : length (flat reg_blocks) ≡ lgw_totalregs
unfolding reg_blocks flat at_base reg reg_below_zero common_regs agc_mcu_regs clk_ctrl_regs
    tx_top_a_regs tx_top_b_regs gpio_regs timestamp_regs rx_channel_regs rx_correlator_regs
    rx_front_regs rx_timing_regs rx_modem_regs arb_mcu_regs radio_fe_regs otp_regs
    service_front_regs service_modem_regs capture_ram_regs rx_top_regs service_regs
loregs_length = refl
