-- ===== src/Reg/Table/Entry.antt =====
-- libloragw/src/loragw_reg.c: the form of the entries of `loregs`, and the addresses where the blocks of registers begin.
use meshbeacon_uplink.Prelude.{ℕ, ◌+◌, ◌-◌, ◌==◌, List, [], ◌∷◌}
use meshbeacon_uplink.Prelude.Int.{pos, negsuc}
pub use meshbeacon_uplink.Reg.Field.{LgwReg}

abbrev pub common_base_addr : ℕ
common_base_addr = 0x5600

abbrev pub agc_mcu_base_addr : ℕ
agc_mcu_base_addr = 0x5780

abbrev pub clk_ctrl_base_addr : ℕ
clk_ctrl_base_addr = 0x57c0

abbrev pub tx_top_a_base_addr : ℕ
tx_top_a_base_addr = 0x5200

abbrev pub tx_top_b_base_addr : ℕ
tx_top_b_base_addr = 0x5400

abbrev pub gpio_base_addr : ℕ
gpio_base_addr = 0x5640

abbrev pub timestamp_base_addr : ℕ
timestamp_base_addr = 0x6100

abbrev pub arb_mcu_base_addr : ℕ
arb_mcu_base_addr = 0x6080

abbrev pub radio_fe_base_addr : ℕ
radio_fe_base_addr = 0x5700

abbrev pub otp_base_addr : ℕ
otp_base_addr = 0x6180

abbrev pub capture_ram_base_addr : ℕ
capture_ram_base_addr = 0x6000

abbrev pub rx_top_base_addr : ℕ
rx_top_base_addr = 0x5800

abbrev pub rx_top_lora_service_fsk_base_addr : ℕ
rx_top_lora_service_fsk_base_addr = 0x5b00

-- An entry, whose address is counted from the beginning of its block, in the order of the initialiser.
unfoldable pub reg : ℕ → ℕ → ℕ → ℕ → ℕ → ℕ → ℕ → ℕ → LgwReg
reg page addr offs sign leng rdon chck dflt = record {
  page = pos page;
  addr = addr;
  offs = offs;
  sign = sign == 1;
  leng = leng;
  rdon = rdon == 1;
  chck = chck == 1;
  dflt = pos dflt;
}

-- The same with a default value of `- dflt`.
unfoldable pub reg_below_zero : ℕ → ℕ → ℕ → ℕ → ℕ → ℕ → ℕ → ℕ → LgwReg
reg_below_zero page addr offs sign leng rdon chck dflt =
    record (reg page addr offs sign leng rdon chck 0) { dflt = negsuc (dflt - 1) }

unfoldable pub at_base : ℕ → List LgwReg → List LgwReg
at_base base [] = []
at_base base (r ∷ regs) = record r { addr = base + r.addr } ∷ at_base base regs
