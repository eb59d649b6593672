-- ===== src/Reg/Table/Service.antt =====
-- libloragw/src/loragw_reg.c: entries of `loregs`, the registers of the single-SF LoRa and the FSK modem.
use meshbeacon_uplink.Prelude.{List, [], ◌∷◌}
use meshbeacon_uplink.Reg.Table.Entry.{
  LgwReg, reg, reg_below_zero, at_base, rx_top_lora_service_fsk_base_addr,
}

unfoldable pub service_front_regs : List LgwReg
service_front_regs = at_base rx_top_lora_service_fsk_base_addr (
    reg 0 0 0 0 5 0 1 0
    ∷ reg 0 1 0 0 8 0 1 128
    ∷ reg 0 2 0 0 1 0 1 0
    ∷ reg 0 3 4 0 3 0 1 0
    ∷ reg 0 3 3 0 1 0 1 1
    ∷ reg 0 3 2 0 1 0 1 0
    ∷ reg 0 3 1 0 1 0 1 0
    ∷ reg 0 3 0 0 1 0 1 0
    ∷ reg 0 4 3 0 3 0 1 1
    ∷ reg 0 4 0 0 3 0 1 5
    ∷ reg 0 5 0 0 3 0 1 0
    ∷ reg 0 6 0 0 8 0 1 0
    ∷ reg 0 7 0 1 8 0 1 2
    ∷ reg 0 8 0 1 8 0 1 3
    ∷ reg 0 9 0 1 8 0 1 2
    ∷ reg 0 10 0 1 8 0 1 3
    ∷ reg 0 11 0 1 8 0 1 5
    ∷ reg 0 12 0 1 8 0 1 8
    ∷ reg 0 13 0 1 8 0 1 6
    ∷ reg 0 14 0 1 8 0 1 4
    ∷ reg 0 15 0 1 8 0 1 2
    ∷ reg_below_zero 0 16 0 1 8 0 1 2
    ∷ reg_below_zero 0 17 0 1 8 0 1 4
    ∷ reg_below_zero 0 18 0 1 8 0 1 3
    ∷ reg 0 19 0 1 8 0 1 3
    ∷ reg 0 20 0 1 8 0 1 11
    ∷ reg 0 21 0 1 8 0 1 19
    ∷ reg 0 22 0 1 8 0 1 10
    ∷ reg 0 23 7 0 1 0 1 0
    ∷ reg 0 23 0 0 7 0 1 0
    ∷ reg 0 24 4 0 1 0 1 0
    ∷ reg 0 24 3 0 1 0 1 0
    ∷ reg 0 24 2 0 1 0 1 1
    ∷ reg 0 24 0 0 2 0 1 3
    ∷ reg 0 25 6 0 1 0 1 0
    ∷ reg 0 25 5 0 1 0 1 1
    ∷ reg 0 25 3 0 2 0 1 1
    ∷ reg 0 25 0 0 3 0 1 2
    ∷ reg 0 26 7 0 1 0 1 0
    ∷ reg 0 26 6 0 1 0 1 0
    ∷ reg 0 26 4 0 2 0 1 3
    ∷ reg 0 26 0 0 3 0 1 1
    ∷ reg 0 27 6 0 2 0 1 0
    ∷ reg 0 27 5 0 1 0 1 0
    ∷ reg 0 27 4 0 1 0 1 0
    ∷ reg 0 27 3 0 1 0 1 1
    ∷ reg 0 27 2 0 1 0 1 0
    ∷ reg 0 27 0 0 2 0 1 3
    ∷ reg 0 28 0 0 8 0 1 60
    ∷ reg 0 29 0 0 8 0 1 6
    ∷ reg 0 30 0 0 8 0 1 25
    ∷ reg 0 31 0 0 8 0 1 42
    ∷ reg 0 32 4 0 4 0 1 8
    ∷ reg 0 32 0 0 1 0 1 0
    ∷ reg 0 33 4 0 4 0 1 4
    ∷ reg 0 33 0 0 4 0 1 7
    ∷ reg 0 34 6 0 2 0 1 2
    ∷ reg 0 34 4 0 2 0 1 0
    ∷ reg 0 34 3 0 1 0 1 0
    ∷ reg 0 34 0 0 3 0 1 2
    ∷ reg 0 35 5 0 1 0 1 0
    ∷ reg 0 35 4 0 1 0 1 0
    ∷ reg 0 35 2 0 2 0 1 1
    ∷ reg 0 35 1 0 1 0 1 0
    ∷ reg 0 35 0 0 1 0 1 1
    ∷ reg 0 36 0 0 8 0 1 12
    ∷ reg 0 37 7 0 1 0 1 0
    ∷ reg 0 37 0 0 6 0 1 0
    ∷ reg 0 38 6 0 1 0 1 0
    ∷ reg 0 38 0 0 6 0 1 0
    ∷ reg 0 39 0 0 8 0 1 8
    ∷ reg 0 40 0 0 8 0 1 0
    ∷ reg 0 41 3 0 1 0 1 1
    ∷ reg 0 41 2 0 1 0 1 0
    ∷ reg 0 41 1 0 1 0 1 0
    ∷ reg 0 41 0 0 1 0 1 0
    ∷ reg 0 42 4 0 2 0 1 3
    ∷ reg 0 42 2 0 1 0 1 1
    ∷ reg 0 42 1 0 1 0 1 0
    ∷ reg 0 42 0 0 1 0 1 0
    ∷ reg 0 43 0 0 8 0 1 0
    ∷ reg 0 44 5 0 2 0 1 2
    ∷ reg 0 44 0 0 5 0 1 22
    ∷ reg 0 45 5 0 1 0 1 1
    ∷ reg 0 45 4 0 1 0 1 1
    ∷ reg 0 45 0 0 4 0 1 11
    ∷ reg 0 46 0 1 5 0 1 2
    ∷ reg 0 47 0 1 5 0 1 4
    ∷ reg 0 48 5 0 1 0 1 0
    ∷ reg 0 48 4 0 1 0 1 1
    ∷ reg 0 48 3 0 1 0 1 0
    ∷ reg 0 48 2 0 1 0 1 1
    ∷ reg 0 48 0 0 2 0 1 3
    ∷ [])

unfoldable pub service_modem_regs : List LgwReg
service_modem_regs = at_base rx_top_lora_service_fsk_base_addr (
    reg 0 49 7 0 1 0 1 1
    ∷ reg 0 49 6 0 1 0 1 0
    ∷ reg 0 49 4 0 2 0 1 0
    ∷ reg 0 49 2 0 2 0 1 0
    ∷ reg 0 49 0 0 2 0 1 3
    ∷ reg 0 50 6 0 2 0 1 2
    ∷ reg 0 50 3 0 3 0 1 2
    ∷ reg 0 50 0 0 3 0 1 4
    ∷ reg 0 51 6 0 2 0 1 0
    ∷ reg 0 51 3 0 3 0 1 1
    ∷ reg 0 51 0 0 3 0 1 4
    ∷ reg 0 52 7 0 1 0 1 0
    ∷ reg 0 52 4 0 3 0 1 5
    ∷ reg 0 52 0 0 2 0 1 3
    ∷ reg 0 53 4 0 3 0 1 0
    ∷ reg 0 53 0 0 3 0 1 0
    ∷ reg 0 54 0 0 4 0 1 9
    ∷ reg 0 55 0 0 8 0 1 112
    ∷ reg 0 56 0 0 3 0 1 3
    ∷ reg 0 57 5 0 1 0 1 0
    ∷ reg 0 57 4 0 1 0 1 0
    ∷ reg 0 57 3 0 1 0 1 1
    ∷ reg 0 57 2 0 1 0 1 0
    ∷ reg 0 57 1 0 1 0 1 0
    ∷ reg 0 57 0 0 1 0 1 1
    ∷ reg 0 58 0 0 8 0 1 33
    ∷ reg 0 59 7 0 1 0 1 0
    ∷ reg 0 59 4 0 3 0 1 4
    ∷ reg 0 59 0 0 2 0 1 3
    ∷ reg 0 60 4 0 3 0 1 5
    ∷ reg 0 60 0 0 4 0 1 3
    ∷ reg 0 61 5 0 2 0 1 1
    ∷ reg 0 61 4 0 1 0 1 0
    ∷ reg 0 61 0 0 4 0 1 8
    ∷ reg 0 62 0 0 7 0 1 24
    ∷ reg 0 63 0 0 7 0 1 48
    ∷ reg 0 64 4 0 3 0 1 7
    ∷ reg 0 64 0 0 3 0 1 7
    ∷ reg 0 65 7 0 1 0 1 0
    ∷ reg 0 65 4 0 2 0 1 2
    ∷ reg 0 65 2 0 1 0 1 1
    ∷ reg 0 65 0 0 2 0 1 1
    ∷ reg 0 66 7 0 1 0 1 0
    ∷ reg 0 66 0 0 7 0 1 55
    ∷ reg 0 67 6 0 2 0 1 2
    ∷ reg 0 67 4 0 2 0 1 2
    ∷ reg 0 67 3 0 1 0 1 1
    ∷ reg 0 67 2 0 1 0 1 1
    ∷ reg 0 67 1 0 1 0 1 1
    ∷ reg 0 67 0 0 1 0 1 1
    ∷ reg 0 68 0 0 8 0 1 11
    ∷ reg 0 69 4 0 1 0 1 0
    ∷ reg 0 69 3 0 1 0 1 0
    ∷ reg 0 69 0 0 3 0 1 7
    ∷ reg 0 70 6 0 2 0 1 1
    ∷ reg 0 70 4 0 2 0 1 1
    ∷ reg 0 70 2 0 2 0 1 1
    ∷ reg 0 70 0 0 2 0 1 1
    ∷ reg 0 71 0 0 1 1 1 0
    ∷ reg 0 80 0 0 5 0 1 0
    ∷ reg 0 81 0 0 8 0 1 128
    ∷ reg 0 82 4 0 1 0 1 0
    ∷ reg 0 82 2 0 2 0 1 0
    ∷ reg 0 82 1 0 1 0 1 0
    ∷ reg 0 82 0 0 1 0 1 0
    ∷ reg 0 83 6 0 2 0 1 0
    ∷ reg 0 83 3 0 3 0 1 0
    ∷ reg 0 83 0 0 3 0 1 0
    ∷ reg 0 84 3 0 1 0 1 0
    ∷ reg 0 84 2 0 1 0 1 1
    ∷ reg 0 84 1 0 1 0 1 0
    ∷ reg 0 84 0 0 1 0 1 0
    ∷ reg 0 85 5 0 3 0 1 4
    ∷ reg 0 85 0 0 5 0 1 0
    ∷ reg 0 86 0 0 8 0 1 0
    ∷ reg 0 87 0 0 8 0 1 0
    ∷ reg 0 88 0 0 8 0 1 0
    ∷ reg 0 89 0 0 2 0 1 0
    ∷ reg 0 90 0 0 8 0 1 0
    ∷ reg 0 91 0 0 8 0 1 0
    ∷ reg 0 92 0 0 8 0 1 0
    ∷ reg 0 93 0 0 8 0 1 0
    ∷ reg 0 94 0 0 8 0 1 0
    ∷ reg 0 95 0 0 8 0 1 0
    ∷ reg 0 96 0 0 8 0 1 0
    ∷ reg 0 97 0 0 8 0 1 0
    ∷ reg 0 98 0 0 8 0 1 0
    ∷ reg 0 99 0 0 8 0 1 0
    ∷ reg 0 100 0 0 8 0 1 0
    ∷ reg 0 101 0 0 4 0 1 4
    ∷ reg 0 102 0 0 1 1 1 0
    ∷ [])
