-- ===== src/Reg/Table/Rx.antt =====
-- libloragw/src/loragw_reg.c: entries of `loregs`, the registers of the channels and correlators.
use meshbeacon_uplink.Prelude.{List, [], ◌∷◌}
use meshbeacon_uplink.Reg.Table.Entry.{LgwReg, reg, at_base, rx_top_base_addr}

unfoldable pub rx_channel_regs : List LgwReg
rx_channel_regs = at_base rx_top_base_addr (
    reg 0 0 0 0 5 0 1 0
    ∷ reg 0 1 0 0 8 0 1 128
    ∷ reg 0 2 0 0 5 0 1 1
    ∷ reg 0 3 0 0 8 0 1 128
    ∷ reg 0 4 0 0 5 0 1 30
    ∷ reg 0 5 0 0 8 0 1 128
    ∷ reg 0 6 0 0 5 0 1 0
    ∷ reg 0 7 0 0 8 0 1 128
    ∷ reg 0 8 0 0 5 0 1 0
    ∷ reg 0 9 0 0 8 0 1 50
    ∷ reg 0 10 0 0 5 0 1 0
    ∷ reg 0 11 0 0 8 0 1 60
    ∷ reg 0 12 0 0 5 0 1 0
    ∷ reg 0 13 0 0 8 0 1 70
    ∷ reg 0 14 0 0 5 0 1 0
    ∷ reg 0 15 0 0 8 0 1 80
    ∷ reg 0 16 0 0 8 0 1 0
    ∷ reg 0 17 3 0 5 0 1 7
    ∷ reg 0 17 0 0 3 0 1 0
    ∷ reg 0 18 0 0 8 0 1 0
    ∷ reg 0 19 0 0 8 0 1 0
    ∷ reg 0 20 0 0 8 0 1 0
    ∷ reg 0 21 4 0 4 0 1 15
    ∷ reg 0 21 0 0 4 0 1 0
    ∷ reg 0 22 0 0 4 0 1 0
    ∷ reg 0 23 0 0 2 0 1 0
    ∷ reg 0 24 0 0 8 1 1 0
    ∷ reg 0 25 4 0 1 0 1 0
    ∷ reg 0 25 0 0 4 0 1 0
    ∷ reg 0 26 0 0 1 0 1 1
    ∷ reg 0 27 0 0 1 1 1 0
    ∷ reg 0 32 0 0 8 0 1 255
    ∷ reg 0 33 0 0 8 0 1 0
    ∷ reg 0 34 0 0 8 0 1 255
    ∷ reg 0 35 0 0 8 0 1 255
    ∷ reg 0 36 0 0 8 0 1 255
    ∷ [])

unfoldable pub rx_correlator_regs : List LgwReg
rx_correlator_regs = at_base rx_top_base_addr (
    reg 0 37 6 0 2 0 1 2
    ∷ reg 0 37 5 0 1 0 1 1
    ∷ reg 0 37 4 0 1 0 1 1
    ∷ reg 0 37 2 0 2 0 1 2
    ∷ reg 0 37 1 0 1 0 1 1
    ∷ reg 0 37 0 0 1 0 1 1
    ∷ reg 0 38 7 0 1 0 1 0
    ∷ reg 0 38 0 0 7 0 1 55
    ∷ reg 0 39 0 0 8 0 1 11
    ∷ reg 0 40 0 0 7 0 1 32
    ∷ reg 0 41 0 0 7 0 1 48
    ∷ reg 0 42 3 0 3 0 1 5
    ∷ reg 0 42 1 0 2 0 1 1
    ∷ reg 0 42 0 0 1 0 1 1
    ∷ reg 0 43 2 0 3 0 1 5
    ∷ reg 0 43 0 0 2 0 1 2
    ∷ reg 0 44 6 0 2 0 1 2
    ∷ reg 0 44 5 0 1 0 1 1
    ∷ reg 0 44 4 0 1 0 1 1
    ∷ reg 0 44 2 0 2 0 1 2
    ∷ reg 0 44 1 0 1 0 1 1
    ∷ reg 0 44 0 0 1 0 1 1
    ∷ reg 0 45 7 0 1 0 1 0
    ∷ reg 0 45 0 0 7 0 1 55
    ∷ reg 0 46 0 0 8 0 1 11
    ∷ reg 0 47 0 0 7 0 1 32
    ∷ reg 0 48 0 0 7 0 1 48
    ∷ reg 0 49 3 0 3 0 1 4
    ∷ reg 0 49 1 0 2 0 1 1
    ∷ reg 0 49 0 0 1 0 1 1
    ∷ reg 0 50 2 0 3 0 1 5
    ∷ reg 0 50 0 0 2 0 1 2
    ∷ reg 0 51 6 0 2 0 1 2
    ∷ reg 0 51 5 0 1 0 1 1
    ∷ reg 0 51 4 0 1 0 1 1
    ∷ reg 0 51 2 0 2 0 1 2
    ∷ reg 0 51 1 0 1 0 1 1
    ∷ reg 0 51 0 0 1 0 1 1
    ∷ reg 0 52 7 0 1 0 1 0
    ∷ reg 0 52 0 0 7 0 1 55
    ∷ reg 0 53 0 0 8 0 1 11
    ∷ reg 0 54 0 0 7 0 1 32
    ∷ reg 0 55 0 0 7 0 1 48
    ∷ reg 0 56 3 0 3 0 1 3
    ∷ reg 0 56 1 0 2 0 1 1
    ∷ reg 0 56 0 0 1 0 1 1
    ∷ reg 0 57 2 0 3 0 1 5
    ∷ reg 0 57 0 0 2 0 1 2
    ∷ reg 0 58 6 0 2 0 1 2
    ∷ reg 0 58 5 0 1 0 1 1
    ∷ reg 0 58 4 0 1 0 1 1
    ∷ reg 0 58 2 0 2 0 1 2
    ∷ reg 0 58 1 0 1 0 1 1
    ∷ reg 0 58 0 0 1 0 1 1
    ∷ reg 0 59 7 0 1 0 1 0
    ∷ reg 0 59 0 0 7 0 1 56
    ∷ reg 0 60 0 0 8 0 1 11
    ∷ reg 0 61 0 0 7 0 1 32
    ∷ reg 0 62 0 0 7 0 1 48
    ∷ reg 0 63 3 0 3 0 1 3
    ∷ reg 0 63 1 0 2 0 1 1
    ∷ reg 0 63 0 0 1 0 1 1
    ∷ reg 0 64 2 0 3 0 1 5
    ∷ reg 0 64 0 0 2 0 1 2
    ∷ reg 0 65 6 0 2 0 1 2
    ∷ reg 0 65 5 0 1 0 1 1
    ∷ reg 0 65 4 0 1 0 1 1
    ∷ reg 0 65 2 0 2 0 1 2
    ∷ reg 0 65 1 0 1 0 1 1
    ∷ reg 0 65 0 0 1 0 1 1
    ∷ reg 0 66 7 0 1 0 1 0
    ∷ reg 0 66 0 0 7 0 1 58
    ∷ reg 0 67 0 0 8 0 1 11
    ∷ reg 0 68 0 0 7 0 1 32
    ∷ reg 0 69 0 0 7 0 1 48
    ∷ reg 0 70 3 0 3 0 1 3
    ∷ reg 0 70 1 0 2 0 1 1
    ∷ reg 0 70 0 0 1 0 1 1
    ∷ reg 0 71 2 0 3 0 1 5
    ∷ reg 0 71 0 0 2 0 1 2
    ∷ reg 0 72 6 0 2 0 1 2
    ∷ reg 0 72 5 0 1 0 1 1
    ∷ reg 0 72 4 0 1 0 1 1
    ∷ reg 0 72 2 0 2 0 1 2
    ∷ reg 0 72 1 0 1 0 1 1
    ∷ reg 0 72 0 0 1 0 1 1
    ∷ reg 0 73 7 0 1 0 1 0
    ∷ reg 0 73 0 0 7 0 1 60
    ∷ reg 0 74 0 0 8 0 1 11
    ∷ reg 0 75 0 0 7 0 1 32
    ∷ reg 0 76 0 0 7 0 1 48
    ∷ reg 0 77 3 0 3 0 1 3
    ∷ reg 0 77 1 0 2 0 1 1
    ∷ reg 0 77 0 0 1 0 1 1
    ∷ reg 0 78 2 0 3 0 1 5
    ∷ reg 0 78 0 0 2 0 1 2
    ∷ reg 0 79 6 0 2 0 1 2
    ∷ reg 0 79 5 0 1 0 1 1
    ∷ reg 0 79 4 0 1 0 1 1
    ∷ reg 0 79 2 0 2 0 1 2
    ∷ reg 0 79 1 0 1 0 1 1
    ∷ reg 0 79 0 0 1 0 1 1
    ∷ reg 0 80 7 0 1 0 1 0
    ∷ reg 0 80 0 0 7 0 1 60
    ∷ reg 0 81 0 0 8 0 1 11
    ∷ reg 0 82 0 0 7 0 1 32
    ∷ reg 0 83 0 0 7 0 1 48
    ∷ reg 0 84 3 0 3 0 1 3
    ∷ reg 0 84 1 0 2 0 1 1
    ∷ reg 0 84 0 0 1 0 1 1
    ∷ reg 0 85 2 0 3 0 1 5
    ∷ reg 0 85 0 0 2 0 1 2
    ∷ reg 0 86 6 0 2 0 1 2
    ∷ reg 0 86 5 0 1 0 1 1
    ∷ reg 0 86 4 0 1 0 1 1
    ∷ reg 0 86 2 0 2 0 1 2
    ∷ reg 0 86 1 0 1 0 1 1
    ∷ reg 0 86 0 0 1 0 1 1
    ∷ reg 0 87 7 0 1 0 1 0
    ∷ reg 0 87 0 0 7 0 1 60
    ∷ reg 0 88 0 0 8 0 1 11
    ∷ reg 0 89 0 0 7 0 1 32
    ∷ reg 0 90 0 0 7 0 1 48
    ∷ reg 0 91 3 0 3 0 1 3
    ∷ reg 0 91 1 0 2 0 1 1
    ∷ reg 0 91 0 0 1 0 1 1
    ∷ reg 0 92 2 0 3 0 1 5
    ∷ reg 0 92 0 0 2 0 1 2
    ∷ [])
