-- ===== src/Reg/Table/Tx.antt =====
-- libloragw/src/loragw_reg.c: entries of `loregs`, the registers of the two transmission chains.
use meshbeacon_uplink.Prelude.{List, [], ◌∷◌}
use meshbeacon_uplink.Reg.Table.Entry.{LgwReg, reg, at_base, tx_top_a_base_addr, tx_top_b_base_addr}

unfoldable pub tx_top_a_regs : List LgwReg
tx_top_a_regs = at_base tx_top_a_base_addr (
    reg 0 0 3 0 1 0 0 0
    ∷ reg 0 0 2 0 1 0 1 0
    ∷ reg 0 0 1 0 1 0 1 0
    ∷ reg 0 0 0 0 1 0 1 0
    ∷ reg 0 1 0 0 8 0 1 0
    ∷ reg 0 2 0 0 8 0 1 0
    ∷ reg 0 3 0 0 8 0 1 0
    ∷ reg 0 4 0 0 8 0 1 0
    ∷ reg 0 5 0 0 8 0 1 187
    ∷ reg 0 6 0 0 8 0 1 128
    ∷ reg 0 7 0 0 1 0 1 0
    ∷ reg 0 8 0 0 3 0 1 1
    ∷ reg 0 9 0 0 1 0 1 0
    ∷ reg 0 10 1 0 1 0 1 0
    ∷ reg 0 10 0 0 1 0 1 0
    ∷ reg 0 11 1 0 1 0 0 0
    ∷ reg 0 11 0 0 1 0 0 0
    ∷ reg 0 12 0 0 8 0 1 0
    ∷ reg 0 13 0 0 8 0 1 0
    ∷ reg 0 14 0 0 8 0 1 0
    ∷ reg 0 15 0 0 8 0 1 0
    ∷ reg 0 16 0 0 8 0 1 0
    ∷ reg 0 17 0 0 8 1 1 0
    ∷ reg 0 18 3 0 1 1 1 0
    ∷ reg 0 32 5 0 3 0 1 0
    ∷ reg 0 32 4 0 1 0 1 1
    ∷ reg 0 32 3 0 1 0 1 1
    ∷ reg 0 32 2 0 1 0 1 0
    ∷ reg 0 32 0 0 2 0 1 0
    ∷ reg 0 33 1 0 1 0 1 0
    ∷ reg 0 33 0 0 1 0 1 0
    ∷ reg 0 34 0 0 2 0 1 0
    ∷ reg 0 35 0 0 8 0 1 0
    ∷ reg 0 36 0 0 8 0 1 0
    ∷ reg 0 37 0 0 8 0 1 108
    ∷ reg 0 38 0 0 8 0 1 144
    ∷ reg 0 39 0 0 8 0 1 0
    ∷ reg 0 40 0 0 4 0 1 0
    ∷ reg 0 41 0 0 8 0 1 0
    ∷ reg 0 42 0 0 8 0 1 64
    ∷ reg 0 43 3 0 1 1 1 0
    ∷ reg 0 64 0 0 8 0 1 15
    ∷ reg 0 65 5 0 1 0 1 0
    ∷ reg 0 65 4 0 1 0 1 0
    ∷ reg 0 65 2 0 2 0 1 0
    ∷ reg 0 65 1 0 1 0 1 1
    ∷ reg 0 65 0 0 1 0 1 0
    ∷ reg 0 66 0 0 8 0 1 0
    ∷ reg 0 67 0 0 8 0 1 20
    ∷ reg 0 68 0 0 8 0 1 26
    ∷ reg 0 69 0 0 8 0 1 11
    ∷ reg 0 70 5 0 3 0 1 3
    ∷ reg 0 70 4 0 1 0 1 0
    ∷ reg 0 70 3 0 1 0 1 1
    ∷ reg 0 70 1 0 2 0 1 0
    ∷ reg 0 70 0 0 1 0 1 0
    ∷ reg 0 71 0 0 8 0 1 151
    ∷ reg 0 72 0 0 8 0 1 35
    ∷ reg 0 73 0 0 8 0 1 82
    ∷ reg 0 74 0 0 8 0 1 37
    ∷ reg 0 75 0 0 8 0 1 86
    ∷ reg 0 76 0 0 8 0 1 83
    ∷ reg 0 77 0 0 8 0 1 101
    ∷ reg 0 78 0 0 8 0 1 100
    ∷ reg 0 79 3 0 1 1 1 0
    ∷ reg 0 96 4 0 4 0 1 5
    ∷ reg 0 96 0 0 4 0 1 7
    ∷ reg 0 97 6 0 2 0 1 2
    ∷ reg 0 97 4 0 2 0 1 0
    ∷ reg 0 97 3 0 1 0 1 0
    ∷ reg 0 97 0 0 3 0 1 2
    ∷ reg 0 98 7 0 1 0 1 0
    ∷ reg 0 98 6 0 1 0 1 0
    ∷ reg 0 98 4 0 2 0 1 2
    ∷ reg 0 98 1 0 1 0 1 0
    ∷ reg 0 98 0 0 1 0 1 1
    ∷ reg 0 99 0 0 8 0 1 12
    ∷ reg 0 100 7 0 1 0 1 0
    ∷ reg 0 100 0 0 6 0 1 0
    ∷ reg 0 101 7 0 1 0 1 0
    ∷ reg 0 101 6 0 1 0 1 0
    ∷ reg 0 101 0 0 6 0 1 0
    ∷ reg 0 102 0 0 8 0 1 8
    ∷ reg 0 103 0 0 8 0 1 0
    ∷ reg 0 104 6 0 1 0 1 1
    ∷ reg 0 104 5 0 1 0 1 0
    ∷ reg 0 104 4 0 1 0 1 0
    ∷ reg 0 105 4 0 3 0 1 0
    ∷ reg 0 105 3 0 1 0 1 0
    ∷ reg 0 105 2 0 1 0 1 1
    ∷ reg 0 105 1 0 1 0 1 1
    ∷ reg 0 105 0 0 1 0 1 0
    ∷ reg 0 106 0 0 6 0 1 20
    ∷ reg 0 107 0 0 8 0 1 0
    ∷ reg 0 108 5 0 2 0 1 0
    ∷ reg 0 108 0 0 5 0 1 10
    ∷ reg 0 109 7 0 1 0 1 1
    ∷ reg 0 109 6 0 1 0 1 0
    ∷ reg 0 109 5 0 1 0 1 1
    ∷ reg 0 109 0 1 5 0 1 2
    ∷ reg 0 110 7 0 1 0 1 0
    ∷ reg 0 110 5 0 2 0 1 3
    ∷ reg 0 110 0 1 5 0 1 4
    ∷ reg 0 111 0 0 4 1 1 0
    ∷ reg 0 112 2 0 1 0 0 0
    ∷ reg 0 112 1 0 1 0 0 0
    ∷ reg 0 112 0 0 1 0 0 0
    ∷ reg 0 113 3 0 1 1 1 0
    ∷ [])

unfoldable pub tx_top_b_regs : List LgwReg
tx_top_b_regs = at_base tx_top_b_base_addr (
    reg 0 0 3 0 1 0 0 0
    ∷ reg 0 0 2 0 1 0 1 0
    ∷ reg 0 0 1 0 1 0 1 0
    ∷ reg 0 0 0 0 1 0 1 0
    ∷ reg 0 1 0 0 8 0 1 0
    ∷ reg 0 2 0 0 8 0 1 0
    ∷ reg 0 3 0 0 8 0 1 0
    ∷ reg 0 4 0 0 8 0 1 0
    ∷ reg 0 5 0 0 8 0 1 187
    ∷ reg 0 6 0 0 8 0 1 128
    ∷ reg 0 7 0 0 1 0 1 0
    ∷ reg 0 8 0 0 3 0 1 1
    ∷ reg 0 9 0 0 1 0 1 0
    ∷ reg 0 10 1 0 1 0 1 0
    ∷ reg 0 10 0 0 1 0 1 0
    ∷ reg 0 11 1 0 1 0 0 0
    ∷ reg 0 11 0 0 1 0 0 0
    ∷ reg 0 12 0 0 8 0 1 0
    ∷ reg 0 13 0 0 8 0 1 0
    ∷ reg 0 14 0 0 8 0 1 0
    ∷ reg 0 15 0 0 8 0 1 0
    ∷ reg 0 16 0 0 8 0 1 0
    ∷ reg 0 17 0 0 8 1 1 0
    ∷ reg 0 18 3 0 1 1 1 0
    ∷ reg 0 32 5 0 3 0 1 0
    ∷ reg 0 32 4 0 1 0 1 1
    ∷ reg 0 32 3 0 1 0 1 1
    ∷ reg 0 32 2 0 1 0 1 0
    ∷ reg 0 32 0 0 2 0 1 0
    ∷ reg 0 33 1 0 1 0 1 0
    ∷ reg 0 33 0 0 1 0 1 0
    ∷ reg 0 34 0 0 2 0 1 0
    ∷ reg 0 35 0 0 8 0 1 0
    ∷ reg 0 36 0 0 8 0 1 0
    ∷ reg 0 37 0 0 8 0 1 108
    ∷ reg 0 38 0 0 8 0 1 144
    ∷ reg 0 39 0 0 8 0 1 0
    ∷ reg 0 40 0 0 4 0 1 0
    ∷ reg 0 41 0 0 8 0 1 0
    ∷ reg 0 42 0 0 8 0 1 64
    ∷ reg 0 43 3 0 1 1 1 0
    ∷ reg 0 64 0 0 8 0 1 15
    ∷ reg 0 65 5 0 1 0 1 0
    ∷ reg 0 65 4 0 1 0 1 0
    ∷ reg 0 65 2 0 2 0 1 0
    ∷ reg 0 65 1 0 1 0 1 1
    ∷ reg 0 65 0 0 1 0 1 0
    ∷ reg 0 66 0 0 8 0 1 0
    ∷ reg 0 67 0 0 8 0 1 20
    ∷ reg 0 68 0 0 8 0 1 26
    ∷ reg 0 69 0 0 8 0 1 11
    ∷ reg 0 70 5 0 3 0 1 3
    ∷ reg 0 70 4 0 1 0 1 0
    ∷ reg 0 70 3 0 1 0 1 1
    ∷ reg 0 70 1 0 2 0 1 0
    ∷ reg 0 70 0 0 1 0 1 0
    ∷ reg 0 71 0 0 8 0 1 151
    ∷ reg 0 72 0 0 8 0 1 35
    ∷ reg 0 73 0 0 8 0 1 82
    ∷ reg 0 74 0 0 8 0 1 37
    ∷ reg 0 75 0 0 8 0 1 86
    ∷ reg 0 76 0 0 8 0 1 83
    ∷ reg 0 77 0 0 8 0 1 101
    ∷ reg 0 78 0 0 8 0 1 100
    ∷ reg 0 79 3 0 1 1 1 0
    ∷ reg 0 96 4 0 4 0 1 5
    ∷ reg 0 96 0 0 4 0 1 7
    ∷ reg 0 97 6 0 2 0 1 2
    ∷ reg 0 97 4 0 2 0 1 0
    ∷ reg 0 97 3 0 1 0 1 0
    ∷ reg 0 97 0 0 3 0 1 2
    ∷ reg 0 98 7 0 1 0 1 0
    ∷ reg 0 98 6 0 1 0 1 0
    ∷ reg 0 98 4 0 2 0 1 2
    ∷ reg 0 98 1 0 1 0 1 0
    ∷ reg 0 98 0 0 1 0 1 1
    ∷ reg 0 99 0 0 8 0 1 12
    ∷ reg 0 100 7 0 1 0 1 0
    ∷ reg 0 100 0 0 6 0 1 0
    ∷ reg 0 101 7 0 1 0 1 0
    ∷ reg 0 101 6 0 1 0 1 0
    ∷ reg 0 101 0 0 6 0 1 0
    ∷ reg 0 102 0 0 8 0 1 8
    ∷ reg 0 103 0 0 8 0 1 0
    ∷ reg 0 104 6 0 1 0 1 1
    ∷ reg 0 104 5 0 1 0 1 0
    ∷ reg 0 104 4 0 1 0 1 0
    ∷ reg 0 105 4 0 3 0 1 0
    ∷ reg 0 105 3 0 1 0 1 0
    ∷ reg 0 105 2 0 1 0 1 1
    ∷ reg 0 105 1 0 1 0 1 1
    ∷ reg 0 105 0 0 1 0 1 0
    ∷ reg 0 106 0 0 6 0 1 20
    ∷ reg 0 107 0 0 8 0 1 0
    ∷ reg 0 108 5 0 2 0 1 0
    ∷ reg 0 108 0 0 5 0 1 10
    ∷ reg 0 109 7 0 1 0 1 1
    ∷ reg 0 109 6 0 1 0 1 0
    ∷ reg 0 109 5 0 1 0 1 1
    ∷ reg 0 109 0 1 5 0 1 2
    ∷ reg 0 110 7 0 1 0 1 0
    ∷ reg 0 110 5 0 2 0 1 3
    ∷ reg 0 110 0 1 5 0 1 4
    ∷ reg 0 111 0 0 4 1 1 0
    ∷ reg 0 112 2 0 1 0 0 0
    ∷ reg 0 112 1 0 1 0 0 0
    ∷ reg 0 112 0 0 1 0 0 0
    ∷ reg 0 113 3 0 1 1 1 0
    ∷ [])
