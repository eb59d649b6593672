-- ===== src/Reg/Table/Demod.antt =====
-- libloragw/src/loragw_reg.c: entries of `loregs`, the registers of the demodulators.
use meshbeacon_uplink.Prelude.{List, [], ◌∷◌}
use meshbeacon_uplink.Reg.Table.Entry.{LgwReg, reg, reg_below_zero, at_base, rx_top_base_addr}

unfoldable pub rx_front_regs : List LgwReg
rx_front_regs = at_base rx_top_base_addr (
    reg 0 93 0 0 1 1 1 0
    ∷ reg 0 96 4 0 3 0 1 0
    ∷ reg 0 96 3 0 1 0 1 1
    ∷ reg 0 96 2 0 1 0 1 0
    ∷ reg 0 96 1 0 1 0 1 0
    ∷ reg 0 96 0 0 1 0 1 0
    ∷ reg 0 97 3 0 3 0 1 1
    ∷ reg 0 97 0 0 3 0 1 5
    ∷ reg 0 98 0 0 3 0 1 0
    ∷ reg 0 99 0 0 8 0 1 0
    ∷ reg 0 100 0 1 8 0 1 2
    ∷ reg 0 101 0 1 8 0 1 3
    ∷ reg 0 102 0 1 8 0 1 2
    ∷ reg 0 103 0 1 8 0 1 3
    ∷ reg 0 104 0 1 8 0 1 5
    ∷ reg 0 105 0 1 8 0 1 8
    ∷ reg 0 106 0 1 8 0 1 6
    ∷ reg 0 107 0 1 8 0 1 4
    ∷ reg 0 108 0 1 8 0 1 2
    ∷ reg_below_zero 0 109 0 1 8 0 1 2
    ∷ reg_below_zero 0 110 0 1 8 0 1 4
    ∷ reg_below_zero 0 111 0 1 8 0 1 3
    ∷ reg 0 112 0 1 8 0 1 3
    ∷ reg 0 113 0 1 8 0 1 11
    ∷ reg 0 114 0 1 8 0 1 19
    ∷ reg 0 115 0 1 8 0 1 10
    ∷ reg 0 116 7 0 1 0 1 0
    ∷ reg 0 116 0 0 7 0 1 0
    ∷ reg 0 117 4 0 1 0 1 0
    ∷ reg 0 117 3 0 1 0 1 0
    ∷ reg 0 117 2 0 1 0 1 1
    ∷ reg 0 117 0 0 2 0 1 3
    ∷ reg 0 118 6 0 1 0 1 0
    ∷ reg 0 118 5 0 1 0 1 1
    ∷ reg 0 118 3 0 2 0 1 1
    ∷ reg 0 118 0 0 3 0 1 2
    ∷ reg 0 119 7 0 1 0 1 0
    ∷ reg 0 119 6 0 1 0 1 0
    ∷ reg 0 119 4 0 2 0 1 3
    ∷ reg 0 119 0 0 3 0 1 1
    ∷ reg 0 120 6 0 2 0 1 0
    ∷ reg 0 120 5 0 1 0 1 0
    ∷ reg 0 120 4 0 1 0 1 0
    ∷ reg 0 120 3 0 1 0 1 1
    ∷ reg 0 120 2 0 1 0 1 0
    ∷ reg 0 120 0 0 2 0 1 3
    ∷ reg 0 121 0 0 8 0 1 60
    ∷ reg 0 122 0 0 8 0 1 6
    ∷ reg 0 123 0 0 8 0 1 25
    ∷ reg 0 124 0 0 8 0 1 42
    ∷ reg 0 125 4 0 4 0 1 8
    ∷ reg 0 125 0 0 1 0 1 0
    ∷ reg 0 126 6 0 2 0 1 2
    ∷ reg 0 126 4 0 2 0 1 0
    ∷ reg 0 126 3 0 1 0 1 0
    ∷ reg 0 126 0 0 3 0 1 2
    ∷ reg 0 127 4 0 1 0 0 0
    ∷ reg 0 127 2 0 2 0 1 1
    ∷ reg 0 127 1 0 1 0 1 0
    ∷ reg 0 127 0 0 1 0 1 1
    ∷ reg 0 128 0 0 8 0 1 12
    ∷ reg 0 129 7 0 1 0 1 0
    ∷ reg 0 129 0 0 6 0 1 0
    ∷ reg 0 130 6 0 1 0 1 0
    ∷ reg 0 130 0 0 6 0 1 0
    ∷ reg 0 131 0 0 8 0 1 8
    ∷ reg 0 132 0 0 8 0 1 0
    ∷ reg 0 133 3 0 1 0 1 1
    ∷ reg 0 133 2 0 1 0 1 0
    ∷ reg 0 133 1 0 1 0 1 0
    ∷ reg 0 133 0 0 1 0 1 0
    ∷ reg 0 134 7 0 1 0 1 0
    ∷ reg 0 134 6 0 1 0 1 0
    ∷ reg 0 134 5 0 1 0 1 0
    ∷ reg 0 134 4 0 1 0 1 0
    ∷ reg 0 134 3 0 1 0 1 0
    ∷ reg 0 134 2 0 1 0 1 0
    ∷ reg 0 134 1 0 1 0 1 1
    ∷ reg 0 134 0 0 1 0 1 1
    ∷ reg 0 135 4 0 2 0 1 3
    ∷ reg 0 135 2 0 1 0 1 1
    ∷ reg 0 135 1 0 1 0 1 0
    ∷ reg 0 135 0 0 1 0 1 0
    ∷ reg 0 136 0 0 8 0 1 0
    ∷ reg 0 137 4 0 1 0 1 1
    ∷ reg 0 137 0 0 4 0 1 11
    ∷ reg 0 138 0 1 5 0 1 2
    ∷ reg 0 139 0 1 5 0 1 4
    ∷ reg 0 140 0 1 5 0 1 2
    ∷ reg 0 141 0 1 5 0 1 4
    ∷ reg 0 142 0 1 5 0 1 2
    ∷ reg 0 143 0 1 5 0 1 4
    ∷ reg 0 144 5 0 1 0 1 0
    ∷ reg 0 144 4 0 1 0 1 1
    ∷ reg 0 144 3 0 1 0 1 0
    ∷ reg 0 144 2 0 1 0 1 1
    ∷ reg 0 144 0 0 2 0 1 3
    ∷ [])

unfoldable pub rx_timing_regs : List LgwReg
rx_timing_regs = at_base rx_top_base_addr (
    reg 0 145 7 0 1 0 1 1
    ∷ reg 0 145 6 0 1 0 1 0
    ∷ reg 0 145 4 0 2 0 1 0
    ∷ reg 0 145 2 0 2 0 1 0
    ∷ reg 0 145 0 0 2 0 1 3
    ∷ reg 0 146 6 0 2 0 1 1
    ∷ reg 0 146 3 0 3 0 1 2
    ∷ reg 0 146 0 0 3 0 1 6
    ∷ reg 0 147 6 0 2 0 1 3
    ∷ reg 0 147 3 0 3 0 1 1
    ∷ reg 0 147 0 0 3 0 1 4
    ∷ reg 0 148 7 0 1 0 1 0
    ∷ reg 0 148 4 0 3 0 1 5
    ∷ reg 0 149 6 0 2 0 1 0
    ∷ reg 0 149 4 0 2 0 1 0
    ∷ reg 0 149 2 0 2 0 1 0
    ∷ reg 0 149 0 0 2 0 1 0
    ∷ reg 0 150 6 0 2 0 1 0
    ∷ reg 0 150 4 0 2 0 1 0
    ∷ reg 0 150 2 0 2 0 1 0
    ∷ reg 0 150 0 0 2 0 1 0
    ∷ reg 0 151 4 0 3 0 1 7
    ∷ reg 0 151 0 0 3 0 1 4
    ∷ reg 0 152 4 0 3 0 1 0
    ∷ reg 0 152 0 0 3 0 1 0
    ∷ reg 0 153 7 0 1 0 1 1
    ∷ reg 0 153 6 0 1 0 1 0
    ∷ reg 0 153 4 0 2 0 1 0
    ∷ reg 0 153 2 0 2 0 1 0
    ∷ reg 0 153 0 0 2 0 1 3
    ∷ reg 0 154 6 0 2 0 1 1
    ∷ reg 0 154 3 0 3 0 1 2
    ∷ reg 0 154 0 0 3 0 1 6
    ∷ reg 0 155 6 0 2 0 1 3
    ∷ reg 0 155 3 0 3 0 1 1
    ∷ reg 0 155 0 0 3 0 1 4
    ∷ reg 0 156 7 0 1 0 1 0
    ∷ reg 0 156 4 0 3 0 1 5
    ∷ reg 0 157 6 0 2 0 1 0
    ∷ reg 0 157 4 0 2 0 1 0
    ∷ reg 0 157 2 0 2 0 1 0
    ∷ reg 0 157 0 0 2 0 1 0
    ∷ reg 0 158 6 0 2 0 1 0
    ∷ reg 0 158 4 0 2 0 1 0
    ∷ reg 0 158 2 0 2 0 1 0
    ∷ reg 0 158 0 0 2 0 1 0
    ∷ reg 0 159 4 0 3 0 1 7
    ∷ reg 0 159 0 0 3 0 1 4
    ∷ reg 0 160 0 0 4 0 1 9
    ∷ reg 0 161 0 0 8 0 1 112
    ∷ reg 0 162 0 0 3 0 1 3
    ∷ reg 0 163 5 0 1 0 1 0
    ∷ reg 0 163 4 0 1 0 1 0
    ∷ reg 0 163 3 0 1 0 1 1
    ∷ reg 0 163 2 0 1 0 1 0
    ∷ reg 0 163 1 0 1 0 1 0
    ∷ reg 0 163 0 0 1 0 1 1
    ∷ reg 0 164 0 0 8 0 1 33
    ∷ reg 0 165 6 0 2 0 1 3
    ∷ reg 0 165 4 0 2 0 1 3
    ∷ reg 0 165 2 0 2 0 1 3
    ∷ reg 0 165 0 0 2 0 1 3
    ∷ reg 0 166 6 0 2 0 1 3
    ∷ reg 0 166 4 0 2 0 1 3
    ∷ reg 0 166 2 0 2 0 1 3
    ∷ reg 0 166 0 0 2 0 1 3
    ∷ reg 0 167 6 0 2 0 1 3
    ∷ reg 0 167 4 0 2 0 1 3
    ∷ reg 0 167 2 0 2 0 1 3
    ∷ reg 0 167 0 0 2 0 1 3
    ∷ reg 0 168 6 0 2 0 1 3
    ∷ reg 0 168 4 0 2 0 1 3
    ∷ reg 0 168 2 0 2 0 1 3
    ∷ reg 0 168 0 0 2 0 1 3
    ∷ reg 0 169 7 0 1 0 1 0
    ∷ reg 0 169 4 0 3 0 1 4
    ∷ reg 0 170 4 0 3 0 1 5
    ∷ reg 0 170 0 0 4 0 1 3
    ∷ reg 0 171 5 0 2 0 1 1
    ∷ reg 0 171 4 0 1 0 1 0
    ∷ reg 0 171 0 0 4 0 1 8
    ∷ [])

unfoldable pub rx_modem_regs : List LgwReg
rx_modem_regs = at_base rx_top_base_addr (
    reg 0 172 0 0 7 0 1 32
    ∷ reg 0 173 0 0 7 0 1 48
    ∷ reg 0 174 4 0 3 0 1 5
    ∷ reg 0 174 0 0 3 0 1 3
    ∷ reg 0 175 6 0 1 0 1 0
    ∷ reg 0 175 4 0 2 0 1 2
    ∷ reg 0 175 2 0 1 0 1 1
    ∷ reg 0 175 0 0 2 0 1 1
    ∷ reg 0 176 7 0 1 0 1 0
    ∷ reg 0 176 0 0 7 0 1 64
    ∷ reg 0 177 6 0 2 0 1 2
    ∷ reg 0 177 4 0 2 0 1 2
    ∷ reg 0 177 3 0 1 0 1 1
    ∷ reg 0 177 2 0 1 0 1 1
    ∷ reg 0 177 1 0 1 0 1 1
    ∷ reg 0 177 0 0 1 0 1 1
    ∷ reg 0 178 0 0 8 0 1 11
    ∷ reg 0 179 4 0 1 0 1 0
    ∷ reg 0 179 3 0 1 0 1 0
    ∷ reg 0 179 0 0 3 0 1 7
    ∷ reg 0 180 0 0 8 1 1 0
    ∷ reg 0 181 0 0 8 1 1 0
    ∷ reg 0 182 4 0 4 1 1 0
    ∷ reg 0 182 0 0 4 1 1 0
    ∷ reg 0 183 6 0 2 0 1 2
    ∷ reg 0 183 4 0 2 0 1 3
    ∷ reg 0 183 3 0 1 0 1 1
    ∷ reg 0 183 0 0 3 0 1 0
    ∷ reg 0 184 0 0 8 0 1 127
    ∷ reg 0 185 6 0 2 0 1 0
    ∷ reg 0 185 4 0 2 0 1 0
    ∷ reg 0 185 2 0 2 0 1 0
    ∷ reg 0 185 0 0 2 0 1 0
    ∷ reg 0 186 6 0 2 0 1 1
    ∷ reg 0 186 4 0 2 0 1 1
    ∷ reg 0 186 2 0 2 0 1 0
    ∷ reg 0 186 0 0 2 0 1 0
    ∷ reg 0 187 0 0 8 0 1 85
    ∷ reg 0 188 0 0 8 0 1 85
    ∷ reg 0 189 0 0 8 0 1 85
    ∷ reg 0 190 0 0 8 0 1 85
    ∷ reg 0 191 0 0 1 1 1 0
    ∷ reg 0 192 4 0 1 0 1 0
    ∷ reg 0 192 3 0 1 0 1 0
    ∷ reg 0 192 2 0 1 0 1 0
    ∷ reg 0 192 1 0 1 0 1 0
    ∷ reg 0 192 0 0 1 0 1 0
    ∷ reg 0 193 0 0 8 0 1 255
    ∷ reg 0 194 0 0 5 0 1 0
    ∷ reg 0 195 0 0 8 0 1 21
    ∷ reg 0 196 0 0 4 1 1 0
    ∷ reg 0 197 0 0 8 1 1 0
    ∷ reg 0 198 0 0 4 1 1 0
    ∷ reg 0 199 0 0 8 1 1 0
    ∷ reg 0 200 0 0 5 1 1 0
    ∷ reg 0 201 0 0 8 1 1 0
    ∷ reg 0 202 0 0 8 1 1 0
    ∷ reg 0 203 0 0 8 1 1 0
    ∷ reg 0 204 0 0 8 1 1 0
    ∷ reg 0 205 0 0 8 1 1 0
    ∷ reg 0 206 0 0 8 1 1 0
    ∷ reg 0 207 0 0 8 1 1 0
    ∷ reg 0 208 0 0 8 1 1 0
    ∷ reg 0 209 0 0 8 1 1 0
    ∷ reg 0 210 0 0 8 1 1 0
    ∷ reg 0 211 0 0 2 1 1 0
    ∷ reg 0 212 0 0 8 1 1 0
    ∷ reg 0 213 0 0 8 1 1 0
    ∷ reg 0 214 0 0 2 1 1 0
    ∷ reg 0 215 0 0 8 1 1 0
    ∷ reg 0 216 0 0 8 1 1 0
    ∷ reg 0 217 0 0 2 0 1 1
    ∷ reg 0 218 0 0 8 1 1 0
    ∷ reg 0 219 0 0 1 1 1 0
    ∷ [])
