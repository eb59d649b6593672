-- ===== src/Sx1302.antt =====
-- libloragw/src/loragw_sx1302.c: the driver of the SX1302.
pub mod Regs
pub mod Ops
pub mod Modem
pub mod Gain
pub mod Send
mod Tests
