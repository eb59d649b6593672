-- ===== src/Mcu.antt =====
-- libloragw/src/loragw_mcu.c: the frames that the host and the microcontroller exchange.
pub mod Bulk
pub mod Frame
mod Tests
