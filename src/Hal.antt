-- ===== src/Hal.antt =====
-- libloragw/inc/loragw_hal.h: the types of the hardware layer that other components exchange.
pub mod Packet
pub mod RxPkt
pub mod Merge
pub mod Config
pub mod Lbt
pub mod Send
pub mod Receive
pub mod TimeOnAir
mod Tests
