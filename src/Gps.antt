-- ===== src/Gps.antt =====
-- The messages of the GPS receiver.
pub mod Ubx
mod Tests
