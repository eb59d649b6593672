-- ===== src/Timestamp.antt =====
-- libloragw/src/loragw_sx1302_timestamp.c: the concentrator's counters and the history of its PPS times.
pub mod Counter
pub mod History
pub mod Read
pub mod Correction
mod Tests
