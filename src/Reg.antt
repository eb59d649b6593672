-- ===== src/Reg.antt =====
-- libloragw/src/loragw_reg.c: access to the memory and the registers of the concentrator.
pub mod Mem
pub mod Field
pub mod Table
pub mod Access
pub mod Sample
mod Tests
