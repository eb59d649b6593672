-- ===== src/Rx.antt =====
-- The packets received from the concentrator, from the bytes of its FIFO on.
pub mod Buffer
pub mod Fetch
pub mod Pop
pub mod Frames
mod Tests
