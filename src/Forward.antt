-- ===== src/Forward.antt =====
-- packet_forwarder/src/lora_pkt_fwd.c: the packet forwarder.
pub mod Jit
pub mod Power
mod Tests
