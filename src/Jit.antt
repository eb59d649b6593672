-- ===== src/Jit.antt =====
-- packet_forwarder/src/jitqueue.c and its copy in clusterduck/src: the just-in-time queue that
-- holds downlinks and beacons until they are due.
pub mod Types
pub mod Queue
pub mod Collision
pub mod Enqueue
pub mod Dequeue
pub mod Peek
pub mod Order
pub mod Air
pub mod Sample
mod Tests
