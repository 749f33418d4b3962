-- ===== src/Runtime.antt =====
-- runtime/: what runs the pure part.
pub mod PacketRing
pub mod Timers
