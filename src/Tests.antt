-- ===== src/Tests.antt =====
-- Concrete inputs.
pub mod Messages
pub mod Options
pub mod Clocks
pub mod Conflicts
pub mod Timers
pub mod Acks
pub mod Slaac
pub mod Clients
pub mod Journals
pub mod Digests
pub mod Answers
pub mod Forcerenews
