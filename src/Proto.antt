-- ===== src/Proto.antt =====
-- proto/: the pure part of the client.
pub mod Time
pub mod Backoff
pub mod Lease
pub mod Acd
pub mod Retransmit
pub mod Slaac
pub mod Event
pub mod Params
pub mod Machine
pub mod Journal
