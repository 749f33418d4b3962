-- ===== src/Manager.antt =====
-- lease/: the manager of a lease.
pub mod RateLimit
