-- ===== src/Sync.antt =====
-- Locks, crates/zenus-sync.
pub mod Lockdep
