-- ===== src/Ns.antt =====
-- The namespaces, crates/zenus-ns.
pub mod Pid
