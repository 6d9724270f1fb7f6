-- ===== src/Fs.antt =====
-- The file system layer, crates/zenus-fs.
pub mod BlockCache
pub mod Journal
pub mod Cgroup
pub mod Mount
pub mod Access
