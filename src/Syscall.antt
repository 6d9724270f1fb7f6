-- ===== src/Syscall.antt =====
-- The system calls, crates/zenus-syscall.
pub mod UserStack
