-- ===== src/Mem.antt =====
-- crates/zenus-mem: the table of mappings of a process.
pub mod Vma
pub mod Frames
