-- ===== src/Mem.antt =====
-- The memory of the guest machine: src/base/ptable.c and src/base/mem.c.
pub mod Ptable
pub mod Bytes
pub mod Access
pub mod Examples
mod Tests
