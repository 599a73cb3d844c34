-- ===== src/Pipe.antt =====
-- The five-stage pipeline of src/pipe.
pub mod Regs
pub mod Decode
pub mod Fetch
pub mod Execute
pub mod Memory
pub mod Writeback
pub mod Forward
pub mod Hazard
mod Tests
