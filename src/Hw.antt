-- ===== src/Hw.antt =====
-- src/base/hw_elts.c: the hardware elements of the processor.
pub mod Adder
pub mod Alu
pub mod Regfile
pub mod Ports
mod Tests
