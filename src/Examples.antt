-- ===== src/Examples.antt =====
-- Concrete machines, instructions and blocks, and the theorems at work on them.
pub mod Data
pub mod Interrupts
pub mod Operands
pub mod Repeats
pub mod Services
pub mod Programs
pub mod Decoding
pub mod Blocks
pub mod Gdb
pub mod Listing
