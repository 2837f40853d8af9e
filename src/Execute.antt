-- ===== src/Execute.antt =====
-- cpu/x86/cpu.cpp and cpu/x86/rmm.cpp: what an instruction does.
pub mod Operands
pub mod Stack
pub mod Arith
pub mod Transfer
pub mod Strings
pub mod Shifts
pub mod Control
pub mod Groups
pub mod Interrupt
pub mod Run
