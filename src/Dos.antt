-- ===== src/Dos.antt =====
-- The directory dos: the memory manager, a process's segment prefix, and program images.
pub mod MemoryManager
pub mod Services
pub mod Exe
pub mod Psp
pub mod Process
pub mod Start
pub mod Console
pub mod Vectors
pub mod Mcb
