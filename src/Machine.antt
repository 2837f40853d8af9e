-- ===== src/Machine.antt =====
-- The state that the CPU's code works on (cpu/x86/cpu_core.h and cpu/x86/cpu.h), and a monad of
-- steps over it.
pub mod Exec
pub mod Fits
use door86c.Common.{ℕ, ◌+◌, ◌-◌, ◌^◌, Bool, Option, List, u16}
use door86c.Regs.{Regs, Sregs}
use door86c.Memory.{Memory}
use door86c.Dos.MemoryManager.{DosMemoryManager}

-- cpu_core. `flags` is `flags_t::value_`.
pub record Core : Type 0 where
  pub regs : Regs
  pub sregs : Sregs
  pub flags : ℕ
  pub ip : ℕ

-- The functions that the program puts into `int_handlers_`: `Bios::int10`, `Dos::int20`,
-- `Dos::int21`, `DebuggerBackend::int1` and `int3`.
pub data Handler : Type 0 where
  bios_int10 dos_int20 dos_int21 debugger_int1 debugger_int3 : Handler

-- What the handlers reach through `this` and the C library: bytes written to stdout and stderr and
-- still to be read from stdin, the DOS memory manager, and where the process's PSP is (`psp_`).
pub record World : Type 0 where
  pub output : List ℕ
  pub error_output : List ℕ
  pub input : List ℕ
  pub mem_mgr : DosMemoryManager
  pub psp : Option ℕ

-- CPU.
pub record Cpu : Type 0 where
  pub core : Core
  pub memory : Memory
  pub running : Bool
  pub debugger_attached : Bool
  pub int_handlers : ℕ → Option Handler
  pub world : World
