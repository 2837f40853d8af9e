-- ===== src/Program.antt =====
-- door86/door86.cpp: the parts put together. The functions behind the interrupts are those of the
-- BIOS, of DOS and of the debugger; what the last does is the parameter `debugger`.
pub mod Calls
pub mod Exit
pub mod Memory
pub mod Main
use door86c.Common.{ℕ, Bool, true, false, Option, List, if◌then◌else◌}
use door86c.Bios.{int10, make_bios}
use door86c.Dos.Services.{int20, int21, make_dos}
use door86c.Dos.Process.{initialize_process}
use door86c.Execute.Run.{run}
use door86c.Machine.{Handler, bios_int10, dos_int20, dos_int21, debugger_int1, debugger_int3}
use door86c.Machine.Exec.{Exec, Step, pure, ◌>>=◌, ◌>>◌, put_regs}

-- The registered functions.
unfoldable pub handle : (ℕ → Step) → Handler → ℕ → Step
unfolding int10 int20 int21
handle debugger bios_int10 num = int10
handle debugger dos_int20 num = int20
handle debugger dos_int21 num = int21
handle debugger debugger_int1 num = debugger num
handle debugger debugger_int3 num = debugger num

-- `return result ? EXIT_SUCCESS : EXIT_FAILURE`
abbrev exit_code : Bool → ℕ
exit_code true = 0
exit_code false = 1

-- AX gets the drive, and the CPU runs. The result is the exit code.
unfoldable pub main_run : (ℕ → Step) → ℕ → ℕ → Exec ℕ
unfolding run
main_run debugger rounds fuel = do
  put_regs (λ r. record r { ax = 2 })
  result ← run (handle debugger) rounds fuel
  pure (exit_code result)

-- The part of `main` behind the command line, without a debugger's threads: the parts are made, and
-- the file becomes the process.
unfoldable pub main : Option (List ℕ) → (ℕ → Option (List ℕ)) → (ℕ → Step) → ℕ → ℕ → Exec ℕ
unfolding make_bios make_dos initialize_process main_run
main file read_file debugger rounds fuel = do
  (make_bios >> make_dos)
  initialized ← initialize_process file read_file
  if initialized then main_run debugger rounds fuel else pure 1
