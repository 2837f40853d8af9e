-- ===== src/Bios.antt =====
-- bios/bios.cpp: the video functions of the interrupt 0x10, which print to stdout, and their
-- registration.
use door86c.Common.{ℕ, zero, suc, ◌+◌, u16, ◌==◌, if◌then◌else◌}
use door86c.Memory.{byte}
use door86c.Regs.{low, high}
use door86c.Machine.{bios_int10}
use door86c.Machine.Exec.{Step, ◌>>=◌, ◌>>◌, reads, memory_get}
use door86c.Execute.Operands.{skip}
use door86c.Dos.Services.{put_char, try_emplace}

-- `for (; i < cx; i++) fputc(memory.get<uint8_t>(es, bp + i), stdout)`, with `n` rounds to go. The
-- offset is cut to 16 bits.
unfoldable pub write_string : ℕ → ℕ → ℕ → Step
unfolding memory_get
write_string seg off zero = skip
write_string seg off (suc n) = do
  b ← memory_get byte seg (u16 off)
  put_char b
  write_string seg (off + 1) n

unfoldable pub int10 : Step
unfolding write_string
int10 = do
  c ← reads (λ c. c)
  if high c.regs.ax == 0x13
      then write_string c.sregs.es c.regs.bp c.regs.cx
      else if high c.regs.ax == 0x0e
      then put_char (low c.regs.ax)
      else skip

-- The constructor.
unfoldable pub make_bios : Step
make_bios = try_emplace 0x10 bios_int10
