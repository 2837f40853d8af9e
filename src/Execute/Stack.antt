-- ===== src/Execute/Stack.antt =====
-- cpu/x86/cpu.cpp, push and pop. The stack grows down in 16-bit words; SP wraps.
pub mod Laws
use door86c.Common.{ℕ, ◌+◌, ◌-◌, ◌%◌, ◌^◌, u16}
use door86c.Memory.{word}
use door86c.Machine.Exec.{
  Exec, Step, ok, fault, pure, ◌>>=◌, ◌>>◌, put_regs, reads, memory_get, memory_set,
}

unfoldable pub push : ℕ → Step
unfolding memory_set
push val = do
  put_regs (λ r. record r { sp = u16 (r.sp + 2 ^ 16 - 2) })
  c ← reads (λ c. c)
  memory_set word c.sregs.ss c.regs.sp val

unfoldable pub pop : Exec ℕ
unfolding memory_get
pop = do
  c ← reads (λ c. c)
  m ← memory_get word c.sregs.ss c.regs.sp
  put_regs (λ r. record r { sp = u16 (r.sp + 2) })
  pure m
