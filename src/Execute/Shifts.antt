-- ===== src/Execute/Shifts.antt =====
-- cpu/x86/cpu.cpp, execute_0xC0, 0xC1, 0xD0 to 0xD3 and 0xD: shifts and rotates of an operand.
use door86c.Common.{ℕ, [], ◌∷◌}
use door86c.Memory.{Width, byte, word}
use door86c.Regs.{low}
use door86c.Decoder.{Instruction}
use door86c.Machine.Exec.{Step, ◌>>=◌, reads}
use door86c.Rmm.{rol, ror, rcl, rcr, shl, shr, sar}
use door86c.Execute.Operands.{skip, switch, low_nibble, rmm}

-- The eight operations by the number in the ModRM byte; 6 is a second SHL.
unfoldable pub shift_group : Width → ℕ → ℕ → Instruction → Step
shift_group w subop num i = do
  r ← rmm i
  switch subop
      (rol w r num
        ∷ ror w r num
        ∷ rcl w r num
        ∷ rcr w r num
        ∷ shl w r num
        ∷ shr w r num
        ∷ shl w r num
        ∷ sar w r num
        ∷ [])
      skip

unfoldable pub execute_0xC0 : Instruction → ℕ → Step
execute_0xC0 i subop = shift_group byte subop i.disp8 i

unfoldable pub execute_0xC1 : Instruction → ℕ → Step
execute_0xC1 i subop = shift_group word subop i.disp8 i

unfoldable pub execute_0xD0 : Instruction → ℕ → Step
execute_0xD0 i subop = shift_group byte subop 1 i

unfoldable pub execute_0xD1 : Instruction → ℕ → Step
execute_0xD1 i subop = shift_group word subop 1 i

unfoldable pub execute_0xD2 : Instruction → ℕ → Step
execute_0xD2 i subop = do cl ← reads (λ c. low c.regs.cx); shift_group byte subop cl i

unfoldable pub execute_0xD3 : Instruction → ℕ → Step
execute_0xD3 i subop = do cl ← reads (λ c. low c.regs.cx); shift_group word subop cl i

unfoldable pub execute_0xD : Instruction → Step
execute_0xD i =
    switch (low_nibble i)
      (execute_0xD0 i i.mdrm.reg
        ∷ execute_0xD1 i i.mdrm.reg
        ∷ execute_0xD2 i i.mdrm.reg
        ∷ execute_0xD3 i i.mdrm.reg
        ∷ [])
      skip
