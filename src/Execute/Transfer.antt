-- ===== src/Execute/Transfer.antt =====
-- cpu/x86/cpu.cpp, execute_0x5, execute_0x6, execute_0x9 and execute_0xB: the stack, exchanges and
-- moves of immediate values.
use door86c.Common.{◌+◌, ◌-◌, bit_and, [], ◌∷◌, nonzero, ltb, ◌==◌, u16, if◌then◌else◌}
use door86c.Memory.{word}
use door86c.Regs.{low, with_high, set16, set8}
use door86c.Decoder.{Instruction}
use door86c.Machine.Exec.{Step, ◌>>=◌, ◌>>◌, reads, put_regs, put_flags, try_regs}
use door86c.Rmm.{get, set, swap}
use door86c.Execute.Operands.{skip, switch, low_nibble, regptr}
use door86c.Execute.Stack.{push, pop}

-- PUSH and POP of a register.
unfoldable pub execute_0x5 : Instruction → Step
unfolding regptr
execute_0x5 i = do
  r ← regptr (bit_and i.op 0x07)
  if nonzero (bit_and i.op 0x08) then (do v ← pop; set word r v) else (do v ← get word r; push v)

unfoldable pub pusha : Step
pusha = do
  r ← reads (λ c. c.regs)
  push r.ax
  push r.cx
  push r.dx
  push r.bx
  push r.sp
  push r.bp
  push r.si
  push r.di

unfoldable pub popa : Step
popa = do
  di ← pop
  put_regs (λ r. record r { di = di })
  si ← pop
  put_regs (λ r. record r { si = si })
  bp ← pop
  put_regs (λ r. record r { bp = bp })
  put_regs (λ r. record r { sp = u16 (r.sp + 2) })
  bx ← pop
  put_regs (λ r. record r { bx = bx })
  dx ← pop
  put_regs (λ r. record r { dx = dx })
  cx ← pop
  put_regs (λ r. record r { cx = cx })
  ax ← pop
  put_regs (λ r. record r { ax = ax })

unfoldable pub execute_0x6 : Instruction → Step
unfolding pusha popa
execute_0x6 i =
    switch (low_nibble i)
      (pusha
        ∷ popa
        ∷ skip
        ∷ skip
        ∷ skip
        ∷ skip
        ∷ skip
        ∷ skip
        ∷ push i.imm16
        ∷ skip
        ∷ push i.imm8
        ∷ [])
      skip

-- 98: `ah = (al & 0x80) ? 0xff : 0x00`; 99: the same for `dx` and `ax`.
unfoldable pub cbw : Step
cbw =
    put_regs λ r. record r {
      ax = with_high r.ax (if nonzero (bit_and (low r.ax) 0x80) then 0xff else 0x00);
    }

unfoldable pub cwd : Step
cwd = put_regs λ r. record r { dx = if nonzero (bit_and r.ax 0x8000) then 0xffff else 0x0000 }

unfoldable pub execute_0x9 : Instruction → Step
unfolding cbw cwd regptr
execute_0x9 i =
    let last = low_nibble i in
    if last == 0
    then skip
    else if ltb last 8
    then (do left ← regptr last; right ← regptr 0; swap word left right)
    else switch (last - 8)
        (cbw
          ∷ cwd
          ∷ skip
          ∷ skip
          ∷ (do v ← reads (λ c. c.flags); push v)
          ∷ (do v ← pop; put_flags (λ _. v))
          ∷ [])
        skip

-- MOV of an immediate value into a register.
unfoldable pub execute_0xB : Instruction → Step
unfolding set16 set8
execute_0xB i = do
  r ← reads (λ c. c.regs)
  if nonzero (bit_and i.op 0x08)
      then try_regs (set16 r (bit_and i.op 0x07) i.imm16)
      else try_regs (set8 r (bit_and i.op 0x07) i.imm8)
