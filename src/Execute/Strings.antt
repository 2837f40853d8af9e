-- ===== src/Execute/Strings.antt =====
-- cpu/x86/cpu.cpp, scas_m8, scas_m16 and execute_0xA: moves to and from memory, and the string
-- instructions, which step SI and DI down if the direction flag is set.
use door86c.Common.{ℕ, ◌+◌, [], ◌∷◌, u16, if◌then◌else◌}
use door86c.Memory.{Width, byte, word}
use door86c.Flags.{direction, read}
use door86c.Decoder.{Instruction}
use door86c.Machine.{Core}
use door86c.Machine.Exec.{Step, ◌>>=◌, ◌>>◌, reads, put_regs, memory_get, memory_set}
use door86c.Rmm.{reg, local, mem, get, set, cmp, and_assign}
use door86c.Execute.Operands.{skip, switch, low_nibble, segment_value}

-- `dflag() ? -n : n`, added to an index register; `n` is 1 or 2.
abbrev pub step_by : Width → Core → ℕ → ℕ
step_by byte c x = if read direction c.flags then u16 (x + 0xffff) else u16 (x + 1)
step_by word c x = if read direction c.flags then u16 (x + 0xfffe) else u16 (x + 2)

abbrev pub step_si : Width → Core → Step
step_si w c = put_regs (λ r. record r { si = step_by w c r.si })

abbrev pub step_di : Width → Core → Step
step_di w c = put_regs (λ r. record r { di = step_by w c r.di })

-- SCAS: compares AL or AX with ES:DI.
unfoldable pub scas : Width → Step
scas w = do c ← reads (λ c. c); b ← memory_get w c.sregs.es c.regs.di; cmp w (reg 0) b; step_di w c

-- MOV between AL or AX and the address in the instruction.
unfoldable pub load_acc : Width → Instruction → Step
load_acc w i = do seg ← segment_value i; v ← memory_get w seg i.imm16; set w (reg 0) v

unfoldable pub store_acc : Width → Instruction → Step
store_acc w i = do seg ← segment_value i; v ← get w (reg 0); memory_set w seg i.imm16 v

unfoldable pub movs : Width → Step
movs w = do
  c ← reads (λ c. c)
  src ← memory_get w c.sregs.ds c.regs.si
  memory_set w c.sregs.es c.regs.di src
  step_si w c
  step_di w c

-- CMPS: both widths compare 16-bit values.
unfoldable pub cmps : Width → Step
cmps w = do
  c ← reads (λ c. c)
  right ← get word (mem c.sregs.es c.regs.di)
  cmp word (mem c.sregs.ds c.regs.si) right
  step_di w c

-- TEST of AL or AX: `&=` on a copy of the immediate value.
unfoldable pub test_acc : Width → ℕ → Step
test_acc w v = do r ← get w (reg 0); and_assign w (local v) r

unfoldable pub stos : Width → Step
stos w = do c ← reads (λ c. c); v ← get w (reg 0); memory_set w c.sregs.es c.regs.di v; step_di w c

unfoldable pub lods : Width → Step
lods w = do c ← reads (λ c. c); v ← memory_get w c.sregs.ds c.regs.si; set w (reg 0) v; step_si w c

unfoldable pub execute_0xA : Instruction → Step
execute_0xA i =
    switch (low_nibble i)
      (load_acc byte i
        ∷ load_acc word i
        ∷ store_acc byte i
        ∷ store_acc word i
        ∷ movs byte
        ∷ movs word
        ∷ cmps byte
        ∷ cmps word
        ∷ test_acc byte i.imm8
        ∷ test_acc word i.imm16
        ∷ stos byte
        ∷ stos word
        ∷ lods byte
        ∷ lods word
        ∷ scas byte
        ∷ scas word
        ∷ [])
      skip
