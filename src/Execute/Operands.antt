-- ===== src/Execute/Operands.antt =====
-- cpu/x86/cpu.cpp and rmm.cpp: where an instruction's operands are, and the switch over opcodes.
use door86c.Common.{
  ℕ, ◌+◌, bit_and, ◌&&◌, Option, some, none, List, ◌==◌, nonzero, u16, ltb, if◌then◌else◌,
  get_elem?,
}
use mathlib.Core.Option
use door86c.Memory.{Width, byte, word}
use door86c.Regs.{Regs, get_sreg}
use door86c.Decoder.{Instruction, RegModRm, segment_number, seg_index}
use door86c.Decoder.Masks.{op_mask_reg_is_sreg}
use door86c.Machine.{Core}
use door86c.Machine.Exec.{Exec, Step, fatal, pure, stop, ◌>>=◌, lift}
use door86c.Rmm.{Place, reg, sreg, mem, get}

-- `LOG(WARNING)` and nothing else.
abbrev pub skip : Step
skip = pure tt

-- `switch (n)` over 0, 1, 2, …, with what `default` does.
unfoldable pub switch : ℕ → List Step → Step → Step
switch n cases default = Option.get_or (get_elem? cases n) default

abbrev pub low_nibble : Instruction → ℕ
low_nibble i = bit_and i.op 0x0f

-- `regptr(n)`: a number that names no register is logged at FATAL.
unfoldable pub regptr : ℕ → Exec Place
regptr n = if ltb n 8 then pure (reg n) else stop fatal

unfoldable pub sregptr : ℕ → Exec Place
sregptr n = if ltb n 6 then pure (sreg n) else stop fatal

-- `r8(inst)` and `r16(inst)`.
unfoldable pub r_operand : Width → Instruction → Exec Place
unfolding regptr sregptr
r_operand byte i = regptr i.mdrm.reg
r_operand word i =
    if nonzero (bit_and i.metadata.mask op_mask_reg_is_sreg)
    then sregptr i.mdrm.reg
    else regptr i.mdrm.reg

unfoldable pub base_ea : RegModRm → Regs → ℕ
base_ea m r =
    if m.rm == 0
    then u16 (r.bx + r.si)
    else if m.rm == 1
    then u16 (r.bx + r.di)
    else if m.rm == 2
    then u16 (r.bp + r.si)
    else if m.rm == 3
    then u16 (r.bp + r.di)
    else if m.rm == 4
    then r.si
    else if m.rm == 5
    then r.di
    else if m.rm == 6
    then r.bp
    else if m.rm == 7
    then r.bx
    else 0

unfoldable pub effective_address : Instruction → Core → Option ℕ
unfolding base_ea
effective_address i c =
    if i.mdrm.mode == 0
    then (if i.mdrm.rm == 0x06 then some i.disp16 else some (base_ea i.mdrm c.regs))
    else if i.mdrm.mode == 1
    then some (u16 (base_ea i.mdrm c.regs + i.disp8))
    else if i.mdrm.mode == 2
    then some (u16 (base_ea i.mdrm c.regs + i.disp16))
    else none

-- `core.sregs.get(inst.seg_index())`
unfoldable pub segment_value : Instruction → Exec ℕ
unfolding get_sreg seg_index
segment_value i s = lift fatal (get_sreg s.core.sregs (segment_number (seg_index i))) s

-- `rmm8(inst)` and `rmm16(inst)`.
unfoldable pub rmm : Instruction → Exec Place
unfolding regptr segment_value effective_address
rmm i = if i.mdrm.mode == 0x03 then regptr i.mdrm.rm else (do
  seg ← segment_value i
  if i.mdrm.mode == 0 && i.mdrm.rm == 0x06
      then pure (mem seg i.disp16)
      else (do offset ← λ s. lift fatal (effective_address i s.core) s; pure (mem seg offset)))

abbrev pub imm : Width → Instruction → ℕ
imm byte i = i.imm8
imm word i = i.imm16

-- An operation on an operand and a value, such as `+=`.
abbrev pub Alu : Type 0
Alu = Width → Place → ℕ → Step

-- `rm OP r`, `r OP rm` and `al OP imm` or `ax OP imm`.
unfoldable pub rm_r : Alu → Width → Instruction → Step
unfolding r_operand rmm
rm_r f w i = do rm ← rmm i; r ← r_operand w i; other ← get w r; f w rm other

-- The form that takes the value of the register by `core.regs.x.get`.
unfoldable pub rm_x : Alu → Width → Instruction → Step
unfolding regptr rmm
rm_x f w i = do r ← regptr i.mdrm.reg; other ← get w r; rm ← rmm i; f w rm other

unfoldable pub r_rm : Alu → Width → Instruction → Step
unfolding r_operand rmm
r_rm f w i = do r ← r_operand w i; rm ← rmm i; other ← get w rm; f w r other

abbrev pub acc_imm : Alu → Width → Instruction → Step
acc_imm f w i = f w (reg 0) (imm w i)

unfoldable pub rm_imm : Alu → Width → ℕ → Instruction → Step
unfolding rmm
rm_imm f w v i = do rm ← rmm i; f w rm v
