-- ===== src/Execute/Groups.antt =====
-- cpu/x86/cpu.cpp, execute_0x80 to 0x83, 0x8, 0xF6, 0xF7, 0xFE, 0xFF and 0xF: the opcodes whose
-- operation is in the ModRM byte, and the moves between operands.
use door86c.Common.{
  ℕ, ◌+◌, ◌-◌, ◌*◌, ◌/◌, ◌^◌, Bool, true, false, not, ◌&&◌, bit_and, [], ◌∷◌, nonzero, ltb, u16,
  if◌then◌else◌,
}
use door86c.Memory.{Width, byte, word}
use door86c.Regs.{low, high, get_sreg}
use door86c.Flags.{carry, overflow, interrupt, direction, read, write}
use door86c.Decoder.{Instruction}
use door86c.Machine.Exec.{
  Step, fatal, int_overflow, stop, ◌>>=◌, ◌>>◌, lift, reads, put_regs, put_flags, put_ip, put_sregs,
  memory_get,
}
use door86c.Rmm.{
  local, card, get, set, add_assign, sub_assign, or_assign, and_assign, xor_assign, cmp, neg, swap,
}
use door86c.Execute.Operands.{
  skip, switch, low_nibble, rmm, r_operand, rm_imm, effective_address, segment_value,
}
use door86c.Execute.Stack.{push, pop}
use door86c.Execute.Arith.{then_carry}

-- ADD, OR, ADC, SBB, AND, SUB, XOR and CMP with an immediate value, by the number in the ModRM
-- byte.
unfoldable pub immediate_group : Width → ℕ → Instruction → Step
unfolding rm_imm
immediate_group w v i = do
  cf ← reads (λ c. read carry c.flags)
  switch i.mdrm.reg
      (rm_imm add_assign w v i
        ∷ rm_imm or_assign w v i
        ∷ rm_imm (then_carry cf add_assign) w v i
        ∷ rm_imm (then_carry cf sub_assign) w v i
        ∷ rm_imm and_assign w v i
        ∷ rm_imm sub_assign w v i
        ∷ rm_imm xor_assign w v i
        ∷ rm_imm cmp w v i
        ∷ [])
      skip

unfoldable pub execute_0x80 : Instruction → Step
execute_0x80 i = immediate_group byte i.imm8 i

unfoldable pub execute_0x81 : Instruction → Step
execute_0x81 i = immediate_group word i.imm16 i

unfoldable execute_0x82 : Instruction → Step
execute_0x82 i = stop fatal

-- `static_cast<uint16_t>(inst.imm8)`: the byte is extended by zeros.
unfoldable pub execute_0x83 : Instruction → Step
execute_0x83 i = immediate_group word i.imm8 i

-- TEST: `&=`, and the old value put back.
unfoldable pub test_rm : Width → Instruction → Step
test_rm w i = do
  rm ← rmm i
  saved ← get w rm
  r ← r_operand w i
  other ← get w r
  and_assign w rm other
  set w rm saved

unfoldable pub xchg : Width → Instruction → Step
xchg w i = do r ← r_operand w i; rm ← rmm i; swap w r rm

unfoldable pub mov_rm_r : Width → Instruction → Step
mov_rm_r w i = do r ← r_operand w i; rm ← rmm i; v ← get w r; set w rm v

unfoldable pub mov_r_rm : Width → Instruction → Step
mov_r_rm w i = do rm ← rmm i; r ← r_operand w i; v ← get w rm; set w r v

unfoldable pub mov_rm_sreg : Instruction → Step
mov_rm_sreg i = do
  rm ← rmm i
  v ← λ s. lift fatal (get_sreg s.core.sregs i.mdrm.reg) s
  set word rm v

unfoldable pub lea : Instruction → Step
lea i = do ea ← λ s. lift fatal (effective_address i s.core) s; r ← r_operand word i; set word r ea

unfoldable pub pop_rm : Instruction → Step
pop_rm i = do rm ← rmm i; v ← pop; set word rm v

unfoldable pub execute_0x8 : Instruction → Step
execute_0x8 i =
    switch (low_nibble i)
      (execute_0x80 i
        ∷ execute_0x81 i
        ∷ skip
        ∷ execute_0x83 i
        ∷ test_rm byte i
        ∷ test_rm word i
        ∷ xchg byte i
        ∷ xchg word i
        ∷ mov_rm_r byte i
        ∷ mov_rm_r word i
        ∷ mov_r_rm byte i
        ∷ mov_r_rm word i
        ∷ mov_rm_sreg i
        ∷ lea i
        ∷ mov_r_rm word i
        ∷ pop_rm i
        ∷ [])
      skip

-- F6 and F7, operation 0: `&=` on a copy of a value of the instruction.
unfoldable pub test_local : Width → ℕ → Instruction → Step
test_local w v i = do rm ← rmm i; other ← get w rm; and_assign w (local v) other

unfoldable pub not_rm : Width → Instruction → Step
not_rm w i = do rm ← rmm i; n ← get w rm; set w rm (card w - 1 - n)

abbrev pub neg_rm : Width → Instruction → Step
neg_rm w i = do rm ← rmm i; neg w rm

-- Sets OF and CF alike, by a test of AX and DX as they are then.
abbrev pub set_co : (ℕ → ℕ → Bool) → Step
set_co test = do
  r ← reads (λ c. c.regs)
  put_flags (λ f. write carry (test r.ax r.dx) (write overflow (test r.ax r.dx) f))

unfoldable pub mul8 : Instruction → Step
mul8 i = do
  put_regs (λ r. record r { ax = low r.ax * i.disp8 })
  set_co (λ ax dx. nonzero (high ax))

unfoldable pub imul8 : Instruction → Step
imul8 i = do
  put_regs (λ r. record r { ax = low r.ax * i.disp8 })
  set_co (λ ax dx. nonzero (bit_and (low ax) 0x80) && nonzero (high ax))

-- `ax * disp16` is an `int` product.
unfoldable pub mul16 : (ℕ → ℕ → Bool) → Instruction → Step
mul16 test i = do
  r ← reads (λ c. c.regs)
  if ltb (r.ax * i.disp16) (2 ^ 31)
      then (do
        put_regs (λ r. record r { dx = bit_and (r.ax * i.disp16) 0xFF00 / 2 ^ 16 })
        set_co test)
      else stop int_overflow

unfoldable pub execute_0xF6 : Instruction → Step
execute_0xF6 i =
    switch i.mdrm.reg
      (test_local byte i.imm8 i ∷ skip ∷ not_rm byte i ∷ neg_rm byte i ∷ mul8 i ∷ imul8 i ∷ []) skip

unfoldable pub execute_0xF7 : Instruction → Step
execute_0xF7 i =
    switch i.mdrm.reg
      (test_local word i.disp16 i
        ∷ skip
        ∷ not_rm word i
        ∷ neg_rm word i
        ∷ mul16 (λ ax dx. nonzero (bit_and ax 0x8000) && nonzero dx) i
        ∷ mul16 (λ ax dx. nonzero dx) i
        ∷ [])
      skip

unfoldable pub execute_0xFE : Instruction → Step
execute_0xFE i =
    switch i.mdrm.reg (rm_imm add_assign byte 1 i ∷ rm_imm sub_assign byte 1 i ∷ []) skip

abbrev pub call_rm : Instruction → Step
call_rm i = do ip ← reads (λ c. c.ip); push ip; rm ← rmm i; v ← get word rm; put_ip (λ _. v)

abbrev pub jmp_rm : Instruction → Step
jmp_rm i = do rm ← rmm i; v ← get word rm; put_ip (λ _. v)

abbrev pub jmp_far : Instruction → Step
jmp_far i = do
  seg ← segment_value i
  off ← memory_get word seg i.disp16
  put_ip (λ _. off)
  cs ← memory_get word seg (u16 (i.disp16 + 2))
  put_sregs (λ s. record s { cs = cs })

unfoldable pub execute_0xFF : Instruction → Step
execute_0xFF i =
    switch i.mdrm.reg
      (rm_imm add_assign word 1 i
        ∷ rm_imm sub_assign word 1 i
        ∷ call_rm i
        ∷ skip
        ∷ jmp_rm i
        ∷ jmp_far i
        ∷ (do rm ← rmm i; v ← get word rm; push v)
        ∷ [])
      skip

unfoldable pub execute_0xF : Instruction → Step
execute_0xF i =
    switch (low_nibble i)
      (skip
        ∷ skip
        ∷ skip
        ∷ skip
        ∷ skip
        ∷ put_flags (λ f. write carry (not (read carry f)) f)
        ∷ execute_0xF6 i
        ∷ execute_0xF7 i
        ∷ put_flags (write carry false)
        ∷ put_flags (write carry true)
        ∷ put_flags (write interrupt false)
        ∷ put_flags (write interrupt true)
        ∷ put_flags (write direction false)
        ∷ put_flags (write direction true)
        ∷ execute_0xFE i
        ∷ execute_0xFF i
        ∷ [])
      skip
