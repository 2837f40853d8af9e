-- ===== src/Execute/Arith.antt =====
-- cpu/x86/cpu.cpp, execute_0x0 to execute_0x4: arithmetic and logic between two operands.
use door86c.Common.{Bool, bit_and, [], ◌∷◌, nonzero, if◌then◌else◌}
use door86c.Memory.{byte, word}
use door86c.Flags.{carry, read}
use door86c.Decoder.{Instruction}
use door86c.Machine.Exec.{Step, ◌>>=◌, ◌>>◌, reads, put_sregs}
use door86c.Rmm.{add_assign, sub_assign, or_assign, and_assign, xor_assign, cmp}
use door86c.Execute.Operands.{Alu, skip, switch, low_nibble, regptr, rm_r, rm_x, r_rm, acc_imm}
use door86c.Execute.Stack.{push, pop}

-- `OP other; if (cf) OP 1;`
unfoldable pub then_carry : Bool → Alu → Alu
then_carry cf f w p other = do f w p other; if cf then f w p 1 else skip

unfoldable pub execute_0x0 : Instruction → Step
execute_0x0 i =
    switch (low_nibble i)
      (rm_r add_assign byte i
        ∷ rm_r add_assign word i
        ∷ r_rm add_assign byte i
        ∷ r_rm add_assign word i
        ∷ acc_imm add_assign byte i
        ∷ acc_imm add_assign word i
        ∷ (do es ← reads (λ c. c.sregs.es); push es)
        ∷ (do v ← pop; put_sregs (λ s. record s { es = v }))
        ∷ rm_r or_assign byte i
        ∷ rm_x or_assign word i
        ∷ r_rm or_assign byte i
        ∷ r_rm or_assign word i
        ∷ acc_imm or_assign byte i
        ∷ acc_imm or_assign word i
        ∷ (do cs ← reads (λ c. c.sregs.cs); push cs)
        ∷ (do v ← pop; put_sregs (λ s. record s { cs = v }))
        ∷ [])
      skip

unfoldable pub execute_0x1 : Instruction → Step
execute_0x1 i = do
  cf ← reads (λ c. read carry c.flags)
  let adc = then_carry cf add_assign
  let sbb = then_carry cf sub_assign
  switch (low_nibble i)
      (rm_r adc byte i
        ∷ rm_r adc word i
        ∷ r_rm adc byte i
        ∷ r_rm adc word i
        ∷ acc_imm adc byte i
        ∷ acc_imm adc word i
        ∷ (do ss ← reads (λ c. c.sregs.ss); push ss)
        ∷ (do v ← pop; put_sregs (λ s. record s { ss = v }))
        ∷ rm_r sbb byte i
        ∷ rm_r sbb word i
        ∷ r_rm sbb byte i
        ∷ r_rm sbb word i
        ∷ acc_imm sbb byte i
        ∷ acc_imm sbb word i
        ∷ (do ds ← reads (λ c. c.sregs.ds); push ds)
        ∷ (do v ← pop; put_sregs (λ s. record s { ds = v }))
        ∷ [])
      skip

unfoldable pub execute_0x2 : Instruction → Step
execute_0x2 i =
    switch (low_nibble i)
      (rm_r and_assign byte i
        ∷ rm_r and_assign word i
        ∷ r_rm and_assign byte i
        ∷ r_rm and_assign word i
        ∷ acc_imm and_assign byte i
        ∷ acc_imm and_assign word i
        ∷ skip
        ∷ skip
        ∷ rm_r sub_assign byte i
        ∷ rm_x sub_assign word i
        ∷ r_rm sub_assign byte i
        ∷ r_rm sub_assign word i
        ∷ acc_imm sub_assign byte i
        ∷ acc_imm sub_assign word i
        ∷ [])
      skip

unfoldable pub execute_0x3 : Instruction → Step
execute_0x3 i =
    switch (low_nibble i)
      (rm_x xor_assign byte i
        ∷ rm_x xor_assign word i
        ∷ r_rm xor_assign byte i
        ∷ r_rm xor_assign word i
        ∷ acc_imm xor_assign byte i
        ∷ acc_imm xor_assign word i
        ∷ skip
        ∷ skip
        ∷ r_rm cmp byte i
        ∷ rm_r cmp word i
        ∷ r_rm cmp byte i
        ∷ r_rm cmp word i
        ∷ acc_imm cmp byte i
        ∷ acc_imm cmp word i
        ∷ [])
      skip

-- INC and DEC of a register.
unfoldable pub execute_0x4 : Instruction → Step
unfolding regptr
execute_0x4 i = do
  r ← regptr (bit_and i.op 0x07)
  if nonzero (bit_and i.op 0x08) then sub_assign word r 1 else add_assign word r 1
