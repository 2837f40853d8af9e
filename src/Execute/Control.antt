-- ===== src/Execute/Control.antt =====
-- cpu/x86/cpu.cpp, execute_0x7 and execute_0xE: jumps, loops, calls, and the ports.
pub mod Laws
use door86c.Common.{
  ℕ, ◌+◌, ◌-◌, ◌%◌, ◌^◌, Bool, true, false, not, ◌&&◌, ◌||◌, bit_and, List, [], ◌∷◌, nonzero, same,
  ltb, ◌==◌, u16, if◌then◌else◌, get_elem?,
}
use mathlib.Core.Option
use door86c.Regs.{with_low}
use door86c.Flags.{carry, parity, zero_flag, sign, overflow, read}
use door86c.Decoder.{Instruction}
use door86c.Machine.Exec.{Exec, Step, ok, fault, pure, ◌>>=◌, ◌>>◌, reads, put_regs, put_ip}
use door86c.Execute.Operands.{skip, switch, low_nibble}
use door86c.Execute.Stack.{push}

-- `static_cast<int8_t>(b)` as it acts on a 16-bit sum; an `int16_t` acts as itself.
abbrev pub sign_extend8 : ℕ → ℕ
sign_extend8 b = if ltb b 0x80 then b else b + 0xff00

abbrev pub jump : ℕ → Step
jump rel = put_ip (λ ip. u16 (ip + rel))

-- `cond`, by the low half of the opcode.
unfoldable pub jump_condition : ℕ → ℕ → Bool
jump_condition n f =
    let o = read overflow f in
    let c = read carry f in
    let z = read zero_flag f in
    let s = read sign f in
    let p = read parity f in
    Option.get_or
      (get_elem?
        (o
          ∷ not o
          ∷ c
          ∷ not c
          ∷ z
          ∷ not z
          ∷ (c || z)
          ∷ (not c && not z)
          ∷ s
          ∷ not s
          ∷ p
          ∷ not p
          ∷ not (same s o)
          ∷ same s o
          ∷ (z || not (same s o))
          ∷ (not z && same s o)
          ∷ [])
        n)
      false

unfoldable pub execute_0x7 : Instruction → Step
unfolding jump_condition
execute_0x7 i = do
  cond ← reads (λ c. jump_condition (low_nibble i) c.flags)
  if cond then jump (sign_extend8 i.imm8) else skip

-- LOOPNE, LOOPE and LOOP: `if (cx-- != 0 && test) ip += rel8`.
unfoldable pub loop_while : (ℕ → Bool) → Instruction → Step
loop_while test i = do
  c ← reads (λ c. c)
  put_regs (λ r. record r { cx = u16 (r.cx + 0xffff) })
  if nonzero c.regs.cx && test c.flags then jump (sign_extend8 i.imm8) else skip

-- `IO::inb` and `IO::inw` return 0; `outb` and `outw` only write to the log.
abbrev pub in_byte : ℕ → ℕ
in_byte port = 0

abbrev pub in_word : ℕ → ℕ
in_word port = 0

abbrev pub out_port : ℕ → ℕ → Step
out_port port value = pure tt

unfoldable pub in_al : ℕ → Step
in_al port = put_regs (λ r. record r { ax = with_low r.ax (in_byte port) })

unfoldable pub in_ax : ℕ → Step
in_ax port = put_regs (λ r. record r { ax = in_word port })

unfoldable pub jcxz : Instruction → Step
jcxz i = do r ← reads (λ c. c.regs); if r.cx == 0 then jump (sign_extend8 i.imm8) else skip

unfoldable pub call_near : Instruction → Step
call_near i = do ip ← reads (λ c. c.ip); push ip; jump i.imm16

unfoldable pub execute_0xE : Instruction → Step
execute_0xE i = do
  r ← reads (λ c. c.regs)
  switch (low_nibble i)
      (loop_while (λ f. not (read zero_flag f)) i
        ∷ loop_while (λ f. read zero_flag f) i
        ∷ loop_while (λ f. true) i
        ∷ jcxz i
        ∷ in_al i.imm8
        ∷ in_ax i.imm8
        ∷ out_port i.imm8 r.ax
        ∷ out_port i.imm8 r.ax
        ∷ call_near i
        ∷ jump i.imm16
        ∷ skip
        ∷ jump (sign_extend8 i.imm8)
        ∷ in_al r.dx
        ∷ in_ax r.dx
        ∷ out_port r.dx r.ax
        ∷ out_port r.dx r.ax
        ∷ [])
      skip
