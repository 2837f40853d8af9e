-- ===== src/Execute/Run.antt =====
-- cpu/x86/cpu.cpp, execute, rep and run: one instruction with its repeat prefix, and the machine's
-- main loop. The fuel of a loop bounds its rounds.
pub mod Repeat
pub mod Laws
pub mod Int
pub mod Alu
use door86c.Common.{
  ℕ, zero, suc, ◌+◌, ◌-◌, ◌*◌, ◌/◌, ◌%◌, ◌^◌, Bool, true, false, not, ◌&&◌, Option, none, some,
  bit_and, List, [], ◌∷◌, nonzero, same, ◌==◌, u16, if◌then◌else◌,
}
use door86c.Memory.{Memory, byte, word, abs8}
use door86c.Flags.{zero_flag, read}
use door86c.Decoder.{Instruction, Fetch, decode}
use door86c.Decoder.Masks.{op_mask_notimpl, uses_rep_zf}
use door86c.Machine.{Core, Cpu, Handler}
use door86c.Machine.Exec.{
  Exec, Step, Outcome, ok, fault, fatal, out_of_bounds, out_of_fuel, pure, stop, ◌>>=◌, ◌>>◌, lift,
  reads, put_regs, put_sregs, put_ip,
}
use door86c.Execute.Operands.{skip, switch}
use door86c.Execute.Arith.{execute_0x0, execute_0x1, execute_0x2, execute_0x3, execute_0x4}
use door86c.Execute.Transfer.{execute_0x5, execute_0x6, execute_0x9, execute_0xB}
use door86c.Execute.Control.{execute_0x7, execute_0xE}
use door86c.Execute.Groups.{execute_0x8, execute_0xF}
use door86c.Execute.Strings.{execute_0xA, scas}
use door86c.Execute.Shifts.{execute_0xD}
use door86c.Execute.Interrupt.{call_interrupt, execute_0xC}

-- `switch (inst.op >> 4)`
unfoldable pub dispatch : (Handler → ℕ → Step) → Instruction → Step
dispatch handle i =
    switch (i.op / 2 ^ 4)
      (execute_0x0 i
        ∷ execute_0x1 i
        ∷ execute_0x2 i
        ∷ execute_0x3 i
        ∷ execute_0x4 i
        ∷ execute_0x5 i
        ∷ execute_0x6 i
        ∷ execute_0x7 i
        ∷ execute_0x8 i
        ∷ execute_0x9 i
        ∷ execute_0xA i
        ∷ execute_0xB i
        ∷ execute_0xC handle i
        ∷ execute_0xD i
        ∷ execute_0xE i
        ∷ execute_0xF i
        ∷ [])
      skip

-- `--core.regs.x.cx`
abbrev pub dec_cx : Step
dec_cx = put_regs (λ r. record r { cx = u16 (r.cx + 0xffff) })

-- After `--cx`: is the `do` loop done? `ends` is the test of ZF by which an opcode that looks at it
-- ends; `otherwise` is the value that `done` has for the other opcodes.
abbrev pub rep_done : Instruction → (Bool → Bool) → Bool → Core → Bool
rep_done i ends otherwise c =
    if c.regs.cx == 0
    then true
    else if nonzero (bit_and i.metadata.mask uses_rep_zf)
    then ends (read zero_flag c.flags)
    else otherwise

-- One look at the prefixes at the end of the loop's body. Under REP `done` is false again in every
-- round; under REPNE it is still true from before the loop.
unfoldable pub after_body : Instruction → Exec Bool
after_body i =
    if i.rep
    then (do dec_cx; reads (rep_done i (λ z. z) false))
    else if i.repne
    then (do dec_cx; reads (rep_done i not true))
    else pure true

-- `do { body } while (!done)`
unfoldable pub repeat : ℕ → Step → Instruction → Step
unfolding after_body
repeat zero body i = stop out_of_fuel
repeat (suc fuel) body i =
    let again = repeat fuel body i in (do body; done ← after_body i; if done then skip else again)

unfoldable pub execute : (Handler → ℕ → Step) → ℕ → Instruction → Exec Bool
unfolding call_interrupt repeat dispatch
execute handle fuel i = do
  attached ← λ s. ok s.debugger_attached s
  if attached then call_interrupt handle 0x01 else skip
  if nonzero (bit_and i.metadata.mask op_mask_notimpl)
      then pure false
      else (do repeat fuel (dispatch handle i) i; pure true)

-- `&memory[pos]` as a byte stream.
abbrev pub fetch_at : Memory → ℕ → Fetch
fetch_at m pos k = abs8 m (pos + k)

unfoldable pub fetch_instruction : Exec Instruction
unfolding decode abs8
fetch_instruction s =
    lift out_of_bounds (decode (fetch_at s.memory (s.core.sregs.cs * 0x10 + s.core.ip))) s

-- `while (running_) { … }`; `rounds` bounds the repeats of one instruction.
unfoldable pub run : (Handler → ℕ → Step) → ℕ → ℕ → Exec Bool
unfolding fetch_instruction execute
run handle rounds zero = stop out_of_fuel
run handle rounds (suc fuel) =
    let again = run handle rounds fuel in
    (do
      running ← λ s. ok s.running s
      if running
          then (do
            i ← fetch_instruction
            put_ip (λ ip. u16 (ip + i.len))
            execute handle rounds i
            again)
          else pure true)

-- The overload with a start address.
unfoldable pub run_from : (Handler → ℕ → Step) → ℕ → ℕ → ℕ → ℕ → Exec Bool
unfolding run
run_from handle rounds fuel start_cs start_ip = do
  put_sregs (λ s. record s { cs = start_cs })
  put_ip (λ _. start_ip)
  run handle rounds fuel

-- `for (; zf == inst.repne && cx; --cx) scas`
unfoldable pub rep_scas : ℕ → Step → Bool → Step
rep_scas zero body repne = stop out_of_fuel
rep_scas (suc fuel) body repne =
    let again = rep_scas fuel body repne in
    (do
      c ← reads (λ c. c)
      if same (read zero_flag c.flags) repne && nonzero c.regs.cx
          then (do body; dec_cx; again)
          else skip)

-- CPU::rep, which no code calls.
unfoldable pub rep : ℕ → Instruction → Step
unfolding rep_scas
rep fuel i =
    if not i.rep && not i.repne
    then skip
    else if i.rep && i.repne
    then skip
    else if i.op == 0xAE
    then rep_scas fuel (scas byte) i.repne
    else if i.op == 0xAF
    then rep_scas fuel (scas word) i.repne
    else skip
