-- ===== src/Execute/Control/Laws.antt =====
-- cpu/x86/cpu.cpp, execute_0x7 and the near CALL and RET.
use door86c.Common.{
  ℕ, ◌+◌, ◌-◌, ◌*◌, ◌%◌, ◌^◌, ◌<◌, ◌≡◌, refl, arith, [], not, ◌||◌, ◌&&◌, same, ◌==◌, ltb, leb,
  below_eight, ◌∙◌, u16, ◌/◌,
}
use door86c.Memory.{Memory, Width, byte, word, abs_memory}
use door86c.Decoder.{Instruction}
use door86c.Machine.{Cpu}
use door86c.Machine.Exec.{ok, ◌>>=◌, ◌>>◌, set_flags}
use door86c.Rmm.{Place, card, get, cmp}
use door86c.Rmm.Arith.{cmp_lem}
use door86c.Execute.Stack.Laws.{with_stack, SameOutside, push-Holds, pop-Holds}
use door86c.Execute.Interrupt.Laws.{Room}
use door86c.Execute.Control.{jump_condition, call_near}
use door86c.Execute.Interrupt.{ret_near}

-- The sixteen conditional jumps are eight conditions and their opposites: an odd opcode jumps
-- exactly where the even one before it does not.
pub jump_condition-opposite :
    (k f : ℕ) → k < 8 → jump_condition (2 * k + 1) f ≡ not (jump_condition (2 * k) f)
unfolding jump_condition
jump_condition-opposite k f small =
    below_eight (λ k. jump_condition (2 * k + 1) f ≡ not (jump_condition (2 * k) f))
      (
        ground arith,
        ground arith,
        ground arith,
        ground arith,
        ground arith,
        ground arith,
        ground arith,
        ground arith,
      )
      k small

-- The conditions on the flags of a difference, as comparisons of the numbers.
difference_tests :
    (w : Width) (a b : ℕ)
    → a < card w
    → b < card w
    → (((a + card w - b) % card w == 0) ≡ (a == b))
      × ((ltb a b || (a + card w - b) % card w == 0) ≡ leb a b)
      × (not (
            same
              (leb (card w / 2) ((a + card w - b) % card w))
              (ltb a b || leb (card w / 2) (a - b)))
          ≡ (ltb a b && ltb (a + card w - b) (card w / 2)))
difference_tests byte a b ha hb = (ground arith, ground arith, ground arith)
difference_tests word a b ha hb = (ground arith, ground arith, ground arith)

-- After CMP of `a` with `b`, JB, JE and JBE jump exactly if `a` is below, equal to, or not above
-- `b`, as unsigned numbers. JL jumps exactly if `a` is below `b` and the difference, modulo the
-- operand's size, is less than half of the size: that is not the signed order.
pub jump_condition-cmp :
    (w : Width) (p : Place) (a b : ℕ) (s : Cpu)
    → get w p s ≡ ok a s
    → a < card w
    → b < card w
    → (f : ℕ) × (cmp w p b s ≡ ok tt (set_flags f s))
      × (jump_condition 0x2 f ≡ ltb a b)
      × (jump_condition 0x4 f ≡ (a == b))
      × (jump_condition 0x6 f ≡ leb a b)
      × (jump_condition 0xC f ≡ (ltb a b && ltb (a + card w - b) (card w / 2)))
unfolding jump_condition
jump_condition-cmp w p a b s here a_fits b_fits =
    let (f, e, h) = cmp_lem w p a b s here a_fits b_fits in
    let t = difference_tests w a b a_fits b_fits in
    (f, e, h.cf_set, h.zf_set ∙ t.0, rw (h.cf_set, h.zf_set) t.1, rw (h.sf_set, h.of_set) t.2)

-- With room for two bytes on the stack, CALL and then RET come back to where the call was, and change nothing but the two bytes of memory
-- below the top of the stack.
pub call_near-ret_near :
    (i : Instruction) (s : Cpu)
    → Room 2 s
    → s.core.ip < 2 ^ 16
    → (m : Memory) × ((call_near i >> ret_near) s ≡ ok tt (record s { memory = m }))
      × SameOutside
          (abs_memory s.core.sregs.ss (s.core.regs.sp - 2))
          (abs_memory s.core.sregs.ss s.core.regs.sp)
          s.memory
          m
unfolding call_near ret_near
call_near-ret_near i s r ip_fits =
    let (m, e, h, o) = push-Holds s s.core.ip [] ip_fits r.room r.sp_fits r.inside tt in
    let called = record (with_stack s (s.core.regs.sp - 2) m) {
      core = record (with_stack s (s.core.regs.sp - 2) m).core { ip = u16 (s.core.ip + i.imm16) };
    } in
    let top = pop-Holds called s.core.ip [] h (omega (arith, r.room, r.sp_fits)) in
    let back : s.core.regs.sp - 2 + 2 ≡ s.core.regs.sp = omega (arith, r.room) in
    (m, rw (◌>>=◌, e, top, back) refl, o)
