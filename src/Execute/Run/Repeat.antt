-- ===== src/Execute/Run/Repeat.antt =====
-- cpu/x86/cpu.cpp, the `do` loop of execute_op under a REP prefix: how many rounds it makes.
use door86c.Common.{
  ℕ, zero, suc, ◌+◌, ◌^◌, ◌≤◌, ◌<◌, ◌≡◌, ◌≢◌, refl, arith, Bool, true, false, bit_and, nonzero,
  ◌==◌, u16, if◌then◌else◌, Bool-cases, inl, inr, ◌∙◌,
}
use door86c.Flags.{zero_flag, read}
use door86c.Decoder.{Instruction}
use door86c.Decoder.Masks.{uses_rep_zf}
use door86c.Machine.{Cpu}
use door86c.Machine.Exec.{Step, ok, ◌>>=◌, set_regs}
use door86c.Execute.Run.{repeat, after_body, rep_done}

-- `--cx`.
abbrev pub counted : Cpu → Cpu
counted t = set_regs (record t.core.regs { cx = u16 (t.core.regs.cx + 0xffff) }) t

-- One round: the body, then `--cx`.
abbrev pub round : (Cpu → Cpu) → Cpu → Cpu
round f s = counted (f s)

abbrev pub rounds : ℕ → (Cpu → Cpu) → Cpu → Cpu
rounds zero f s = s
rounds (suc n) f s = rounds n f (round f s)

-- The rounds of the loop: CX is looked at when it has been counted down, so 0 stands for 2^16.
abbrev pub count_of : ℕ → ℕ
count_of cx = if cx == 0 then 2 ^ 16 else cx

no_rounds : (cx : ℕ) → count_of cx ≢ 0
no_rounds cx = ground arith

module _ (body : Step) (f : Cpu → Cpu) (i : Instruction) (rep : i.rep ≡ true)
    (runs : (t : Cpu) → body t ≡ ok tt (f t))
    (cx_kept : (t : Cpu) → (f t).core.regs.cx ≡ t.core.regs.cx) where
  after_rep :
      (t : Cpu) → after_body i t ≡ ok (rep_done i (λ z. z) false (counted t).core) (counted t)
  unfolding after_body
  after_rep t = rw rep refl

  -- One round of the loop, and whether it is the last one.
  repeat-step :
      (fuel : ℕ) (s : Cpu) (done : Bool)
      → rep_done i (λ z. z) false (round f s).core ≡ done
      → repeat (suc fuel) body i s
        ≡ (if done then ok tt (round f s) else repeat fuel body i (round f s))
  unfolding repeat
  repeat-step fuel s true e = rw (◌>>=◌, runs s, after_rep (f s), e) refl
  repeat-step fuel s false e = rw (◌>>=◌, runs s, after_rep (f s), e) refl

  -- Under REP, a body that always succeeds and keeps CX, of an opcode that does not look at ZF, is
  -- repeated CX times, or 2^16 times if CX is 0, and then the loop ends, on any fuel of that many
  -- rounds.
  pub repeat-rounds :
      (fuel n : ℕ) (s : Cpu)
      → nonzero (bit_and i.metadata.mask uses_rep_zf) ≡ false
      → s.core.regs.cx < 2 ^ 16
      → count_of s.core.regs.cx ≡ n
      → n ≤ fuel
      → repeat fuel body i s ≡ ok tt (rounds n f s)
  repeat-rounds fuel zero s plain small count enough = absurd (no_rounds s.core.regs.cx count)
  repeat-rounds zero (suc n) s plain small count enough = absurd (omega arith)
  repeat-rounds (suc fuel) (suc n) s plain small count enough =
      let cx_is : (round f s).core.regs.cx ≡ u16 (s.core.regs.cx + 0xffff) =
        ground (arith, cx_kept s) in
      elim (Bool-cases ((round f s).core.regs.cx == 0)) [
        | inl last ↦
            let only : n ≡ 0 = ground (arith, cx_is) in
            rw only (repeat-step fuel s true (ground arith))
        | inr more ↦
            repeat-step fuel s false (ground arith)
            ∙ repeat-rounds fuel n (round f s) plain (omega (arith, cx_is)) (ground (arith, cx_is))
                (omega arith)
      ]

  -- Under REP, a body that always succeeds and keeps CX, of an opcode that looks at ZF, is done
  -- after one round if the round leaves ZF set, whatever CX is.
  pub repeat-once :
      (fuel : ℕ) (s : Cpu)
      → nonzero (bit_and i.metadata.mask uses_rep_zf) ≡ true
      → read zero_flag (f s).core.flags ≡ true
      → repeat (suc fuel) body i s ≡ ok tt (round f s)
  repeat-once fuel s looks zf = repeat-step fuel s true (ground arith)
