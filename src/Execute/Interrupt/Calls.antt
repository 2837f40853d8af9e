-- ===== src/Execute/Interrupt/Calls.antt =====
-- cpu/x86/cpu.cpp, call_interrupt: an installed vector, a registered function, and neither.
use door86c.Common.{
  ℕ, ◌+◌, ◌-◌, ◌≡◌, refl, arith, some, none, inl, inr, true, false, ◌||◌, not, nonzero, ◌==◌,
  if◌then◌else◌, Bool-cases,
}
use door86c.Memory.{Memory, abs_memory}
use door86c.Machine.{Cpu, Handler}
use door86c.Machine.Exec.{Step, ok, ◌>>=◌, ◌>>◌}
use door86c.Execute.Stack.Laws.{with_stack, Holds, SameFrom, Holds-SameFrom}
use door86c.Execute.Interrupt.{
  halt, iret, is_exit, fail_safe, handled_by, implicit_handler, call_interrupt,
}
use door86c.Execute.Interrupt.Laws.{
  Room, Words, Vector, Saved, saved, enter_interrupt-Saved, iret_lem,
}

-- The state in which the function or the code behind a vector begins.
abbrev pub entered : Cpu → Memory → Cpu
entered s m = with_stack s (s.core.regs.sp - 6) m

fail_safe_lem :
    (num : ℕ) (s : Cpu)
    → fail_safe num s ≡ ok tt (record s { running = if is_exit num then false else s.running })
unfolding fail_safe halt
fail_safe_lem num s = elim (Bool-cases (is_exit num)) [
  | inl exits ↦ rw exits refl
  | inr goes_on ↦ rw goes_on refl
]

implicit_handler-none :
    (handle : Handler → ℕ → Step) (num : ℕ) (s : Cpu)
    → s.int_handlers num ≡ none
    → implicit_handler handle num s ≡ (fail_safe num >> iret) s
unfolding implicit_handler handled_by
implicit_handler-none handle num s e = rw e refl

implicit_handler-some :
    (handle : Handler → ℕ → Step) (num : ℕ) (h : Handler) (s : Cpu)
    → s.int_handlers num ≡ some h
    → implicit_handler handle num s ≡ (handle h num >> iret) s
unfolding implicit_handler handled_by
implicit_handler-some handle num h s e = rw e refl

-- A registered function that comes back with the stack where it was: it keeps SS and SP, and the
-- memory from the top of the stack on.
pub record KeepsStack (t t' : Cpu) : Type 0 where
  pub ss_kept : t'.core.sregs.ss ≡ t.core.sregs.ss
  pub sp_kept : t'.core.regs.sp ≡ t.core.regs.sp
  pub above_kept : SameFrom (abs_memory t.core.sregs.ss t.core.regs.sp) t.memory t'.memory

module _ (handle : Handler → ℕ → Step) (num off seg : ℕ) (s : Cpu) (r : Room 6 s) (w : Words s)
    (v : Vector s num off seg) where
  -- With room for six bytes on the stack: if the table's entry is not `num` with segment 0, the
  -- interrupt goes to it: CS and IP are the
  -- entry, and the stack holds IP, CS and FLAGS, below which and above which memory is unchanged.
  -- FLAGS itself is unchanged: IF and TF stay set.
  pub call_interrupt-vector :
      (nonzero seg || not (off == num)) ≡ true
      → (m : Memory) × Saved s m
        × (call_interrupt handle num s
            ≡ ok tt (record (entered s m) {
              core = record (entered s m).core {
                sregs = record s.core.sregs { cs = seg };
                ip = off;
              };
            }))
  unfolding call_interrupt
  call_interrupt-vector installed =
      let (m, e, held) = enter_interrupt-Saved s num off seg r w v in
      (m, held, rw (e, ◌>>=◌, installed) refl)

  -- With room for six bytes on the stack, and neither a vector nor a registered function, the
  -- interrupt comes back to where it was: only
  -- the six bytes below the stack's top may have changed, and the machine stops running for the
  -- numbers that exit.
  pub call_interrupt-fail_safe :
      (nonzero seg || not (off == num)) ≡ false
      → s.int_handlers num ≡ none
      → (m : Memory) × Saved s m
        × (call_interrupt handle num s
            ≡ ok tt (record s { memory = m; running = if is_exit num then false else s.running }))
  unfolding call_interrupt
  call_interrupt-fail_safe default unhandled =
      let (m, e, held) = enter_interrupt-Saved s num off seg r w v in
      let sp = s.core.regs.sp in
      let stopped = record (entered s m) { running = if is_exit num then false else s.running } in
      let back : sp - 6 + 6 ≡ sp = omega (arith, r.room) in
      let home =
        iret_lem stopped s.core.ip s.core.sregs.cs s.core.flags held.held
          (omega (arith, r.room, r.sp_fits)) in
      (
        m,
        held,
        rw
            (
              e,
              ◌>>=◌,
              default,
              implicit_handler-none handle num (entered s m) unhandled,
              ◌>>=◌,
              fail_safe_lem num (entered s m),
              home,
              back,
            )
            refl,
      )

  -- With room for six bytes on the stack and no vector, a registered function that succeeds from
  -- each state that the interrupt can enter it in, and keeps the stack, is followed by a return to
  -- where the interrupt came from: IP, CS, SP and FLAGS are as before the interrupt, whatever the
  -- function did to them, and everything else is as the function left it.
  pub call_interrupt-handler :
      (h : Handler)
      → (nonzero seg || not (off == num)) ≡ false
      → s.int_handlers num ≡ some h
      → ((m : Memory)
          → Saved s m
          → (t : Cpu) × (handle h num (entered s m) ≡ ok tt t) × KeepsStack (entered s m) t)
      → (m : Memory) × Saved s m
        × ((t : Cpu) × (handle h num (entered s m) ≡ ok tt t)
            × (call_interrupt handle num s
                ≡ ok tt (record t {
                  core = record t.core {
                    regs = record t.core.regs { sp = s.core.regs.sp };
                    sregs = record t.core.sregs { cs = s.core.sregs.cs };
                    flags = s.core.flags;
                    ip = s.core.ip;
                  };
                })))
  unfolding call_interrupt
  call_interrupt-handler h default handled keeps =
      let (m, e, held) = enter_interrupt-Saved s num off seg r w v in
      let sp = s.core.regs.sp in
      let (t, e', k) = keeps m held in
      let below =
        Holds-SameFrom _ m t.memory s.core.sregs.ss (sp - 6) (saved s) k.above_kept (omega arith)
          held.held in
      let there : Holds t.memory t.core.sregs.ss t.core.regs.sp (saved s) =
        rw (k.ss_kept, k.sp_kept) below in
      let back : t.core.regs.sp + 6 ≡ sp = omega (arith, k.sp_kept, r.room) in
      let home =
        iret_lem t s.core.ip s.core.sregs.cs s.core.flags there (omega (arith, back, r.sp_fits)) in
      (
        m,
        held,
        (
          t,
          e',
          rw
              (
                e,
                ◌>>=◌,
                default,
                implicit_handler-some handle num h (entered s m) handled,
                ◌>>=◌,
                e',
                home,
                back,
              )
              refl,
        ),
      )
