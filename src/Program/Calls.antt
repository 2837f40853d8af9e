-- ===== src/Program/Calls.antt =====
-- cpu/x86/cpu.cpp, call_interrupt, with dos/dos.cpp behind the interrupt 0x21.
use door86c.Common.{ℕ, ◌≡◌, refl, some, ap, ◌∙◌}
use door86c.Memory.{Memory}
use door86c.Machine.{Cpu, dos_int21}
use door86c.Machine.Exec.{Step, Outcome, ok}
use door86c.Dos.Services.{int21}
use door86c.Execute.Interrupt.{call_interrupt}
use door86c.Execute.Interrupt.Laws.{Room, Words, Vector, Saved}
use door86c.Execute.Interrupt.Calls.{entered, KeepsStack, call_interrupt-handler}
use door86c.Program.{handle}

ok_unique : (o : Outcome (Unit {0})) (t u : Cpu) → o ≡ ok tt t → o ≡ ok tt u → t ≡ u
ok_unique o t u e e' = cc

-- Where the registered function left the machine `u`, back in the code that was interrupted.
abbrev pub home : Cpu → Cpu → Cpu
home s u = record u {
  core = record u.core {
    regs = record u.core.regs { sp = s.core.regs.sp };
    sregs = record u.core.sregs { cs = s.core.sregs.cs };
    flags = s.core.flags;
    ip = s.core.ip;
  };
}

-- A call of DOS that does `f`.
pub call_interrupt-int21 :
    (debugger : ℕ → Step) (s : Cpu) (f : Cpu → Cpu)
    → Room 6 s
    → Words s
    → Vector s 0x21 0x21 0
    → s.int_handlers 0x21 ≡ some dos_int21
    → ((m : Memory)
        → Saved s m
        → (int21 (entered s m) ≡ ok tt (f (entered s m)))
          × KeepsStack (entered s m) (f (entered s m)))
    → (m : Memory) × Saved s m
      × (call_interrupt (handle debugger) 0x21 s ≡ ok tt (home s (f (entered s m))))
unfolding handle
call_interrupt-int21 debugger s f r w v registered does =
    let enters : (m : Memory)
        → Saved s m
        → (t : Cpu) × (handle debugger dos_int21 0x21 (entered s m) ≡ ok tt t)
          × KeepsStack (entered s m) t =
      λ m held. let (e, keeps) = does m held in (f (entered s m), e, keeps) in
    let (m, held, (t, e, done)) =
      call_interrupt-handler (handle debugger) 0x21 0x21 0 s r w v dos_int21 refl registered
        enters in
    let t_is : t ≡ f (entered s m) = ok_unique _ t _ e (does m held).0 in
    (m, held, done ∙ ap (λ u. ok tt (home s u)) t_is)
