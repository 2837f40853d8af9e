-- ===== src/Program/Exit.antt =====
-- cpu/x86/cpu.cpp with dos/dos.cpp: how a program ends.
use door86c.Common.{ℕ, suc, ◌+◌, ◌*◌, ◌≡◌, refl, arith, true, false, some, u16, ◌∙◌, ◌⊎◌, inl, inr}
use door86c.Regs.{high}
use door86c.Memory.{Memory}
use door86c.Machine.{Cpu, dos_int21}
use door86c.Machine.Exec.{Step, ok, ◌>>=◌, set_ip}
use door86c.Dos.Services.{int21}
use door86c.Decoder.Stages.{Gives}
use door86c.Execute.Interrupt.{halt, call_interrupt}
use door86c.Execute.Interrupt.Laws.{Room, Words, Vector}
use door86c.Execute.Interrupt.Calls.{entered, KeepsStack}
use door86c.Execute.Run.{fetch_at, run}
use door86c.Execute.Run.Int.{int_bytes, run-int, run-stopped}
use door86c.Program.{handle}
use door86c.Program.Calls.{call_interrupt-int21}

abbrev stopped : Cpu → Cpu
stopped s = record s { running = false }

-- The two functions of DOS that end a program.
abbrev pub IsExit : ℕ → Type 0
IsExit ah = (ah ≡ 0x00) ⊎ (ah ≡ 0x4c)

int21-exit : (s : Cpu) → IsExit (high s.core.regs.ax) → int21 s ≡ ok tt (stopped s)
unfolding int21 halt
int21-exit s (inl terminate) = rw (◌>>=◌, terminate) refl
int21-exit s (inr terminate) = rw (◌>>=◌, terminate) refl

stopped-KeepsStack : (s : Cpu) → KeepsStack s (stopped s)
stopped-KeepsStack s = record {
  ss_kept = refl;
  sp_kept = refl;
  above_kept = record { size_kept = refl; cells_kept = λ i h. refl };
}

-- The state at the end: registers as before, but IP behind the instruction.
pub record Ended (s t : Cpu) : Type 0 where
  pub not_running : t.running ≡ false
  pub core_is : t.core ≡ record s.core { ip = u16 (s.core.ip + 2) }
  pub world_same : t.world ≡ s.world

module _ (debugger : ℕ → Step) where
  call_interrupt-exit :
      (s : Cpu)
      → Room 6 s
      → Words s
      → Vector s 0x21 0x21 0
      → s.int_handlers 0x21 ≡ some dos_int21
      → IsExit (high s.core.regs.ax)
      → (m : Memory) × (call_interrupt (handle debugger) 0x21 s
          ≡ ok tt (stopped (record s { memory = m })))
  call_interrupt-exit s r w v registered exits =
      let (m, held, e) =
        call_interrupt-int21 debugger s stopped r w v registered
          (λ m held. (int21-exit (entered s m) exits, stopped-KeepsStack (entered s m))) in
      (m, e)

  -- A running machine without a debugger whose next instruction is INT 21h with AH = 00h or 4Ch,
  -- with room for six bytes on the stack, CS and FLAGS words, the default entry in the interrupt
  -- table, and DOS registered for it: the main loop ends within two rounds and returns true. The machine is then stopped, and registers, FLAGS and streams are as before it,
  -- but for IP.
  pub run-exit :
      (rounds fuel : ℕ) (s : Cpu)
      → s.running ≡ true
      → s.debugger_attached ≡ false
      → Gives (fetch_at s.memory (s.core.sregs.cs * 0x10 + s.core.ip)) 0 (int_bytes 0x21)
      → Room 6 s
      → Words s
      → Vector s 0x21 0x21 0
      → s.int_handlers 0x21 ≡ some dos_int21
      → IsExit (high s.core.regs.ax)
      → (t : Cpu) × (run (handle debugger) (suc rounds) (2 + fuel) s ≡ ok true t) × Ended s t
  run-exit rounds fuel s running alone g r w v registered exits =
      let s1 = set_ip (u16 (s.core.ip + 2)) s in
      let (m, e) =
        call_interrupt-exit s1 (record { room = r.room; sp_fits = r.sp_fits; inside = r.inside })
          (record { ip_fits = omega arith; cs_fits = w.cs_fits; flags_fit = w.flags_fit })
          (record { off_is = v.off_is; seg_is = v.seg_is }) registered exits in
      let t = stopped (record s1 { memory = m }) in
      let two : 2 + fuel ≡ suc (suc fuel) = omega arith in
      (
        t,
        rw two (
            run-int (handle debugger) rounds 0x21 (suc fuel) s t running alone g e
            ∙ run-stopped (handle debugger) (suc rounds) 0x21 fuel t refl),
        record { not_running = refl; core_is = refl; world_same = refl },
      )
