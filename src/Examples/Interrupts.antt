-- ===== src/Examples/Interrupts.antt =====
-- Interrupts, calls and the stack at work.
use door86c.Common.{◌≤◌, ◌≡◌, refl, arith, false}
use door86c.Memory.{Memory, abs_memory, word, byte, abs16}
use door86c.Memory
use door86c.Decoder.{Instruction, blank}
use door86c.Machine.{Cpu, dos_int21}
use door86c.Machine.Exec.{ok}
use door86c.Execute.Interrupt.{call_interrupt}
use door86c.Execute.Interrupt.Laws.{Room, Words, Vector, Saved}
use door86c.Execute.Interrupt.Calls.{
  entered, KeepsStack, call_interrupt-vector, call_interrupt-fail_safe, call_interrupt-handler,
}
use door86c.Examples.Data.{machine, booted, idle}

machine-Room : Room 6 machine
unfolding abs_memory
machine-Room = record { room = omega arith; sp_fits = omega arith; inside = omega arith }

booted-Room : Room 6 booted
unfolding abs_memory
booted-Room = record { room = omega arith; sp_fits = omega arith; inside = omega arith }

machine-Words : Words machine
machine-Words = record { ip_fits = omega arith; cs_fits = omega arith; flags_fit = omega arith }

booted-Words : Words booted
booted-Words = record { ip_fits = omega arith; cs_fits = omega arith; flags_fit = omega arith }

zero-Vector : Vector machine 0x21 0 0
unfolding Memory.get abs16 abs_memory
zero-Vector = record { off_is = refl; seg_is = refl }

default_21-Vector : Vector booted 0x21 0x21 0
unfolding Memory.get abs16 abs_memory
default_21-Vector = record { off_is = refl; seg_is = refl }

default_90-Vector : Vector booted 0x90 0x90 0
unfolding Memory.get abs16 abs_memory
default_90-Vector = record { off_is = refl; seg_is = refl }

call_interrupt-vector_example :
    (m : Memory) × Saved machine m
    × (call_interrupt idle 0x21 machine
        ≡ ok tt (record (entered machine m) {
          core = record (entered machine m).core {
            sregs = record machine.core.sregs { cs = 0 };
            ip = 0;
          };
        }))
call_interrupt-vector_example =
    call_interrupt-vector idle 0x21 0 0 machine machine-Room machine-Words zero-Vector refl

call_interrupt-fail_safe_example :
    (m : Memory) × Saved booted m
    × (call_interrupt idle 0x90 booted ≡ ok tt (record booted { memory = m; running = false }))
call_interrupt-fail_safe_example =
    call_interrupt-fail_safe idle 0x90 0x90 0 booted booted-Room booted-Words default_90-Vector refl
      refl

idle-KeepsStack : (t : Cpu) → (t' : Cpu) × (idle dos_int21 0x21 t ≡ ok tt t') × KeepsStack t t'
idle-KeepsStack t = (
  t,
  refl,
  record {
    ss_kept = refl;
    sp_kept = refl;
    above_kept = record { size_kept = refl; cells_kept = λ i h. refl };
  },
)

call_interrupt-handler_example :
    (m : Memory) × Saved booted m
    × ((t : Cpu) × (idle dos_int21 0x21 (entered booted m) ≡ ok tt t)
        × (call_interrupt idle 0x21 booted
            ≡ ok tt (record t {
              core = record t.core {
                regs = record t.core.regs { sp = 0xfffe };
                sregs = record t.core.sregs { cs = 0x0700 };
                flags = 0xf202;
                ip = 0x0100;
              };
            })))
call_interrupt-handler_example =
    call_interrupt-handler idle 0x21 0x21 0 booted booted-Room booted-Words default_21-Vector
      dos_int21 refl refl (λ m held. idle-KeepsStack (entered booted m))

call-Room : Room 2 machine
unfolding abs_memory
call-Room = record { room = omega arith; sp_fits = omega arith; inside = omega arith }

abbrev call_forward : Instruction
call_forward = record blank { op = 0xe8; imm16 = 0x20; len = 3 }

stack_inside : abs_memory 0x0700 0xfffe ≤ 0x100000
unfolding abs_memory
stack_inside = omega arith
