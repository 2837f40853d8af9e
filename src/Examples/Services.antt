-- ===== src/Examples/Services.antt =====
-- The functions of DOS at work.
use door86c.Common.{◌+◌, ◌≡◌, refl, arith, false, some, ℕ, [], ◌∷◌, ◌==◌, u16, if◌then◌else◌}
use door86c.Flags.{carry, read}
use door86c.Memory.{Memory, abs_memory, abs8, abs16}
use door86c.Memory
use door86c.Machine.{Cpu}
use door86c.Machine.Exec.{Step, ok, ◌>>◌, put_regs}
use door86c.Bios.{make_bios}
use door86c.Dos.MemoryManager.{free, first, make_block, allocate}
use door86c.Dos.MemoryManager.Leases.{Leased}
use door86c.Dos.Services.{display_string, int21, make_dos}
use door86c.Dos.Services
use door86c.Dos.Start.{Started, Kept, make_bios-make_dos}
use door86c.Dos.Console.{printed, Terminated, display_string_lem}
use door86c.Dos.Vectors.{Pointer}
use door86c.Execute.Interrupt.{call_interrupt}
use door86c.Execute.Interrupt.Laws.{Room, Words, Vector, Saved}
use door86c.Program.{handle}
use door86c.Program.Memory.{granted_ax, requested, call_interrupt-allocate, allocate-free}
use door86c.Examples.Data.{machine, booted, registers}

make_bios-make_dos_example :
    (t : Cpu) × ((make_bios >> make_dos) machine ≡ ok tt t) × Started t × Kept machine t
make_bios-make_dos_example = make_bios-make_dos machine (λ num. refl) (omega arith) (λ k h. refl)

-- "Hi$" at DS:DX.
abbrev greeting : Cpu
greeting = record machine {
  memory = record {
    size = 0x100000;
    cells = λ i.
        if i == 0x7000 then 0x48 else if i == 0x7001 then 0x69 else if i == 0x7002 then 0x24 else 0;
  };
}

greeting-Terminated : Terminated greeting.memory 0x0700 0 (0x48 ∷ 0x69 ∷ [])
unfolding Memory.get abs8 abs_memory
greeting-Terminated = (refl, refl, (refl, refl, (0x24, refl, refl)))

display_string_lem_example : display_string greeting ≡ ok tt (printed greeting (0x48 ∷ 0x69 ∷ []))
display_string_lem_example =
    display_string_lem greeting (0x48 ∷ 0x69 ∷ []) (omega arith) greeting-Terminated

-- SET INTERRUPT VECTOR for 0x1c, with AH = 25h.
abbrev setting : Cpu
setting = record booted { core = record booted.core { regs = record registers { ax = 0x251c } } }

setting-Pointer : Pointer setting.memory 0x0700 0 (u16 (0 + 2)) 0 0
unfolding Memory.get abs16 abs_memory
setting-Pointer = record { off_is = refl; seg_is = refl }

-- A program asks for 16 paragraphs.
abbrev asking : Cpu
asking = record booted {
  core = record booted.core { regs = record registers { ax = 0x4800; bx = 0x10 } };
  world = record booted.world {
    mem_mgr = record {
      start_seg = 0x1000;
      end_seg = 0x9000;
      fit = first;
      blocks = (make_block 0x1000 0x8000 free) ∷ [];
    };
  };
}

asking-Room : Room 6 asking
unfolding abs_memory
asking-Room = record { room = omega arith; sp_fits = omega arith; inside = omega arith }

asking-Words : Words asking
asking-Words = record { ip_fits = omega arith; cs_fits = omega arith; flags_fit = omega arith }

asking-Vector : Vector asking 0x21 0x21 0
unfolding Memory.get abs16 abs_memory
asking-Vector = record { off_is = refl; seg_is = refl }

abbrev pub no_debugger : ℕ → Step
no_debugger num s = ok tt s

call_interrupt-allocate_example :
    (m : Memory) × Saved asking m
    × (call_interrupt (handle no_debugger) 0x21 asking
        ≡ ok tt (record asking {
          core = record asking.core {
            regs = record asking.core.regs { ax = granted_ax (requested asking).1 0x4800 };
          };
          memory = m;
          world = record asking.world { mem_mgr = (requested asking).0 };
        }))
    × Leased 0x11 asking.world.mem_mgr (requested asking)
call_interrupt-allocate_example =
    call_interrupt-allocate no_debugger asking asking-Room asking-Words asking-Vector refl refl

asking-granted : (requested asking).1 ≡ some 0x1000
unfolding allocate
asking-granted = refl

allocate-free_example :
    (t : Cpu) × ((Services.allocate >> put_regs (λ r. record r { bx = r.ax }) >> Services.free)
        asking
      ≡ ok tt t)
    × (read carry t.core.flags ≡ false)
allocate-free_example = allocate-free asking 0x1000 asking-granted (omega arith)
