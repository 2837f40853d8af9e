-- ===== src/Program/Memory.antt =====
-- dos/dos.cpp, allocate and free, called as interrupts: INT 21h with AH = 48h and 49h.
use door86c.Common.{
  ℕ, ◌+◌, ◌≡◌, refl, true, false, Bool, not, inl, inr, Option-cases, some, none, Option, u16, ◌<◌,
  ◌^◌, subst, arith, ◌∙◌,
}
use door86c.Regs.{high}
use door86c.Flags.{carry, read, write}
use door86c.Flags.Laws.{read-write}
use door86c.Memory.{Memory}
use door86c.Machine.{Cpu, dos_int21}
use door86c.Machine.Exec.{Step, ok, ◌>>=◌, ◌>>◌, put_regs}
use door86c.Dos.MemoryManager.{DosMemoryManager, free_block}
use door86c.Dos.MemoryManager
use door86c.Dos.MemoryManager.Leases.{Leased, allocate-Leased}
use door86c.Dos.MemoryManager.Freeing.{Freed, free_block-Freed, free_block-leased}
use door86c.Dos.Services.{int21}
use door86c.Dos.Services
use door86c.Execute.Interrupt.{call_interrupt}
use door86c.Execute.Interrupt.Laws.{Room, Words, Vector, Saved}
use door86c.Execute.Interrupt.Calls.{entered}
use door86c.Program.{handle}
use door86c.Program.Calls.{call_interrupt-int21}

abbrev pub granted_ax : Option ℕ → ℕ → ℕ
granted_ax none ax = ax
granted_ax (some start) ax = u16 (start + 1)

abbrev refused : Option ℕ → Bool
refused none = true
refused (some start) = false

abbrev managed : DosMemoryManager → Cpu → Cpu
managed m s = record s { world = record s.world { mem_mgr = m } }

-- The result of the manager as registers: AX and CF.
abbrev answered : Option ℕ → Cpu → Cpu
answered o s = record s {
  core = record s.core {
    regs = record s.core.regs { ax = granted_ax o s.core.regs.ax };
    flags = write carry (refused o) s.core.flags;
  };
}

abbrev pub requested : Cpu → DosMemoryManager × Option ℕ
requested s = MemoryManager.allocate s.world.mem_mgr (u16 (s.core.regs.bx + 1))

allocate_lem :
    (s : Cpu) → Services.allocate s ≡ ok tt (answered (requested s).1 (managed (requested s).0 s))
unfolding Services.allocate
allocate_lem s = elim (Option-cases (requested s).1) [
  | inl refusal ↦ rw (◌>>=◌, refusal) refl
  | inr (start, grant) ↦ rw (◌>>=◌, grant) refl
]

int21-48 : (s : Cpu) → high s.core.regs.ax ≡ 0x48 → int21 s ≡ Services.allocate s
unfolding int21
int21-48 s ah = rw (◌>>=◌, ah) refl

abbrev returned_block : Cpu → DosMemoryManager × Bool
returned_block s = free_block s.world.mem_mgr (u16 (s.core.regs.bx + 0xffff))

abbrev acknowledged : Bool → Cpu → Cpu
acknowledged success s = record s {
  core = record s.core { flags = write carry (not success) s.core.flags };
}

free_lem :
    (s : Cpu)
    → Services.free s ≡ ok tt (acknowledged (returned_block s).1 (managed (returned_block s).0 s))
unfolding Services.free
free_lem s = refl

int21-49 : (s : Cpu) → high s.core.regs.ax ≡ 0x49 → int21 s ≡ Services.free s
unfolding int21
int21-49 s ah = rw (◌>>=◌, ah) refl

module _ (debugger : ℕ → Step) (s : Cpu) (r : Room 6 s) (w : Words s) (v : Vector s 0x21 0x21 0)
    (registered : s.int_handlers 0x21 ≡ some dos_int21) where
  -- INT 21h with AH = 48h, with room for six bytes on the stack, IP, CS and FLAGS words, the default
  -- entry in the interrupt table, and DOS registered for it: it asks the memory
  -- manager for BX + 1 paragraphs, which leases a block out exactly if one is free that is large
  -- enough. AX is then the segment behind the block's first paragraph, else it is as before; every
  -- other register is as before in both cases, FLAGS with its carry included.
  pub call_interrupt-allocate :
      high s.core.regs.ax ≡ 0x48
      → (m : Memory) × Saved s m
        × (call_interrupt (handle debugger) 0x21 s
            ≡ ok tt (record s {
              core = record s.core {
                regs = record s.core.regs { ax = granted_ax (requested s).1 s.core.regs.ax };
              };
              memory = m;
              world = record s.world { mem_mgr = (requested s).0 };
            }))
        × Leased (u16 (s.core.regs.bx + 1)) s.world.mem_mgr (requested s)
  call_interrupt-allocate ah =
      let (m, held, e) =
        call_interrupt-int21 debugger s (λ t. answered (requested t).1 (managed (requested t).0 t))
          r w v registered
          (λ m held. (
            int21-48 (entered s m) ah ∙ allocate_lem (entered s m),
            record {
              ss_kept = refl;
              sp_kept = refl;
              above_kept = record { size_kept = refl; cells_kept = λ i h. refl };
            },
          )) in
      (m, held, e, allocate-Leased s.world.mem_mgr (u16 (s.core.regs.bx + 1)))

  -- INT 21h with AH = 49h, under the same conditions: the block whose first paragraph is at
  -- segment BX - 1 is given back, exactly if it is leased; no register changes in either case.
  pub call_interrupt-free :
      high s.core.regs.ax ≡ 0x49
      → (m : Memory) × Saved s m
        × (call_interrupt (handle debugger) 0x21 s
            ≡ ok tt (record s {
              memory = m;
              world = record s.world { mem_mgr = (returned_block s).0 };
            }))
        × Freed (u16 (s.core.regs.bx + 0xffff)) s.world.mem_mgr (returned_block s)
  call_interrupt-free ah =
      let (m, held, e) =
        call_interrupt-int21 debugger s
          (λ t. acknowledged (returned_block t).1 (managed (returned_block t).0 t)) r w v registered
          (λ m held. (
            int21-49 (entered s m) ah ∙ free_lem (entered s m),
            record {
              ss_kept = refl;
              sp_kept = refl;
              above_kept = record { size_kept = refl; cells_kept = λ i h. refl };
            },
          )) in
      (m, held, e, free_block-Freed s.world.mem_mgr (u16 (s.core.regs.bx + 0xffff)))

lease_given :
    (segs : ℕ) (m : DosMemoryManager) (r : DosMemoryManager × Option ℕ) (start : ℕ)
    → Leased segs m r
    → r.1 ≡ some start
    → (free_block r.0 start).1 ≡ true
lease_given segs m (m', none) start l e = cc
lease_given segs m (m', some first) start (fits, size, i, ge, le) e =
    let same : first ≡ start = cc in
    subst (λ t. (free_block m' t).1 ≡ true) same (free_block-leased m' first size _ i)

-- If DOS's `allocate` gets a block from the memory manager, at a 16-bit segment, then `free` with
-- BX = the AX that it returned succeeds: the carry is clear after it.
pub allocate-free :
    (s : Cpu) (start : ℕ)
    → (requested s).1 ≡ some start
    → start < 2 ^ 16
    → (t : Cpu) × ((Services.allocate >> put_regs (λ r. record r { bx = r.ax }) >> Services.free) s
        ≡ ok tt t)
      × (read carry t.core.flags ≡ false)
allocate-free s start granted fits =
    let m = (requested s).0 in
    let s1 = answered (some start) (managed m s) in
    let s2 = record s1 {
      core = record s1.core { regs = record s1.core.regs { bx = u16 (start + 1) } };
    } in
    let back : u16 (u16 (start + 1) + 0xffff) ≡ start = omega arith in
    let success : (returned_block s2).1 ≡ true = rw back (
      lease_given (u16 (s.core.regs.bx + 1)) s.world.mem_mgr (requested s) start
        (allocate-Leased s.world.mem_mgr (u16 (s.core.regs.bx + 1))) granted) in
    (
      acknowledged (returned_block s2).1 (managed (returned_block s2).0 s2),
      rw (◌>>◌, ◌>>=◌, allocate_lem s, granted) (free_lem s2),
      rw success (read-write carry carry false (write carry false s.core.flags)),
    )
