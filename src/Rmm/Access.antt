-- ===== src/Rmm/Access.antt =====
-- cpu/x86/rmm.h, get and set: an operand gives back what was stored in it.
use door86c.Common.{ℕ, ◌+◌, ◌^◌, ◌≤◌, ◌<◌, ◌≡◌, ◌≢◌, ◌⊎◌, refl, arith, some}
use door86c.Memory.{Memory, Width, byte, word, abs_memory}
use door86c.Memory.Laws.{set-get, limit, bytes_of}
use door86c.Regs.Laws.{after, get16-set16, get8-set8, get16-set8, set16-some, set8-some}
use door86c.Regs.{Regs, get8, set8, get16, set16}
use door86c.Machine.{Cpu}
use door86c.Machine.Exec.{ok, set_regs}
use door86c.Machine.Exec.Laws.{memory_get_lem, memory_set_lem}
use door86c.Rmm.{Place, reg, sreg, local, mem, get, set}

-- The operands that a value can be kept in: the eight registers of either width, and memory.
abbrev pub Proper : Width → Memory → Place → Type 0
Proper w m (reg n) = n < 8
Proper w m (sreg n) = ⊥
Proper w m (local v) = ⊥
Proper w m (mem seg off) = abs_memory seg off + bytes_of w ≤ m.size

-- What a store into a place leaves of the registers and the memory: for a register, the others of its
-- width, after a byte also SP, BP, SI and DI, and the memory; for a place in memory, the registers
-- and all cells outside of it.
abbrev pub Others : Width → Place → Cpu → Cpu → Type 0
Others byte (reg n) s s' =
    ((m : ℕ) → m < 8 → m ≢ n → get8 s'.core.regs m ≡ get8 s.core.regs m)
    × ((m : ℕ) → 4 ≤ m → m < 8 → get16 s'.core.regs m ≡ get16 s.core.regs m)
    × (s'.memory ≡ s.memory)
Others word (reg n) s s' =
    ((m : ℕ) → m < 8 → m ≢ n → get16 s'.core.regs m ≡ get16 s.core.regs m) × (s'.memory ≡ s.memory)
Others w (sreg n) s s' = ⊥
Others w (local v) s s' = ⊥
Others w (mem seg off) s s' =
    (s'.core.regs ≡ s.core.regs)
    × ((i : ℕ)
        → (i < abs_memory seg off) ⊎ (abs_memory seg off + bytes_of w ≤ i)
        → s'.memory.cells i ≡ s.memory.cells i)

-- The place holds the value, and nothing else of the machine has changed.
pub record Stored (w : Width) (p : Place) (v : ℕ) (s s' : Cpu) : Type 0 where
  pub read_back : get w p s' ≡ ok v s'
  pub others_kept : Others w p s s'
  pub rest_kept : s' ≡ record s { core = record s.core { regs = s'.core.regs }; memory = s'.memory }
  pub sregs_kept : s'.core.sregs ≡ s.core.sregs
  pub flags_kept : s'.core.flags ≡ s.core.flags
  pub ip_kept : s'.core.ip ≡ s.core.ip
  pub size_kept : s'.memory.size ≡ s.memory.size

own_word : (r : Regs) (n v : ℕ) → n < 8 → get16 (after r (set16 r n v)) n ≡ some v
own_word r n v small = ground (arith, get16-set16 r n n v small small)

own_byte : (r : Regs) (n v : ℕ) → n < 8 → v < 2 ^ 8 → get8 (after r (set8 r n v)) n ≡ some v
own_byte r n v small v_fits = ground (arith, get8-set8 r n n v small small v_fits)

other_word :
    (r : Regs) (n m v : ℕ) → n < 8 → m < 8 → m ≢ n → get16 (after r (set16 r n v)) m ≡ get16 r m
other_word r n m v hn hm ne = ground (arith, get16-set16 r n m v hn hm)

other_byte :
    (r : Regs) (n m v : ℕ)
    → n < 8
    → m < 8
    → v < 2 ^ 8
    → m ≢ n
    → get8 (after r (set8 r n v)) m ≡ get8 r m
other_byte r n m v hn hm v_fits ne = ground (arith, get8-set8 r n m v hn hm v_fits)

-- A value that fits is stored in each of the eight registers of its width and in every place that
-- lies in memory, and then read back from there. The other registers stay (after a byte, the other
-- bytes, and SP, BP, SI and DI), so do all cells of memory outside of the place and the memory's
-- size, and everything else of the machine.
pub set-Stored :
    (w : Width) (p : Place) (v : ℕ) (s : Cpu)
    → v < limit w
    → Proper w s.memory p
    → (s' : Cpu) × (set w p v s ≡ ok tt s') × Stored w p v s s'
unfolding get set
set-Stored byte (reg n) v s v_fits proper =
    let r = after s.core.regs (set8 s.core.regs n v) in
    (
      set_regs r s,
      rw (set8-some s.core.regs n v proper) refl,
      record {
        read_back = rw (own_byte s.core.regs n v proper v_fits) refl;
        others_kept = (
          λ m small ne. other_byte s.core.regs n m v proper small v_fits ne,
          λ m four small. get16-set8 s.core.regs n m v proper four small,
          refl,
        );
        rest_kept = refl;
        sregs_kept = refl;
        flags_kept = refl;
        ip_kept = refl;
        size_kept = refl;
      },
    )
set-Stored word (reg n) v s v_fits proper =
    let r = after s.core.regs (set16 s.core.regs n v) in
    (
      set_regs r s,
      rw (set16-some s.core.regs n v proper) refl,
      record {
        read_back = rw (own_word s.core.regs n v proper) refl;
        others_kept = (λ m small ne. other_word s.core.regs n m v proper small ne, refl);
        rest_kept = refl;
        sregs_kept = refl;
        flags_kept = refl;
        ip_kept = refl;
        size_kept = refl;
      },
    )
set-Stored byte (mem seg off) v s v_fits proper =
    let (m, e, back, size, others) = set-get byte s.memory seg off v v_fits proper in
    (
      record s { memory = m },
      memory_set_lem byte s seg off v m e,
      record {
        read_back = memory_get_lem byte (record s { memory = m }) seg off v back;
        others_kept = (refl, others);
        rest_kept = refl;
        sregs_kept = refl;
        flags_kept = refl;
        ip_kept = refl;
        size_kept = size;
      },
    )
set-Stored word (mem seg off) v s v_fits proper =
    let (m, e, back, size, others) = set-get word s.memory seg off v v_fits proper in
    (
      record s { memory = m },
      memory_set_lem word s seg off v m e,
      record {
        read_back = memory_get_lem word (record s { memory = m }) seg off v back;
        others_kept = (refl, others);
        rest_kept = refl;
        sregs_kept = refl;
        flags_kept = refl;
        ip_kept = refl;
        size_kept = size;
      },
    )
set-Stored w (sreg n) v s v_fits proper = absurd proper
set-Stored w (local v') v s v_fits proper = absurd proper
