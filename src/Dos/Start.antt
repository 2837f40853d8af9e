-- ===== src/Dos/Start.antt =====
-- dos/dos.cpp and bios/bios.cpp, the constructors: the interrupt table and the registered
-- functions with which the program begins.
use door86c.Common.{
  ℕ, zero, suc, ◌+◌, ◌*◌, ◌/◌, ◌%◌, ◌≤◌, ◌<◌, ◌≡◌, ◌≢◌, refl, arith, ◌&&◌, Option, none, some, leb,
  ltb, ◌==◌, if◌then◌else◌,
}
use door86c.Memory.{Memory, word, set_abs8, abs16, abs_memory}
use door86c.Memory
use door86c.Machine.{Cpu, Handler, bios_int10, dos_int20, dos_int21}
use door86c.Machine.Exec.{ok, ◌>>=◌, ◌>>◌}
use door86c.Dos.MemoryManager.{make_manager}
use door86c.Dos.Services.{set_vectors, make_dos}
use door86c.Bios.{make_bios}
use door86c.Execute.Interrupt.Laws.{Vector}

-- The first byte of each table entry from `i` up to `to` holds its number; other cells stay.
pub record VectorsSet (i to : ℕ) (m m' : Memory) : Type 0 where
  pub size_same : m'.size ≡ m.size
  pub cells_are :
      (k : ℕ)
      → m'.cells k ≡ (if (leb (i * 4) k && ltb k (to * 4)) && k % 4 == 0 then k / 4 else m.cells k)

one_vector :
    (i n : ℕ) (m m' : Memory)
    → VectorsSet
        (i + 1)
        (i + 1 + n)
        (record m { cells = λ k. if k == i * 4 then i else m.cells k })
        m'
    → VectorsSet i (i + suc n) m m'
one_vector i n m m' v = record {
  size_same = v.size_same;
  cells_are = λ k. ground (arith, v.cells_are k);
}

set_abs8_lem :
    (m : Memory) (loc v : ℕ)
    → loc < m.size
    → set_abs8 m loc v ≡ some (record m { cells = λ k. if k == loc then v else m.cells k })
unfolding set_abs8
set_abs8_lem m loc v h = ground arith

set_vectors_lem :
    (i n : ℕ) (s : Cpu)
    → (i + n) * 4 ≤ s.memory.size
    → (m : Memory) × (set_vectors i n s ≡ ok tt (record s { memory = m }))
      × VectorsSet i (i + n) s.memory m
unfolding set_vectors
set_vectors_lem i zero s room =
    (s.memory, refl, record { size_same = refl; cells_are = λ k. ground arith })
set_vectors_lem i (suc n) s room =
    let m1 : Memory = record s.memory { cells = λ k. if k == i * 4 then i else s.memory.cells k } in
    let stored = set_abs8_lem s.memory (i * 4) i (omega arith) in
    let (m, e, v) = set_vectors_lem (i + 1) n (record s { memory = m1 }) (omega arith) in
    (m, rw (stored, ◌>>=◌) e, one_vector i n s.memory m v)

VectorsSet-inside :
    (m m' : Memory) (k : ℕ)
    → VectorsSet 0 0xff m m'
    → k < 0xff * 4
    → m.cells k ≡ 0
    → m'.cells k ≡ (if k % 4 == 0 then k / 4 else 0)
VectorsSet-inside m m' k v h z = ground (arith, v.cells_are k)

VectorsSet-outside :
    (m m' : Memory) (k : ℕ) → VectorsSet 0 0xff m m' → 0xff * 4 ≤ k → m'.cells k ≡ m.cells k
VectorsSet-outside m m' k v h = ground (arith, v.cells_are k)

-- What a CPU needs for the interrupt `num` to go to the function registered for it.
pub record Started (s : Cpu) : Type 0 where
  pub vectors : (num : ℕ) → num < 0xff → Vector s num num 0
  pub table_is : (k : ℕ) → k < 0xff * 4 → s.memory.cells k ≡ (if k % 4 == 0 then k / 4 else 0)
  pub int10_is : s.int_handlers 0x10 ≡ some bios_int10
  pub int20_is : s.int_handlers 0x20 ≡ some dos_int20
  pub int21_is : s.int_handlers 0x21 ≡ some dos_int21
  pub mem_mgr_is : s.world.mem_mgr ≡ make_manager 0x0800 0x9fc0

VectorsSet-Vector :
    (s : Cpu) (m : Memory) (num : ℕ)
    → VectorsSet 0 0xff s.memory m
    → 0x400 ≤ s.memory.size
    → ((k : ℕ) → k < 0x400 → s.memory.cells k ≡ 0)
    → num < 0xff
    → Vector (record s { memory = m }) num num 0
unfolding Memory.get abs16 abs_memory
VectorsSet-Vector s m num v room zeros h = record {
  off_is =
      ground
        (arith, v.size_same, v.cells_are (num * 4), v.cells_are (num * 4 + 1), zeros (num * 4 + 1));
  seg_is = ground (
    arith,
    v.size_same,
    v.cells_are (num * 4 + 2),
    v.cells_are (num * 4 + 3),
    zeros (num * 4 + 2),
    zeros (num * 4 + 3),
  );
}

-- What the constructors leave as it is.
pub record Kept (s t : Cpu) : Type 0 where
  pub size_same : t.memory.size ≡ s.memory.size
  pub cells_same : (k : ℕ) → 0xff * 4 ≤ k → t.memory.cells k ≡ s.memory.cells k
  pub handlers_same :
      (num : ℕ) → num ≢ 0x10 → num ≢ 0x20 → num ≢ 0x21 → t.int_handlers num ≡ s.int_handlers num
  pub rest_same : t ≡ record s {
    memory = t.memory;
    int_handlers = t.int_handlers;
    world = record s.world { mem_mgr = t.world.mem_mgr };
  }

unregistered :
    (num : ℕ) (h : Option Handler)
    → num ≢ 0x10
    → num ≢ 0x20
    → num ≢ 0x21
    → (if num == 0x21
        then some dos_int21
        else if num == 0x20
        then some dos_int20
        else if num == 0x10
        then some bios_int10
        else h)
      ≡ h
unregistered num h no10 no20 no21 = ground arith

-- With no function registered yet, the first KB of memory zero, and memory that large: the
-- constructors of `Bios` and of `Dos` succeed. Every entry of the interrupt table below 0xff is
-- then the default one, byte for byte; the three functions are registered for 10h, 20h and 21h; the
-- memory manager has its one free block. All other cells, the size of memory, the other registered
-- functions and the rest of the CPU and of its world are as before.
pub make_bios-make_dos :
    (s : Cpu)
    → ((num : ℕ) → s.int_handlers num ≡ none)
    → 0x400 ≤ s.memory.size
    → ((k : ℕ) → k < 0x400 → s.memory.cells k ≡ 0)
    → (t : Cpu) × ((make_bios >> make_dos) s ≡ ok tt t) × Started t × Kept s t
unfolding make_bios make_dos
make_bios-make_dos s fresh room zeros =
    let s1 : Cpu = record s {
      int_handlers = λ n.
          if n == 0x21
          then some dos_int21
          else if n == 0x20
          then some dos_int20
          else if n == 0x10
          then some bios_int10
          else s.int_handlers n;
      world = record s.world { mem_mgr = make_manager 0x0800 0x9fc0 };
    } in
    let (m, e, v) = set_vectors_lem 0 0xff s1 (omega arith) in
    (
      record s1 { memory = m },
      rw (fresh 0x10, fresh 0x20, fresh 0x21, ◌>>=◌) e,
      record {
        vectors = λ num h. VectorsSet-Vector s1 m num v room zeros h;
        table_is = λ k h. VectorsSet-inside s.memory m k v h (zeros k (omega arith));
        int10_is = refl;
        int20_is = refl;
        int21_is = refl;
        mem_mgr_is = refl;
      },
      record {
        size_same = v.size_same;
        cells_same = λ k h. VectorsSet-outside s.memory m k v h;
        handlers_same = λ num no10 no20 no21. unregistered num (s.int_handlers num) no10 no20 no21;
        rest_same = refl;
      },
    )
