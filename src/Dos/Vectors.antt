-- ===== src/Dos/Vectors.antt =====
-- dos/dos.cpp: reading and writing entries of the interrupt table through DOS.
use door86c.Common.{
  ℕ, ◌+◌, ◌*◌, ◌^◌, ◌<◌, ◌≤◌, ◌≡◌, ◌⊎◌, refl, arith, some, u16, inl, inr, subst, ◌∙◌,
}
use door86c.Regs.{low, high}
use door86c.Memory.{Memory, word, abs_memory, abs16}
use door86c.Memory
use door86c.Memory.Laws.{set-get}
use door86c.Machine.{Cpu}
use door86c.Machine.Exec.{ok, ◌>>=◌, ◌>>◌, memory_set}
use door86c.Machine.Exec.Laws.{memory_get_lem, memory_set_lem}
use door86c.Dos.Services.{get_interrupt_vector, set_interrupt_vector, int21}
use door86c.Execute.Interrupt.Laws.{Vector}

-- Four bytes: the words `off` and `seg` at two offsets of a segment.
pub record Pointer (m : Memory) (at_seg at_off next_off off seg : ℕ) : Type 0 where
  pub off_is : Memory.get word m at_seg at_off ≡ some off
  pub seg_is : Memory.get word m at_seg next_off ≡ some seg

-- `m'` is `m` but for the four bytes of a pointer.
pub record PointerStored (m m' : Memory) (seg off val_off val_seg : ℕ) : Type 0 where
  pub stored : Pointer m' seg off (off + 2) val_off val_seg
  pub size_same : m'.size ≡ m.size
  pub others_same :
      (i : ℕ) → (i < abs_memory seg off) ⊎ (abs_memory seg off + 4 ≤ i) → m'.cells i ≡ m.cells i

pub get_word-kept :
    (m m' : Memory) (seg off v : ℕ)
    → m'.size ≡ m.size
    → m'.cells (abs_memory seg off) ≡ m.cells (abs_memory seg off)
    → m'.cells (abs_memory seg off + 1) ≡ m.cells (abs_memory seg off + 1)
    → Memory.get word m seg off ≡ some v
    → Memory.get word m' seg off ≡ some v
unfolding Memory.get abs16
get_word-kept m m' seg off v size_same low_same high_same e = ground arith

store_pointer :
    (s : Cpu) (seg off next val_off val_seg : ℕ)
    → next ≡ off + 2
    → val_off < 2 ^ 16
    → val_seg < 2 ^ 16
    → abs_memory seg off + 4 ≤ s.memory.size
    → (m : Memory) × ((memory_set word seg off val_off >> memory_set word seg next val_seg) s
        ≡ ok tt (record s { memory = m }))
      × PointerStored s.memory m seg off val_off val_seg
unfolding abs_memory
store_pointer s seg off next val_off val_seg e h1 h2 inside =
    let (m1, e1, g1, z1, k1) = set-get word s.memory seg off val_off h1 (omega (arith, inside)) in
    let (m2, e2, g2, z2, k2) = set-get word m1 seg next val_seg h2 (omega (arith, e, inside, z1)) in
    (
      m2,
      rw
          (
            memory_set_lem word s seg off val_off m1 e1,
            ◌>>=◌,
            memory_set_lem word (record s { memory = m1 }) seg next val_seg m2 e2,
          )
          refl,
      record {
        stored = record {
          off_is =
              get_word-kept m1 m2 seg off val_off z2 (k2 _ (inl (omega (arith, e))))
                (k2 _ (inl (omega (arith, e)))) g1;
          seg_is = subst (λ t. Memory.get word m2 seg t ≡ some val_seg) e g2;
        };
        size_same = z2 ∙ z1;
        others_same = λ i h. elim h [
          | inl before ↦ k2 i (inl (omega (arith, e))) ∙ k1 i (inl before)
          | inr after ↦ k2 i (inr (omega (arith, e))) ∙ k1 i (inr (omega arith))
        ];
      },
    )

-- With the entry of the table for AL, of two words, and four bytes of memory at ES:BX, below the
-- segment's end: `get_interrupt_vector` puts the entry's two words there and changes nothing else,
-- ES and BX included.
pub get_interrupt_vector_lem :
    (s : Cpu) (off seg : ℕ)
    → Vector s (low s.core.regs.ax) off seg
    → off < 2 ^ 16
    → seg < 2 ^ 16
    → s.core.regs.bx + 2 < 2 ^ 16
    → abs_memory s.core.sregs.es s.core.regs.bx + 4 ≤ s.memory.size
    → (m : Memory) × (get_interrupt_vector s ≡ ok tt (record s { memory = m }))
      × PointerStored s.memory m s.core.sregs.es s.core.regs.bx off seg
unfolding get_interrupt_vector
get_interrupt_vector_lem s off seg v off_fits seg_fits below inside =
    let c = s.core in
    let n = low c.regs.ax in
    let (m, e, p) =
      store_pointer s c.sregs.es c.regs.bx (u16 (c.regs.bx + 2)) off seg (omega arith) off_fits
        seg_fits inside in
    (
      m,
      rw
          (
            memory_get_lem word s 0 (n * 4) off v.off_is,
            ◌>>=◌,
            memory_get_lem word s 0 (n * 4 + 2) seg v.seg_is,
          )
          e,
      p,
    )

-- The entry that is set is that of AH.
set_interrupt_vector_lem :
    (s : Cpu) (off seg : ℕ)
    → Pointer s.memory s.core.sregs.ds s.core.regs.dx (u16 (s.core.regs.dx + 2)) off seg
    → off < 2 ^ 16
    → seg < 2 ^ 16
    → abs_memory 0 (high s.core.regs.ax * 4) + 4 ≤ s.memory.size
    → (m : Memory) × (set_interrupt_vector s ≡ ok tt (record s { memory = m }))
      × PointerStored s.memory m 0 (high s.core.regs.ax * 4) off seg
unfolding set_interrupt_vector
set_interrupt_vector_lem s off seg p off_fits seg_fits inside =
    let c = s.core in
    let n = high c.regs.ax in
    let (m, e, stored) =
      store_pointer s 0 (n * 4) (n * 4 + 2) off seg refl off_fits seg_fits inside in
    (
      m,
      rw
          (
            memory_get_lem word s c.sregs.ds c.regs.dx off p.off_is,
            ◌>>=◌,
            memory_get_lem word s c.sregs.ds (u16 (c.regs.dx + 2)) seg p.seg_is,
          )
          e,
      stored,
    )

int21-25 : (s : Cpu) → high s.core.regs.ax ≡ 0x25 → int21 s ≡ set_interrupt_vector s
unfolding int21
int21-25 s ah = rw (◌>>=◌, ah) refl

-- With AH = 25h, two words at DS:DX (the offset of the second is cut to 16 bits), and the table in
-- memory: INT 21h stores the two words in the table's entry 25h, whatever interrupt AL names, and
-- changes nothing else.
pub int21-set_interrupt_vector :
    (s : Cpu) (off seg : ℕ)
    → high s.core.regs.ax ≡ 0x25
    → Pointer s.memory s.core.sregs.ds s.core.regs.dx (u16 (s.core.regs.dx + 2)) off seg
    → off < 2 ^ 16
    → seg < 2 ^ 16
    → 0x400 ≤ s.memory.size
    → (m : Memory) × (int21 s ≡ ok tt (record s { memory = m }))
      × PointerStored s.memory m 0 (0x25 * 4) off seg
unfolding abs_memory
int21-set_interrupt_vector s off seg ah p off_fits seg_fits inside =
    let (m, e, stored) =
      set_interrupt_vector_lem s off seg p off_fits seg_fits (omega (arith, ah, inside)) in
    (m, int21-25 s ah ∙ e, subst (λ n. PointerStored s.memory m 0 (n * 4) off seg) ah stored)
