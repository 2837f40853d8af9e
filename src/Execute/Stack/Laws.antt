-- ===== src/Execute/Stack/Laws.antt =====
-- cpu/x86/cpu.cpp, push and pop: the stack gives back what was put on it.
use door86c.Common.{
  ℕ, ◌+◌, ◌-◌, ◌*◌, ◌^◌, ◌≤◌, ◌<◌, ◌≡◌, refl, arith, u16, List, [], ◌∷◌, some, ◌⊎◌, inl, inr,
}
use door86c.Memory.{Memory, word, byte, abs_memory}
use door86c.Memory
use door86c.Memory.Laws.{set-get}
use door86c.Machine.{Cpu}
use door86c.Machine.Exec.{ok, ◌>>=◌, set_regs}
use door86c.Machine.Exec.Laws.{memory_get_lem, memory_set_lem}
use door86c.Execute.Stack.{push, pop}

-- The state with another stack pointer and other memory.
abbrev pub with_stack : Cpu → ℕ → Memory → Cpu
with_stack s sp m = record (set_regs (record s.core.regs { sp = sp }) s) { memory = m }

-- The words that lie on the stack from offset `sp` up, the top first.
abbrev pub Holds : Memory → ℕ → ℕ → List ℕ → Type 0
Holds m ss sp [] = Unit {0}
Holds m ss sp (v ∷ vs) = (Memory.get word m ss sp ≡ some v) × Holds m ss (sp + 2) vs

-- The bytes at `lo` and after it are the same in both memories, which are equally large.
pub record SameFrom (lo : ℕ) (m m' : Memory) : Type 0 where
  pub size_kept : m'.size ≡ m.size
  pub cells_kept : (i : ℕ) → lo ≤ i → m'.cells i ≡ m.cells i

get-SameFrom :
    (lo : ℕ) (m m' : Memory) (ss sp v : ℕ)
    → SameFrom lo m m'
    → lo ≤ abs_memory ss sp
    → Memory.get word m ss sp ≡ some v
    → Memory.get word m' ss sp ≡ some v
unfolding Memory.get abs_memory
get-SameFrom lo m m' ss sp v same above e = ground (
  arith,
  same.size_kept,
  same.cells_kept (ss * 0x10 + sp) above,
  same.cells_kept (ss * 0x10 + sp + 1) (omega arith),
)

pub Holds-SameFrom :
    (lo : ℕ) (m m' : Memory) (ss sp : ℕ) (vs : List ℕ)
    → SameFrom lo m m'
    → lo ≤ abs_memory ss sp
    → Holds m ss sp vs
    → Holds m' ss sp vs
unfolding abs_memory
Holds-SameFrom lo m m' ss sp [] same above h = tt
Holds-SameFrom lo m m' ss sp (v ∷ vs) same above h = (
  get-SameFrom lo m m' ss sp v same above h.0,
  Holds-SameFrom lo m m' ss (sp + 2) vs same (omega arith) h.1,
)

-- The memory between two stack pointers is all that differs.
pub record SameOutside (from to : ℕ) (m m' : Memory) : Type 0 where
  pub size_same : m'.size ≡ m.size
  pub cells_same : (i : ℕ) → (i < from) ⊎ (to ≤ i) → m'.cells i ≡ m.cells i

-- With room for it, a word is pushed two bytes below the top, on the words that were there, and
-- nothing else in memory changes.
pub push-Holds :
    (s : Cpu) (v : ℕ) (vs : List ℕ)
    → v < 2 ^ 16
    → 2 ≤ s.core.regs.sp
    → s.core.regs.sp < 2 ^ 16
    → abs_memory s.core.sregs.ss s.core.regs.sp ≤ s.memory.size
    → Holds s.memory s.core.sregs.ss s.core.regs.sp vs
    → (m : Memory) × (push v s ≡ ok tt (with_stack s (s.core.regs.sp - 2) m))
      × Holds m s.core.sregs.ss (s.core.regs.sp - 2) (v ∷ vs)
      × SameOutside
          (abs_memory s.core.sregs.ss (s.core.regs.sp - 2))
          (abs_memory s.core.sregs.ss s.core.regs.sp)
          s.memory
          m
unfolding push abs_memory
push-Holds s v vs v_fits room sp_fits inside holds =
    let ss = s.core.sregs.ss in
    let sp = s.core.regs.sp in
    let (m, e, back, size, others) = set-get word s.memory ss (sp - 2) v v_fits (omega arith) in
    let new_sp : u16 (sp + 2 ^ 16 - 2) ≡ sp - 2 = omega arith in
    let lower = set_regs (record s.core.regs { sp = sp - 2 }) s in
    let same_above : SameFrom (ss * 0x10 + sp) s.memory m = record {
      size_kept = size;
      cells_kept = λ i h. others i (inr (omega arith));
    } in
    let next : sp - 2 + 2 ≡ sp = omega arith in
    (
      m,
      rw new_sp (memory_set_lem word lower ss (sp - 2) v m e),
      (
        back,
        rw next
            (Holds-SameFrom (ss * 0x10 + sp) s.memory m ss sp vs same_above (omega arith) holds),
      ),
      record {
        size_same = size;
        cells_same = λ i h. elim h [
          | inl below ↦ others i (inl below)
          | inr above ↦ others i (inr (omega arith))
        ];
      },
    )

-- A pop takes the top word and uncovers the one below it.
pub pop-Holds :
    (s : Cpu) (v : ℕ) (vs : List ℕ)
    → Holds s.memory s.core.sregs.ss s.core.regs.sp (v ∷ vs)
    → s.core.regs.sp + 2 < 2 ^ 16
    → pop s ≡ ok v (with_stack s (s.core.regs.sp + 2) s.memory)
unfolding pop
pop-Holds s v vs holds room =
    let next : u16 (s.core.regs.sp + 2) ≡ s.core.regs.sp + 2 = omega arith in
    let top = memory_get_lem word s s.core.sregs.ss s.core.regs.sp v holds.0 in
    rw (top, ◌>>=◌, next) refl
