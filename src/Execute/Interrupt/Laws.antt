-- ===== src/Execute/Interrupt/Laws.antt =====
-- cpu/x86/cpu.cpp, call_interrupt and IRET: where an interrupt goes, and how it comes back.
use door86c.Common.{
  ℕ, ◌+◌, ◌-◌, ◌*◌, ◌^◌, ◌≤◌, ◌<◌, ◌≡◌, refl, arith, List, [], ◌∷◌, some, inl, inr, subst, ◌∙◌,
}
use door86c.Memory.{Memory, word, byte, abs_memory}
use door86c.Memory
use door86c.Machine.{Cpu}
use door86c.Machine.Exec.{ok, ◌>>=◌}
use door86c.Execute.Stack.Laws.{with_stack, Holds, SameOutside, push-Holds, pop-Holds}
use door86c.Machine.Exec.Laws.{memory_get_lem}
use door86c.Execute.Interrupt.{ret_far, iret, enter_interrupt}

-- Room for `n` bytes on the stack.
pub record Room (n : ℕ) (s : Cpu) : Type 0 where
  pub room : n ≤ s.core.regs.sp
  pub sp_fits : s.core.regs.sp < 2 ^ 16
  pub inside : abs_memory s.core.sregs.ss s.core.regs.sp ≤ s.memory.size

-- What an interrupt saves are 16-bit words.
pub record Words (s : Cpu) : Type 0 where
  pub ip_fits : s.core.ip < 2 ^ 16
  pub cs_fits : s.core.sregs.cs < 2 ^ 16
  pub flags_fit : s.core.flags < 2 ^ 16

-- The entry of the interrupt table.
pub record Vector (s : Cpu) (num off seg : ℕ) : Type 0 where
  pub off_is : Memory.get word s.memory 0 (num * 4) ≡ some off
  pub seg_is : Memory.get word s.memory 0 (num * 4 + 2) ≡ some seg

abbrev pub saved : Cpu → List ℕ
saved s = s.core.ip ∷ s.core.sregs.cs ∷ s.core.flags ∷ []

-- The memory `m` is that of `s` with IP, CS and FLAGS on the stack below its top.
pub record Saved (s : Cpu) (m : Memory) : Type 0 where
  pub held : Holds m s.core.sregs.ss (s.core.regs.sp - 6) (saved s)
  pub others_same :
      SameOutside
        (abs_memory s.core.sregs.ss (s.core.regs.sp - 6))
        (abs_memory s.core.sregs.ss s.core.regs.sp)
        s.memory
        m

SameOutside-trans :
    (a b c : ℕ) (m m' m'' : Memory)
    → a ≤ b
    → b ≤ c
    → SameOutside b c m m'
    → SameOutside a b m' m''
    → SameOutside a c m m''
SameOutside-trans a b c m m' m'' ab bc f g = record {
  size_same = g.size_same ∙ f.size_same;
  cells_same = λ i h. elim h [
    | inl below ↦ g.cells_same i (inl below) ∙ f.cells_same i (inl (omega arith))
    | inr above ↦ g.cells_same i (inr (omega arith)) ∙ f.cells_same i (inr above)
  ];
}

pub enter_interrupt-Saved :
    (s : Cpu) (num off seg : ℕ)
    → Room 6 s
    → Words s
    → Vector s num off seg
    → (m : Memory) × (enter_interrupt num s ≡ ok (off, seg) (with_stack s (s.core.regs.sp - 6) m))
      × Saved s m
unfolding enter_interrupt abs_memory
enter_interrupt-Saved s num off seg r w v =
    let sp = s.core.regs.sp in
    let (m1, e1, h1, o1) =
      push-Holds s s.core.flags [] w.flags_fit (omega (arith, r.room)) r.sp_fits r.inside tt in
    let s1 = with_stack s (sp - 2) m1 in
    let (m2, e2, h2, o2) =
      push-Holds s1 s.core.sregs.cs (s.core.flags ∷ []) w.cs_fits (omega (arith, r.room))
        (omega (arith, r.sp_fits)) (omega (arith, r.inside, o1.size_same)) h1 in
    let s2 = with_stack s (sp - 2 - 2) m2 in
    let (m3, e3, h3, o3) =
      push-Holds s2 s.core.ip (s.core.sregs.cs ∷ s.core.flags ∷ []) w.ip_fits
        (omega (arith, r.room)) (omega (arith, r.sp_fits))
        (omega (arith, r.inside, o1.size_same, o2.size_same)) h2 in
    let below : sp - 2 - 2 - 2 ≡ sp - 6 = omega arith in
    let ss = s.core.sregs.ss in
    (
      m3,
      rw
          (
            memory_get_lem word s 0 (num * 4) off v.off_is,
            ◌>>=◌,
            memory_get_lem word s 0 (num * 4 + 2) seg v.seg_is,
            e1,
            e2,
            e3,
            below,
          )
          refl,
      record {
        held = subst (λ t. Holds m3 ss t (saved s)) below h3;
        others_same =
            SameOutside-trans _ (abs_memory ss (sp - 2)) _ s.memory m1 m3 (omega arith)
              (omega arith) o1
              (SameOutside-trans _ (abs_memory ss (sp - 2 - 2)) _ m1 m2 m3 (omega arith)
                (omega arith) o2
                (subst (λ t. SameOutside (abs_memory ss t) (abs_memory ss (sp - 2 - 2)) m2 m3) below
                  o3));
      },
    )

-- What IRET does to the state.
abbrev pub returned : Cpu → ℕ → ℕ → ℕ → Cpu
returned s ip cs flags =
    let regs = record s.core.regs { sp = s.core.regs.sp + 6 } in
    record s {
      core = record {
        regs = regs;
        sregs = record s.core.sregs { cs = cs };
        flags = flags;
        ip = ip;
      };
    }

pub iret_lem :
    (s : Cpu) (ip cs flags : ℕ)
    → Holds s.memory s.core.sregs.ss s.core.regs.sp (ip ∷ cs ∷ flags ∷ [])
    → s.core.regs.sp + 6 < 2 ^ 16
    → iret s ≡ ok tt (returned s ip cs flags)
unfolding iret ret_far
iret_lem s ip cs flags h room =
    let sp = s.core.regs.sp in
    let e1 = pop-Holds s ip (cs ∷ flags ∷ []) h (omega arith) in
    let s1 = record (with_stack s (sp + 2) s.memory) {
      core = record (with_stack s (sp + 2) s.memory).core { ip = ip };
    } in
    let e2 = pop-Holds s1 cs (flags ∷ []) h.1 (omega arith) in
    let s2 = record (with_stack s1 (sp + 2 + 2) s.memory) {
      core = record (with_stack s1 (sp + 2 + 2) s.memory).core {
        sregs = record s.core.sregs { cs = cs };
      };
    } in
    let e3 = pop-Holds s2 flags [] h.1.1 (omega arith) in
    let up : sp + 2 + 2 + 2 ≡ sp + 6 = omega arith in rw (e1, ◌>>=◌, e2, e3, up) refl
