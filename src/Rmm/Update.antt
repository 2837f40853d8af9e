-- ===== src/Rmm/Update.antt =====
-- cpu/x86/rmm.h, the operators that change an operand: their whole effect on a proper operand.
use door86c.Common.{
  ℕ, ◌+◌, ◌-◌, ◌/◌, ◌%◌, ◌<◌, ◌≡◌, arith, Bool, ◌||◌, ◌==◌, ltb, leb, subst, sym, ap, ◌∙◌,
}
use door86c.Memory.{Width, byte, word}
use door86c.Memory.Laws.{limit}
use door86c.Machine.{Cpu}
use door86c.Machine.Exec.{ok, set_flags}
use door86c.Rmm.{Place, reg, sreg, local, mem, card, get, set, add_assign, sub_assign, neg}
use door86c.Rmm.Access.{Proper, Others, set-Stored}
use door86c.Rmm.Arith.{HasFlags, add_assign_lem, sub_assign_lem, neg_lem}

-- The operand holds `v`, the flags tell of it, and nothing else of the machine has changed.
pub record Updated (w : Width) (p : Place) (v : ℕ) (cf of : Bool) (s s' : Cpu) : Type 0 where
  pub holds : get w p s' ≡ ok v s'
  pub flags_are : HasFlags w v cf of s.core.flags s'.core.flags
  pub sregs_kept : s'.core.sregs ≡ s.core.sregs
  pub ip_kept : s'.core.ip ≡ s.core.ip
  pub size_kept : s'.memory.size ≡ s.memory.size
  pub others_kept : Others w p s s'
  pub rest_kept : s' ≡ record s {
    core = record s.core { regs = s'.core.regs; flags = s'.core.flags };
    memory = s'.memory;
  }

fits_limit : (w : Width) (v : ℕ) → v % card w < limit w
fits_limit byte v = omega arith
fits_limit word v = omega arith

Proper-set_flags :
    (w : Width) (p : Place) (s : Cpu) (f : ℕ)
    → Proper w s.memory p
    → Proper w (set_flags f s).memory p
Proper-set_flags w p s f h = h

Others-set_flags :
    (w : Width) (p : Place) (f : ℕ) (s s' : Cpu) → Others w p (set_flags f s) s' → Others w p s s'
Others-set_flags byte (reg n) f s s' o = o
Others-set_flags word (reg n) f s s' o = o
Others-set_flags byte (sreg n) f s s' o = o
Others-set_flags word (sreg n) f s s' o = o
Others-set_flags byte (local v) f s s' o = o
Others-set_flags word (local v) f s s' o = o
Others-set_flags byte (mem seg off) f s s' o = o
Others-set_flags word (mem seg off) f s s' o = o

-- New flags and then a store.
flags_and_store :
    (w : Width) (p : Place) (v : ℕ) (cf of : Bool) (s : Cpu) (f : ℕ)
    → Proper w s.memory p
    → HasFlags w (v % card w) cf of s.core.flags f
    → (s' : Cpu) × (set w p (v % card w) (set_flags f s) ≡ ok tt s')
      × Updated w p (v % card w) cf of s s'
flags_and_store w p v cf of s f proper flags =
    let (s', e, k) = set-Stored w p (v % card w) (set_flags f s) (fits_limit w v) proper in
    (
      s',
      e,
      record {
        holds = k.read_back;
        flags_are =
            subst (λ t. HasFlags w (v % card w) cf of s.core.flags t) (sym k.flags_kept) flags;
        sregs_kept = k.sregs_kept;
        ip_kept = k.ip_kept;
        size_kept = k.size_kept;
        others_kept = Others-set_flags w p f s s' k.others_kept;
        rest_kept =
            k.rest_kept
            ∙ ap
                (λ (t : ℕ). record s {
                  core = record s.core { regs = s'.core.regs; flags = t };
                  memory = s'.memory;
                })
                (sym k.flags_kept);
      },
    )

module _ (w : Width) (p : Place) (a b : ℕ) (s : Cpu) (here : get w p s ≡ ok a s)
    (proper : Proper w s.memory p) (a_fits : a < card w) (b_fits : b < card w) where
  -- `+=` on a register or a place in memory always succeeds. The operand then holds the sum modulo
  -- its size; CF is the carry out, and OF is set exactly if the sum reaches half of the operand's
  -- range; ZF, SF and PF describe the result; AF, TF, IF and DF stay, and so does everything of the
  -- machine but the operand.
  pub add_assign-Updated :
      (s' : Cpu) × (add_assign w p b s ≡ ok tt s')
      × Updated w p ((a + b) % card w) (leb (card w) (a + b)) (leb (card w / 2) (a + b)) s s'
  add_assign-Updated =
      let (f, e, flags) = add_assign_lem w p a b s here a_fits b_fits in
      let (s', e', u) = flags_and_store w p (a + b) _ _ s f proper flags in (s', e ∙ e', u)

  -- `-=` on a register or a place in memory always succeeds. The operand then holds the difference
  -- modulo its size; CF is the borrow, and OF is set exactly on a borrow or if the difference
  -- reaches half of the operand's range; the rest is as for `+=`.
  pub sub_assign-Updated :
      (s' : Cpu) × (sub_assign w p b s ≡ ok tt s')
      × Updated w p ((a + card w - b) % card w) (ltb a b) (ltb a b || leb (card w / 2) (a - b)) s s'
  sub_assign-Updated =
      let (f, e, flags) = sub_assign_lem w p a b s here a_fits b_fits in
      let (s', e', u) = flags_and_store w p (a + card w - b) _ _ s f proper flags in (s', e ∙ e', u)

-- `neg` on a register or a place in memory always succeeds and stores the two's complement. CF is
-- set for zero and for no other value, and OF for every value up to half of the range.
pub neg-Updated :
    (w : Width) (p : Place) (a : ℕ) (s : Cpu)
    → get w p s ≡ ok a s
    → Proper w s.memory p
    → a < card w
    → (s' : Cpu) × (neg w p s ≡ ok tt s')
      × Updated w p ((card w - a) % card w) (a == 0) (leb a (card w / 2)) s s'
neg-Updated w p a s here proper a_fits =
    let (f, e, flags) = neg_lem w p a s here a_fits in
    let (s', e', u) = flags_and_store w p (card w - a) _ _ s f proper flags in (s', e ∙ e', u)
