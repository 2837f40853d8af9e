-- ===== src/Rmm/Logic.antt =====
-- What OR, XOR, AND and TEST leave in the flags, and what the one-bit shifts compute.
use door86c.Common.{ℕ, ◌/◌, ◌<◌, ◌≡◌, bit_and, bit_or, bit_xor, false, arith, leb, ◌==◌}
use door86c.Common.Bits.{bit_and-le, bit_or-lt, bit_xor-lt}
use door86c.Memory.{Width, byte, word}
use door86c.Flags.{
  carry, parity, adjust, zero_flag, sign, trap, interrupt, direction, overflow, read, mask,
}
use door86c.Flags.Laws.{read-write, read-zero, clear-zero}
use door86c.Machine.{Cpu}
use door86c.Machine.Exec.{Outcome, ok, set_flags, ◌>>=◌}
use door86c.Rmm.{
  Place, card, even_bits, get, set, set_flags_psz, clear_flags_coa, logic_assign, or_assign,
  and_assign, xor_assign,
}
use door86c.Rmm.Arith.{sf_test}

-- The flags of a result `v` when every other flag is lost.
pub record OnlyPsz (w : Width) (v : ℕ) (f : ℕ) : Type 0 where
  pub zf_set : read zero_flag f ≡ (v == 0)
  pub sf_set : read sign f ≡ leb (card w / 2) v
  pub pf_set : read parity f ≡ even_bits w v
  pub cf_lost : read carry f ≡ false
  pub of_lost : read overflow f ≡ false
  pub af_lost : read adjust f ≡ false
  pub tf_lost : read trap f ≡ false
  pub if_lost : read interrupt f ≡ false
  pub df_lost : read direction f ≡ false

clear_flags_coa-zero : (f : ℕ) → clear_flags_coa f ≡ 0
unfolding clear_flags_coa mask
clear_flags_coa-zero f = clear-zero 0x811 f (omega arith)

set_flags_psz-OnlyPsz : (w : Width) (v : ℕ) → v < card w → OnlyPsz w v (set_flags_psz w v 0)
unfolding set_flags_psz
set_flags_psz-OnlyPsz w v h = record {
  zf_set = simp read-write;
  sf_set = simp read-write (sf_test w v h);
  pf_set = simp read-write;
  cf_lost = simp (read-write, read-zero);
  of_lost = simp (read-write, read-zero);
  af_lost = simp (read-write, read-zero);
  tf_lost = simp (read-write, read-zero);
  if_lost = simp (read-write, read-zero);
  df_lost = simp (read-write, read-zero);
}

-- The three operators.
pub data LogicOp : Type 0 where
  ors xors ands : LogicOp

abbrev pub combine : LogicOp → ℕ → ℕ → ℕ
combine ors a b = bit_or a b
combine xors a b = bit_xor a b
combine ands a b = bit_and a b

abbrev pub apply : LogicOp → Width → Place → ℕ → Cpu → Outcome (Unit {0})
apply ors = or_assign
apply xors = xor_assign
apply ands = and_assign

combine-lt : (o : LogicOp) (w : Width) (a b : ℕ) → a < card w → b < card w → combine o a b < card w
combine-lt ors byte a b ha hb = bit_or-lt 8 a b ha hb
combine-lt ors word a b ha hb = bit_or-lt 16 a b ha hb
combine-lt xors byte a b ha hb = bit_xor-lt 8 a b ha hb
combine-lt xors word a b ha hb = bit_xor-lt 16 a b ha hb
combine-lt ands w a b ha hb = omega (arith, bit_and-le a b)

logic_assign_lem :
    (f : ℕ → ℕ → ℕ) (w : Width) (p : Place) (a b : ℕ) (s : Cpu)
    → get w p s ≡ ok a s
    → logic_assign f w p b s ≡ set w p (f a b) (set_flags (set_flags_psz w (f a b) 0) s)
unfolding logic_assign
logic_assign_lem f w p a b s here = rw (here, ◌>>=◌, clear_flags_coa-zero)

-- `|=`, `^=` and `&=` store the combined value, and leave no flag but ZF, SF and PF: the flags that
-- they are not meant to touch, IF, DF and TF among them, are cleared with CF, OF and AF.
pub apply_lem :
    (o : LogicOp) (w : Width) (p : Place) (a b : ℕ) (s : Cpu)
    → get w p s ≡ ok a s
    → a < card w
    → b < card w
    → (f : ℕ) × (apply o w p b s ≡ set w p (combine o a b) (set_flags f s))
      × OnlyPsz w (combine o a b) f
unfolding or_assign xor_assign and_assign
apply_lem ors w p a b s here ha hb = (
  _,
  logic_assign_lem bit_or w p a b s here,
  set_flags_psz-OnlyPsz w _ (combine-lt ors w a b ha hb),
)
apply_lem xors w p a b s here ha hb = (
  _,
  logic_assign_lem bit_xor w p a b s here,
  set_flags_psz-OnlyPsz w _ (combine-lt xors w a b ha hb),
)
apply_lem ands w p a b s here ha hb = (
  _,
  logic_assign_lem bit_and w p a b s here,
  set_flags_psz-OnlyPsz w _ (combine-lt ands w a b ha hb),
)
