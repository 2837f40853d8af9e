-- ===== src/Rmm/Arith.antt =====
-- What addition, subtraction, comparison and negation leave in the flags.
use door86c.Common.{
  ℕ, ◌+◌, ◌-◌, ◌/◌, ◌%◌, ◌<◌, ◌≡◌, bit_and, Bool, ◌||◌, arith, nonzero, ltb, leb, ◌==◌,
}
use door86c.Common.Bits.{bit_and_field}
use door86c.Memory.{Width, byte, word}
use door86c.Flags.{
  carry, parity, adjust, zero_flag, sign, trap, interrupt, direction, overflow, read,
}
use door86c.Flags.Laws.{read-write}
use door86c.Machine.{Cpu}
use door86c.Machine.Exec.{ok, set_flags, ◌>>=◌}
use door86c.Rmm.{
  Place, card, big_card, cf_mask, of_mask, msb_mask, even_bits, get, set, set_flags_from_bigt,
  add_assign, sub_assign, cmp, neg, big_sub,
}

-- The tests by which the flags are set, as comparisons.
cf_test :
    (w : Width) (cur : ℕ) → cur < big_card w → nonzero (bit_and cur (cf_mask w)) ≡ leb (card w) cur
cf_test byte cur h = ground (arith, bit_and_field 8 8 cur)
cf_test word cur h = ground (arith, bit_and_field 16 16 cur)

of_test :
    (w : Width) (cur : ℕ)
    → cur < big_card w
    → nonzero (bit_and cur (of_mask w)) ≡ leb (card w / 2) cur
of_test byte cur h = ground (arith, bit_and_field 9 7 cur)
of_test word cur h = ground (arith, bit_and_field 17 15 cur)

pub sf_test :
    (w : Width) (cur : ℕ) → cur < card w → nonzero (bit_and cur (msb_mask w)) ≡ leb (card w / 2) cur
sf_test byte cur h = ground (arith, bit_and_field 1 7 cur)
sf_test word cur h = ground (arith, bit_and_field 1 15 cur)

pub mod_card-lt : (w : Width) (n : ℕ) → n % card w < card w
mod_card-lt byte n = omega arith
mod_card-lt word n = omega arith

-- The flags of a result `v`, with the carry and overflow that the operation found; the other four
-- are those of `old`.
pub record HasFlags (w : Width) (v : ℕ) (cf of : Bool) (old f : ℕ) : Type 0 where
  pub cf_set : read carry f ≡ cf
  pub of_set : read overflow f ≡ of
  pub zf_set : read zero_flag f ≡ (v == 0)
  pub sf_set : read sign f ≡ leb (card w / 2) v
  pub pf_set : read parity f ≡ even_bits w v
  pub af_kept : read adjust f ≡ read adjust old
  pub tf_kept : read trap f ≡ read trap old
  pub if_kept : read interrupt f ≡ read interrupt old
  pub df_kept : read direction f ≡ read direction old

set_flags_from_bigt-HasFlags :
    (w : Width) (cur f : ℕ)
    → cur < big_card w
    → HasFlags w
        (cur % card w)
        (leb (card w) cur)
        (leb (card w / 2) cur)
        f
        (set_flags_from_bigt w cur f)
unfolding set_flags_from_bigt
set_flags_from_bigt-HasFlags w cur f h = record {
  cf_set = simp (read-write) (cf_test w cur h);
  of_set = simp (read-write) (of_test w cur h);
  zf_set = simp (read-write);
  sf_set = simp (read-write) (sf_test w (cur % card w) (mod_card-lt w cur));
  pf_set = simp (read-write);
  af_kept = simp (read-write);
  tf_kept = simp (read-write);
  if_kept = simp (read-write);
  df_kept = simp (read-write);
}

-- A sum or difference in the larger type, and what of it fits the operand.
sum_fits :
    (w : Width) (a b : ℕ)
    → a < card w
    → b < card w
    → ((a + b) % big_card w ≡ a + b) × (a + b < big_card w)
sum_fits byte a b ha hb = omega arith
sum_fits word a b ha hb = omega arith

big_sub_facts :
    (w : Width) (a b : ℕ)
    → a < card w
    → b < card w
    → (big_sub w a b < big_card w)
      × (big_sub w a b % card w ≡ (a + card w - b) % card w)
      × (leb (card w) (big_sub w a b) ≡ ltb a b)
      × (leb (card w / 2) (big_sub w a b) ≡ (ltb a b || leb (card w / 2) (a - b)))
big_sub_facts byte a b ha hb = (omega arith, omega arith, ground arith, ground arith)
big_sub_facts word a b ha hb = (omega arith, omega arith, ground arith, ground arith)

difference_flags :
    (w : Width) (a b f : ℕ)
    → a < card w
    → b < card w
    → HasFlags w
        ((a + card w - b) % card w)
        (ltb a b)
        (ltb a b || leb (card w / 2) (a - b))
        f
        (set_flags_from_bigt w (big_sub w a b) f)
difference_flags w a b f ha hb =
    let e = big_sub_facts w a b ha hb in
    let made : HasFlags w (big_sub w a b % card w) (leb (card w) (big_sub w a b))
        (leb (card w / 2) (big_sub w a b)) f (set_flags_from_bigt w (big_sub w a b) f) =
      set_flags_from_bigt-HasFlags w (big_sub w a b) f e.0 in
    rw (← e.3, ← e.2, ← e.1) made

neg_facts :
    (w : Width) (a : ℕ)
    → a < card w
    → (card w - a < big_card w)
      × (leb (card w) (card w - a) ≡ (a == 0))
      × (leb (card w / 2) (card w - a) ≡ leb a (card w / 2))
neg_facts byte a h = (omega arith, ground arith, ground arith)
neg_facts word a h = (omega arith, ground arith, ground arith)

module _ (w : Width) (p : Place) (a b : ℕ) (s : Cpu) (here : get w p s ≡ ok a s)
    (a_fits : a < card w) (b_fits : b < card w) where
  -- `+=` stores the sum modulo the operand's size. CF is the carry out; OF is set exactly if the
  -- sum reaches half of the operand's range; ZF, SF and PF describe the result; AF, TF, IF and DF
  -- stay.
  pub add_assign_lem :
      (f : ℕ) × (add_assign w p b s ≡ set w p ((a + b) % card w) (set_flags f s))
      × HasFlags w
          ((a + b) % card w)
          (leb (card w) (a + b))
          (leb (card w / 2) (a + b))
          s.core.flags
          f
  unfolding add_assign
  add_assign_lem =
      let e = sum_fits w a b a_fits b_fits in
      (
        set_flags_from_bigt w (a + b) s.core.flags,
        rw (here, ◌>>=◌, e.0),
        set_flags_from_bigt-HasFlags w (a + b) s.core.flags e.1,
      )

  -- `-=` stores the difference modulo the operand's size. CF is the borrow; OF is set exactly on a
  -- borrow or if the difference reaches half of the operand's range; the other flags are as for
  -- `+=`.
  pub sub_assign_lem :
      (f : ℕ) × (sub_assign w p b s ≡ set w p ((a + card w - b) % card w) (set_flags f s))
      × HasFlags w
          ((a + card w - b) % card w)
          (ltb a b)
          (ltb a b || leb (card w / 2) (a - b))
          s.core.flags
          f
  unfolding sub_assign
  sub_assign_lem =
      let e = big_sub_facts w a b a_fits b_fits in
      (
        set_flags_from_bigt w (big_sub w a b) s.core.flags,
        rw (here, ◌>>=◌, e.1),
        difference_flags w a b s.core.flags a_fits b_fits,
      )

  -- `cmp` sets the flags that `-=` sets, and stores nothing.
  pub cmp-sub_assign :
      (f : ℕ) × (cmp w p b s ≡ ok tt (set_flags f s))
      × (sub_assign w p b s ≡ set w p ((a + card w - b) % card w) (set_flags f s))
  unfolding cmp sub_assign
  cmp-sub_assign =
      let e = big_sub_facts w a b a_fits b_fits in
      (set_flags_from_bigt w (big_sub w a b) s.core.flags, rw (here, ◌>>=◌), rw (here, ◌>>=◌, e.1))

  -- The flags that `cmp` leaves.
  pub cmp_lem :
      (f : ℕ) × (cmp w p b s ≡ ok tt (set_flags f s))
      × HasFlags w
          ((a + card w - b) % card w)
          (ltb a b)
          (ltb a b || leb (card w / 2) (a - b))
          s.core.flags
          f
  unfolding cmp
  cmp_lem = (
    set_flags_from_bigt w (big_sub w a b) s.core.flags,
    rw (here, ◌>>=◌),
    difference_flags w a b s.core.flags a_fits b_fits,
  )

-- `neg` stores the two's complement. CF is set for zero and no other value, and OF for every value
-- up to half of the range.
pub neg_lem :
    (w : Width) (p : Place) (a : ℕ) (s : Cpu)
    → get w p s ≡ ok a s
    → a < card w
    → (f : ℕ) × (neg w p s ≡ set w p ((card w - a) % card w) (set_flags f s))
      × HasFlags w ((card w - a) % card w) (a == 0) (leb a (card w / 2)) s.core.flags f
unfolding neg
neg_lem w p a s here a_fits =
    let e = neg_facts w a a_fits in
    (
      set_flags_from_bigt w (card w - a) s.core.flags,
      rw (here, ◌>>=◌),
      rw (e.1, e.2) at (set_flags_from_bigt-HasFlags w (card w - a) s.core.flags e.0),
    )
