-- ===== src/Rmm.antt =====
-- cpu/x86/rmm.h: an operand, which is a register or a place in memory, and the arithmetic on it
-- that sets the flags. A register operand's pointer may also point at a segment register or at a
-- local variable of the handler (`local`), which no later code reads.
pub mod Arith
pub mod Logic
pub mod Access
pub mod Update
use door86c.Common.{
  ℕ, ◌+◌, ◌-◌, ◌*◌, ◌/◌, ◌%◌, ◌^◌, bit_and, bit_or, bit_xor, Bool, true, false, ◌&&◌, ◌||◌, Option,
  none, some, ◌==◌, nonzero, if◌then◌else◌, leb, ltb, ◌≡◌,
}
use door86c.Memory.{Width, byte, word}
use door86c.Regs.{get8, get16, set8, set16, get_sreg, set_sreg}
use door86c.Flags.{
  carry, parity, adjust, zero_flag, sign, overflow, read, write, clear, kern_popcount, mask,
}
use door86c.Machine.{Cpu, Core}
use door86c.Machine.Exec.{
  Exec, Step, Outcome, ok, fault, fatal, bad_shift, out_of_bounds, pure, stop, ◌>>=◌, ◌>>◌, lift,
  reads, try_regs, try_sregs, put_flags, memory_get, memory_set,
}

pub data Place : Type 0 where
  reg : ℕ → Place
  sreg : ℕ → Place
  local : ℕ → Place
  mem : ℕ → ℕ → Place

-- `std::numeric_limits<T>::digits`
abbrev pub digits : Width → ℕ
digits byte = 8
digits word = 16

-- How many values `T` has, and `bigT`.
abbrev pub card : Width → ℕ
card byte = 2 ^ 8
card word = 2 ^ 16

abbrev pub big_card : Width → ℕ
big_card byte = 2 ^ 16
big_card word = 2 ^ 32

-- `max(bigT) - max(T)`
abbrev pub cf_mask : Width → ℕ
cf_mask w = big_card w - 1 - (card w - 1)

-- `max(bigT) - max(make_signed_t<T>)`
abbrev pub of_mask : Width → ℕ
of_mask w = big_card w - 1 - (card w / 2 - 1)

abbrev pub msb_mask : Width → ℕ
msb_mask w = card w / 2

unfoldable pub get : Width → Place → Exec ℕ
unfolding get8 get16 get_sreg memory_get
get byte (reg n) s = lift fatal (get8 s.core.regs n) s
get word (reg n) s = lift fatal (get16 s.core.regs n) s
get w (sreg n) s = lift fatal (get_sreg s.core.sregs n) s
get w (local v) s = ok v s
get w (mem seg off) s = memory_get w seg off s

unfoldable pub set : Width → Place → ℕ → Step
unfolding set8 set16 set_sreg memory_set
set byte (reg n) v s = try_regs (set8 s.core.regs n v) s
set word (reg n) v s = try_regs (set16 s.core.regs n v) s
set w (sreg n) v s = try_sregs (set_sreg s.core.sregs n v) s
set w (local v') v s = ok tt s
set w (mem seg off) v s = memory_set w seg off v s

-- `kern_popcount(cur) % 2 == 0`; a value of `w` bits has at most `w` of them set.
abbrev pub even_bits : Width → ℕ → Bool
even_bits w cur = kern_popcount (digits w) cur 0 % 2 == 0

unfoldable pub set_flags_psz : Width → ℕ → ℕ → ℕ
unfolding write
set_flags_psz w cur f =
    write sign (nonzero (bit_and cur (msb_mask w)))
      (write zero_flag (cur == 0) (write parity (even_bits w cur) f))

-- The flags after it; the value that it returns is `cur` cut to `T`.
unfoldable pub set_flags_from_bigt : Width → ℕ → ℕ → ℕ
unfolding set_flags_psz write
set_flags_from_bigt w cur f = set_flags_psz w (cur % card w) (
    write carry (nonzero (bit_and cur (cf_mask w)))
      (write overflow (nonzero (bit_and cur (of_mask w))) f))

unfoldable pub clear_flags_coa : ℕ → ℕ
unfolding clear mask
clear_flags_coa f = clear (bit_or (bit_or (mask carry) (mask overflow)) (mask adjust)) f

-- `operator+=`
unfoldable pub add_assign : Width → Place → ℕ → Step
unfolding get set set_flags_from_bigt
add_assign w p other = do
  cur ← get w p
  let sum = (cur + other) % big_card w
  put_flags (set_flags_from_bigt w sum)
  set w p (sum % card w)

-- `cur -= other` in `bigT`, which wraps.
abbrev pub big_sub : Width → ℕ → ℕ → ℕ
big_sub w a b = (a + big_card w - b) % big_card w

-- `operator-=`
unfoldable pub sub_assign : Width → Place → ℕ → Step
unfolding get set set_flags_from_bigt
sub_assign w p other = do
  cur ← get w p
  put_flags (set_flags_from_bigt w (big_sub w cur other))
  set w p (big_sub w cur other % card w)

unfoldable pub cmp : Width → Place → ℕ → Step
unfolding get set_flags_from_bigt
cmp w p other = do saved ← get w p; put_flags (set_flags_from_bigt w (big_sub w saved other))

-- What `|=`, `^=` and `&=` have in common.
unfoldable pub logic_assign : (ℕ → ℕ → ℕ) → Width → Place → ℕ → Step
unfolding get set set_flags_psz clear_flags_coa
logic_assign f w p other = do
  cur ← get w p
  put_flags (λ v. set_flags_psz w (f cur other) (clear_flags_coa v))
  set w p (f cur other)

unfoldable pub or_assign : Width → Place → ℕ → Step
unfolding logic_assign
or_assign = logic_assign bit_or

unfoldable pub xor_assign : Width → Place → ℕ → Step
unfolding logic_assign
xor_assign = logic_assign bit_xor

unfoldable pub and_assign : Width → Place → ℕ → Step
unfolding logic_assign
and_assign = logic_assign bit_and

unfoldable pub neg : Width → Place → Step
unfolding get set set_flags_from_bigt
neg w p = do
  v ← get w p
  put_flags (set_flags_from_bigt w (card w - v))
  set w p ((card w - v) % card w)

-- `v << num` in `int` and `v >> num`. C++17 defines the first if the result fits 32 bits.
unfoldable pub shift_left : ℕ → ℕ → Exec ℕ
shift_left v num =
    if ltb num 32 && ltb (v * 2 ^ num) (2 ^ 32) then pure (v * 2 ^ num) else stop bad_shift

unfoldable pub shift_right : ℕ → ℕ → Exec ℕ
shift_right v num = if ltb num 32 then pure (v / 2 ^ num) else stop bad_shift

-- The end of every shift: `set(v); set_flags_psz(v);`.
abbrev pub store_shifted : Width → Place → ℕ → Step
store_shifted w p v = do set w p v; put_flags (set_flags_psz w v)

abbrev pub top_bit : Width → ℕ → Bool
top_bit w v = nonzero (bit_and v (msb_mask w))

unfoldable pub shl : Width → Place → ℕ → Step
unfolding get set shift_left set_flags_psz
shl w p num = do
  v ← get w p
  put_flags (write carry (top_bit w v))
  r ← shift_left v num
  store_shifted w p (r % card w)

unfoldable pub rol : Width → Place → ℕ → Step
unfolding get set shift_left set_flags_psz
rol w p num = do
  v ← get w p
  put_flags (write carry (top_bit w v))
  r ← shift_left v num
  store_shifted w p (bit_or r (if top_bit w v then 1 else 0) % card w)

-- Rotate left with carry.
unfoldable pub rcl : Width → Place → ℕ → Step
unfolding get set shift_left set_flags_psz
rcl w p num = do
  v ← get w p
  old ← reads (λ c. read carry c.flags)
  put_flags (write carry (top_bit w v))
  r ← shift_left v num
  store_shifted w p (bit_or r (if old then 1 else 0) % card w)

abbrev pub low_bit : ℕ → Bool
low_bit v = nonzero (bit_and v 1)

unfoldable pub shr : Width → Place → ℕ → Step
unfolding get set shift_right set_flags_psz
shr w p num = do
  v ← get w p
  put_flags (write carry (low_bit v))
  r ← shift_right v num
  store_shifted w p r

-- Rotate right with carry.
unfoldable pub rcr : Width → Place → ℕ → Step
unfolding get set shift_right set_flags_psz
rcr w p num = do
  v ← get w p
  old ← reads (λ c. read carry c.flags)
  put_flags (write carry (low_bit v))
  r ← shift_right v num
  store_shifted w p (bit_or r (if old then msb_mask w else 0))

unfoldable pub ror : Width → Place → ℕ → Step
unfolding get set shift_right set_flags_psz
ror w p num = do
  v ← get w p
  put_flags (write carry (low_bit v))
  r ← shift_right v num
  store_shifted w p (bit_or r (if low_bit v then msb_mask w else 0))

unfoldable pub sar : Width → Place → ℕ → Step
unfolding get set shift_right set_flags_psz
sar w p num = do
  v ← get w p
  put_flags (write carry (low_bit v))
  r ← shift_right (bit_and v (card w - 1 - msb_mask w)) num
  store_shifted w p (if top_bit w v then bit_or r (msb_mask w) else r)

-- `swap(left, right)`
unfoldable pub swap : Width → Place → Place → Step
unfolding get set
swap w left right = do tempr ← get w left; v ← get w right; set w left v; set w right tempr
