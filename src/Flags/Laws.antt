-- ===== src/Flags/Laws.antt =====
-- Each flag is a bit of its own: a write is read back and leaves the other eight alone.
use door86c.Common.{
  ℕ, zero, suc, ◌-◌, ◌*◌, ◌/◌, ◌^◌, ◌<◌, ◌≡◌, ◌≢◌, refl, Bool, true, false, arith, nonzero, ◌==◌,
  if◌then◌else◌, bit_and, bit_or,
}
use door86c.Common.Bits.{testbit, testbit-bit_and, testbit-bit_or, bit_and-bit, bit_and-zero}
use door86c.Flags.{
  Flag, carry, parity, adjust, zero_flag, sign, trap, interrupt, direction, overflow, mask, read,
  write, clear,
}
use native.Mathlib.Nat.{one-le-pow}

abbrev pub position : Flag → ℕ
position carry = 0
position parity = 2
position adjust = 4
position zero_flag = 6
position sign = 7
position trap = 8
position interrupt = 9
position direction = 10
position overflow = 11

mask-position : (f : Flag) → mask f ≡ 2 ^ position f
unfolding mask
mask-position carry = refl
mask-position f = refl

testbit-lt : (k n : ℕ) → testbit k n < 2
testbit-lt zero n = omega arith
testbit-lt (suc k) n = testbit-lt k (n / 2)

nonzero_digit : (d p : ℕ) → d < 2 → 0 < p → nonzero (d * p) ≡ (d == 1)
nonzero_digit zero p h pos = ground arith
nonzero_digit (suc zero) p h pos = ground arith
nonzero_digit (suc (suc d)) p h pos = absurd (omega arith)

-- A flag is read as its bit.
pub read-testbit : (f : Flag) (value : ℕ) → read f value ≡ (testbit (position f) value == 1)
unfolding read
read-testbit f value =
    rw (mask-position f, bit_and-bit (position f) value)
      (nonzero_digit (testbit (position f) value) (2 ^ position f) (testbit-lt (position f) value)
        (one-le-pow (position f) 2 (omega arith)))

-- The bits of a mask and of its complement.
mask_bits :
    (f g : Flag)
    → (testbit (position f) (mask g) ≡ (if position f == position g then 1 else 0))
      × (testbit (position f) (0xffff - mask g) ≡ (if position f == position g then 0 else 1))
unfolding mask
mask_bits f g = ground arith

-- What a flag reads after a write to a flag.
pub read-write :
    (f g : Flag) (b : Bool) (value : ℕ)
    → read f (write g b value) ≡ (if position f == position g then b else read f value)
unfolding write
read-write f g true value =
    rw (read-testbit f (bit_or value (mask g)), testbit-bit_or (position f) value (mask g))
      (ground (arith, mask_bits f g, read-testbit f value, testbit-lt (position f) value))
read-write f g false value =
    rw
      (
        read-testbit f (bit_and value (0xffff - mask g)),
        testbit-bit_and (position f) value (0xffff - mask g),
      )
      (ground (arith, mask_bits f g, read-testbit f value, testbit-lt (position f) value))

-- `clear` leaves no bit at all, whichever flags it is asked to clear.
pub clear-zero : (flg value : ℕ) → flg ≢ 0 → clear flg value ≡ 0
unfolding clear
clear-zero flg value h = ground (arith, bit_and-zero value)

pub read-zero : (f : Flag) → read f 0 ≡ false
unfolding read
read-zero carry = refl
read-zero f = refl
