-- ===== src/Rotate.antt =====
-- cpu/rotate.h: rotations of an unsigned number of `bits` bits, a power of two of at most 32. `v`
-- is promoted to 32 bits before it is shifted, and the result is cut to its own type.
use door86c.Common.{
  ℕ, ◌-◌, ◌*◌, ◌/◌, ◌%◌, ◌^◌, ◌<◌, ◌≡◌, refl, arith, true, ◌==◌, ==_iff, u32, bit_and, bit_or,
  all_below, all_below_lem,
}
use door86c.Common.Bits.{bit_and_mask}

-- `b & count_mask`, for an `int` given by its 32 bits.
unfoldable pub amount : ℕ → ℕ → ℕ
amount bits b = bit_and b (bits - 1)

-- `-mb & count_mask`.
unfoldable pub opposite : ℕ → ℕ → ℕ
opposite bits mb = bit_and (u32 (2 ^ 32 - mb)) (bits - 1)

abbrev left_by : ℕ → ℕ → ℕ → ℕ
left_by bits v mb = bit_or (u32 (v * 2 ^ mb)) (v / 2 ^ opposite bits mb) % 2 ^ bits

abbrev right_by : ℕ → ℕ → ℕ → ℕ
right_by bits v mb = bit_or (v / 2 ^ mb) (u32 (v * 2 ^ opposite bits mb)) % 2 ^ bits

unfoldable pub rotl : ℕ → ℕ → ℕ → ℕ
rotl bits v b = left_by bits v (amount bits b)

unfoldable pub rotr : ℕ → ℕ → ℕ → ℕ
rotr bits v b = right_by bits v (amount bits b)

byte_table : all_below 8 (λ mb. all_below 256 (λ v. right_by 8 (left_by 8 v mb) mb == v)) ≡ true
unfolding opposite
byte_table = refl

-- A byte rotated to the left and back to the right by any amount is itself.
rotr-rotl : (v b : ℕ) → v < 256 → rotr 8 (rotl 8 v b) b ≡ v
unfolding rotr rotl amount
rotr-rotl v b h =
    let small : bit_and b 7 < 8 = omega (arith, bit_and_mask 3 b) in
    (==_iff _ v).0 (
      all_below_lem 256 (λ w. right_by 8 (left_by 8 w (bit_and b 7)) (bit_and b 7) == w)
        (all_below_lem 8 (λ mb. all_below 256 (λ w. right_by 8 (left_by 8 w mb) mb == w)) byte_table
          (bit_and b 7) small)
        v h)
