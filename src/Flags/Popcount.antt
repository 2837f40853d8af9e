-- ===== src/Flags/Popcount.antt =====
-- Kernighan's loop counts the bits that are set.
use door86c.Common.{
  ℕ, zero, suc, ◌+◌, ◌-◌, ◌*◌, ◌/◌, ◌%◌, ◌^◌, ◌≤◌, ◌<◌, ◌≡◌, ◌≢◌, refl, ap, inl, inr, ◌⊎◌, bit_and,
  arith, nonzero, Bool-cases,
}
use door86c.Common.Bits.{bit_and_low, bit_and_self, bit_and-le}
use door86c.Flags.{kern_popcount}
use native.Mathlib.Nat.{pow-suc}

-- How many of the lowest `k` bits of `n` are set.
abbrev pub bit_count : ℕ → ℕ → ℕ
bit_count zero n = 0
bit_count (suc k) n = n % 2 + bit_count k (n / 2)

bit_count-zero : (k : ℕ) → bit_count k 0 ≡ 0
bit_count-zero zero = refl
bit_count-zero (suc k) = omega (arith, bit_count-zero k)

pub bit_count-le : (k n : ℕ) → bit_count k n ≤ k
bit_count-le zero n = omega arith
bit_count-le (suc k) n = omega (arith, bit_count-le k (n / 2))

half-lt : (k n : ℕ) → n < 2 ^ suc k → n / 2 < 2 ^ k
half-lt k n h = omega (arith, pow-suc 2 k)

odd_or_even : (n : ℕ) → (n % 2 ≡ 1) ⊎ (n % 2 ≡ 0)
odd_or_even n = ground arith

-- `n & (n - 1)` clears the lowest bit that is set.
odd_step : (n : ℕ) → n % 2 ≡ 1 → bit_and n (n - 1) ≡ n / 2 * 2
odd_step n odd =
    let same : (n - 1) / 2 ≡ n / 2 = omega arith in
    omega (arith, bit_and_low n (n - 1), ap (bit_and (n / 2)) same, bit_and_self (n / 2))

even_step : (n : ℕ) → n % 2 ≡ 0 → n ≢ 0 → bit_and n (n - 1) ≡ bit_and (n / 2) (n / 2 - 1) * 2
even_step n even pos =
    let less : (n - 1) / 2 ≡ n / 2 - 1 = omega arith in
    omega (arith, bit_and_low n (n - 1), ap (bit_and (n / 2)) less)

bit_count_twice : (k x : ℕ) → bit_count (suc k) (x * 2) ≡ bit_count k x
bit_count_twice k x = let half : x * 2 / 2 ≡ x = omega arith in omega (arith, ap (bit_count k) half)

bit_count-step :
    (k n : ℕ) → n < 2 ^ k → n ≢ 0 → suc (bit_count k (bit_and n (n - 1))) ≡ bit_count k n
bit_count-step zero n h pos = absurd (omega arith)
bit_count-step (suc k) n h pos = elim (odd_or_even n) [
  | inl odd ↦ rw (odd_step n odd) (omega (arith, bit_count_twice k (n / 2)))
  | inr even ↦ rw (even_step n even pos) (
      omega (
        arith,
        bit_count_twice k (bit_and (n / 2) (n / 2 - 1)),
        bit_count-step k (n / 2) (half-lt k n h) (omega arith),
      ))
]

-- With fuel for each bit the loop ends by its test, and its result is the number of bits set.
pub kern_popcount_lem :
    (fuel k n c : ℕ) → n < 2 ^ k → bit_count k n ≤ fuel → kern_popcount fuel n c ≡ c + bit_count k n
unfolding kern_popcount
kern_popcount_lem zero k n c h enough = omega arith
kern_popcount_lem (suc fuel) k n c h enough = elim (Bool-cases (nonzero n)) [
  | inl more ↦
      let pos : n ≢ 0 = ground arith in
      rw more (
        omega (
          arith,
          bit_count-step k n h pos,
          kern_popcount_lem fuel k (bit_and n (n - 1)) (c + 1) (omega (arith, bit_and-le n (n - 1)))
              (omega (arith, bit_count-step k n h pos)),
        ))
  | inr done ↦ let none_left : n ≡ 0 = ground arith in rw (none_left, bit_count-zero) (omega arith)
]
