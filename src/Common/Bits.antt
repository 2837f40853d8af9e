-- ===== src/Common/Bits.antt =====
-- Laws of `&`, `|` and `^` on numbers of any size: each is decided bit by bit.
use Prim.Native.Nat.{
  ℕ, zero, suc, ◌+◌, ◌-◌, ◌*◌, ◌/◌, ◌%◌, ◌^◌, ◌≤◌, ◌<◌, min, max, digits, bitwise, bit_and, bit_or,
  bit_xor, differ, bit_and-bitwise, bit_or-bitwise, bit_xor-bitwise,
}
use mathlib.Core.Path.{◌≡◌, refl, ap, sym, ◌∙◌, ◌≡⟨◌⟩◌, ◌∎}
use mathlib.Core.Logic.{◌⊎◌, inl, inr}
use mathlib.Core.WellFounded.{Acc, WellFounded, induction}
use native.Mathlib.Nat.{
  le_refl, pow-suc, one-le-pow, pow-succ', div-div-eq-div-mul, div-add-mod', mul-add-mod_self_right,
  mod-eq_of_lt, mod-lt,
}
use native.Mathlib.Omega.{arith}

Acc-below : (k n : ℕ) → n < k → Acc ◌<◌ n
Acc-below zero n h = absurd (omega arith)
Acc-below (suc k) n h = Acc.intro n (λ m hm. Acc-below k m (omega arith))

pub lt_wf : WellFounded ◌<◌
lt_wf = record { apply = λ n. Acc-below (suc n) n (le_refl _) }

all_or_fewer : (m n : ℕ) → m ≤ suc n → (m ≡ suc n) ⊎ (m ≤ n)
all_or_fewer m n le = ground arith

-- `bitwise` is a recursion on binary digits with fuel; one more round of it changes nothing.
module _ (keep : ℕ → ℕ) (digit : ℕ → ℕ → ℕ) where
  spare_round :
      (rounds m n : ℕ)
      → m ≤ rounds
      → digits keep digit (suc rounds) m n ≡ digits keep digit rounds m n
  spare_round zero zero n enough = refl
  spare_round (suc rounds) zero n enough = refl
  spare_round zero (suc m) n enough = absurd (omega arith)
  spare_round (suc rounds) (suc m) n enough =
      ap (λ (t : ℕ). t * 2 + digit (suc m % 2) (n % 2))
        (spare_round rounds (suc m / 2) (n / 2) (omega arith))

  spare_rounds :
      (total rounds m n : ℕ)
      → m ≤ rounds
      → rounds ≤ total
      → digits keep digit total m n ≡ digits keep digit rounds m n
  spare_rounds zero rounds m n enough le =
      let none_left : rounds ≡ zero = omega arith in rw none_left refl
  spare_rounds (suc total) rounds m n enough le = elim (all_or_fewer rounds total le) [
    | inl all ↦ rw all refl
    | inr fewer ↦ spare_round total m n (omega arith) ∙ spare_rounds total rounds m n enough fewer
  ]

  lowest_digit :
      (m n : ℕ)
      → bitwise keep digit (suc m) n
        ≡ digit (suc m % 2) (n % 2) + 2 * bitwise keep digit (suc m / 2) (n / 2)
  lowest_digit m n =
      let half = suc m / 2 in
      let fewer : digits keep digit m half (n / 2) ≡ bitwise keep digit half (n / 2) =
        spare_rounds m half half (n / 2) (le_refl _) (omega arith) in
      omega (arith, fewer)

-- The lowest bit of each operation, apart from the others.
pub bit_xor_low : (a b : ℕ) → bit_xor a b ≡ bit_xor (a / 2) (b / 2) * 2 + differ (a % 2) (b % 2)
bit_xor_low zero b = simp bit_xor-bitwise (ground arith)
bit_xor_low (suc a) b = simp bit_xor-bitwise (omega (arith, lowest_digit (λ y. y) differ a b))

pub bit_or_low : (a b : ℕ) → bit_or a b ≡ bit_or (a / 2) (b / 2) * 2 + max (a % 2) (b % 2)
bit_or_low zero b = simp bit_or-bitwise (ground arith)
bit_or_low (suc a) b = simp bit_or-bitwise (omega (arith, lowest_digit (λ y. y) max a b))

pub bit_and_low : (a b : ℕ) → bit_and a b ≡ bit_and (a / 2) (b / 2) * 2 + min (a % 2) (b % 2)
bit_and_low zero b = simp bit_and-bitwise (ground arith)
bit_and_low (suc a) b = simp bit_and-bitwise (omega (arith, lowest_digit (λ y. 0) min a b))

differ-lt : (a b : ℕ) → differ (a % 2) (b % 2) < 2
differ-lt a b = grind arith

-- Bit number `k` of `n`.
abbrev pub testbit : ℕ → ℕ → ℕ
testbit zero n = n % 2
testbit (suc k) n = testbit k (n / 2)

pub testbit-bit_and : (k a b : ℕ) → testbit k (bit_and a b) ≡ min (testbit k a) (testbit k b)
testbit-bit_and zero a b = omega (arith, bit_and_low a b)
testbit-bit_and (suc k) a b =
    let e : bit_and a b / 2 ≡ bit_and (a / 2) (b / 2) = omega (arith, bit_and_low a b) in
    rw e (testbit-bit_and k (a / 2) (b / 2))

pub testbit-bit_or : (k a b : ℕ) → testbit k (bit_or a b) ≡ max (testbit k a) (testbit k b)
testbit-bit_or zero a b = omega (arith, bit_or_low a b)
testbit-bit_or (suc k) a b =
    let e : bit_or a b / 2 ≡ bit_or (a / 2) (b / 2) = omega (arith, bit_or_low a b) in
    rw e (testbit-bit_or k (a / 2) (b / 2))

-- What holds for 0, and for each other number if it holds for its half, holds for all.
by_halves : (P : ℕ → Type 0) → P 0 → ((n : ℕ) → P (suc n / 2) → P (suc n)) → (n : ℕ) → P n
by_halves P base double n = induction lt_wf {C = P} n settled
  where
    settled : (k : ℕ) → ((j : ℕ) → j < k → P j) → P k
    settled zero below = base
    settled (suc k) below = double k (below (suc k / 2) (omega arith))

pub bit_and-zero : (a : ℕ) → bit_and a 0 ≡ 0
bit_and-zero =
    by_halves (λ n. bit_and n 0 ≡ 0) refl (λ n half. omega (arith, bit_and_low (suc n) 0, half))

pub bit_and_self : (a : ℕ) → bit_and a a ≡ a
bit_and_self =
    by_halves (λ n. bit_and n n ≡ n) refl
      (λ n half. omega (arith, bit_and_low (suc n) (suc n), half))

bit_and_twice : (a m : ℕ) → bit_and a (m * 2) ≡ bit_and (a / 2) m * 2
bit_and_twice a m =
    let half : m * 2 / 2 ≡ m = omega arith in
    omega (arith, bit_and_low a (m * 2), ap (bit_and (a / 2)) half)

-- Shifting a mask shifts the other operand back.
pub bit_and-shift : (k a m : ℕ) → bit_and a (m * 2 ^ k) ≡ bit_and (a / 2 ^ k) m * 2 ^ k
bit_and-shift zero a m =
    let one : m * 2 ^ 0 ≡ m = omega arith in
    let same : a / 2 ^ 0 ≡ a = omega arith in
    omega (arith, ap (bit_and a) one, ap (λ (t : ℕ). bit_and t m) same)
bit_and-shift (suc k) a m =
    let doubled : m * 2 ^ suc k ≡ m * 2 ^ k * 2 =
      omega (arith, ap (λ (t : ℕ). m * t) (pow-suc 2 k)) in
    let halved : a / 2 / 2 ^ k ≡ a / 2 ^ suc k =
      div-div-eq-div-mul a 2 (2 ^ k) ∙ ap (λ (t : ℕ). a / t) (sym (pow-succ' 2 k)) in
    bit_and a (m * 2 ^ suc k)
    ≡⟨ ap (bit_and a) doubled ⟩ bit_and a (m * 2 ^ k * 2)
    ≡⟨ bit_and_twice a (m * 2 ^ k) ⟩ bit_and (a / 2) (m * 2 ^ k) * 2
    ≡⟨ ap (λ (t : ℕ). t * 2) (bit_and-shift k (a / 2) m) ⟩ bit_and (a / 2 / 2 ^ k) m * 2 ^ k * 2
    ≡⟨ ap (λ (t : ℕ). bit_and t m * 2 ^ k * 2) halved ⟩ bit_and (a / 2 ^ suc k) m * 2 ^ k * 2
    ≡⟨ omega (arith, ap (λ (t : ℕ). bit_and (a / 2 ^ suc k) m * t) (pow-suc 2 k)) ⟩
      bit_and (a / 2 ^ suc k) m * 2 ^ suc k ∎

mod_double : (a p : ℕ) → 0 < p → a % (p * 2) ≡ a / 2 % p * 2 + a % 2
mod_double a p pos =
    let split : a ≡ a / 2 / p * (p * 2) + (a / 2 % p * 2 + a % 2) =
      omega (arith, div-add-mod' (a / 2) p) in
    ap (λ (t : ℕ). t % (p * 2)) split
    ∙ mul-add-mod_self_right (a / 2 / p) (p * 2) (a / 2 % p * 2 + a % 2)
    ∙ mod-eq_of_lt (omega (arith, mod-lt (a / 2) pos))

-- A mask of `k` low bits is the remainder by `2 ^ k`.
pub bit_and_mask : (k a : ℕ) → bit_and a (2 ^ k - 1) ≡ a % 2 ^ k
bit_and_mask zero a = omega (arith, bit_and-zero a)
bit_and_mask (suc k) a =
    let pos : 1 ≤ 2 ^ k = one-le-pow k 2 (omega arith) in
    let half : (2 ^ k * 2 - 1) / 2 ≡ 2 ^ k - 1 = omega arith in
    rw (pow-suc 2 k) (
      omega (
        arith,
        bit_and_low a (2 ^ k * 2 - 1),
        ap (bit_and (a / 2)) half,
        bit_and_mask k (a / 2),
        mod_double a (2 ^ k) pos,
      ))

-- Bit `k`, as the emulator's flag tests read it.
pub bit_and-bit : (k a : ℕ) → bit_and a (2 ^ k) ≡ testbit k a * 2 ^ k
bit_and-bit zero a = omega (arith, bit_and_low a 1, bit_and-zero (a / 2))
bit_and-bit (suc k) a =
    rw (pow-suc 2 k)
      (omega (arith, bit_and_twice a (2 ^ k), ap (λ (t : ℕ). t * 2) (bit_and-bit k (a / 2))))

-- A mask of `j` bits above `k` others.
pub bit_and_field : (j k a : ℕ) → bit_and a ((2 ^ j - 1) * 2 ^ k) ≡ a / 2 ^ k % 2 ^ j * 2 ^ k
bit_and_field j k a =
    bit_and-shift k a (2 ^ j - 1) ∙ ap (λ (t : ℕ). t * 2 ^ k) (bit_and_mask j (a / 2 ^ k))

pub bit_and-le : (a b : ℕ) → bit_and a b ≤ a
bit_and-le =
    by_halves (λ n. (m : ℕ) → bit_and n m ≤ n) (λ m. omega (arith, bit_and-bitwise 0 m))
      (λ n half m. omega (arith, bit_and_low (suc n) m, half (m / 2)))

-- `|` and `^` of values that fit `k` bits fit `k` bits.
pub bit_or-lt : (k a b : ℕ) → a < 2 ^ k → b < 2 ^ k → bit_or a b < 2 ^ k
bit_or-lt zero zero zero ha hb = omega arith
bit_or-lt zero (suc a) b ha hb = absurd (omega arith)
bit_or-lt zero zero (suc b) ha hb = absurd (omega arith)
bit_or-lt (suc k) a b ha hb = omega (
  arith,
  pow-suc 2 k,
  bit_or_low a b,
  bit_or-lt k (a / 2) (b / 2) (omega (arith, pow-suc 2 k)) (omega (arith, pow-suc 2 k)),
)

pub bit_xor-lt : (k a b : ℕ) → a < 2 ^ k → b < 2 ^ k → bit_xor a b < 2 ^ k
bit_xor-lt zero zero zero ha hb = omega arith
bit_xor-lt zero (suc a) b ha hb = absurd (omega arith)
bit_xor-lt zero zero (suc b) ha hb = absurd (omega arith)
bit_xor-lt (suc k) a b ha hb = omega (
  arith,
  pow-suc 2 k,
  bit_xor_low a b,
  differ-lt a b,
  bit_xor-lt k (a / 2) (b / 2) (omega (arith, pow-suc 2 k)) (omega (arith, pow-suc 2 k)),
)
