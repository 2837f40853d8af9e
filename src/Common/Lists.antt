-- ===== src/Common/Lists.antt =====
-- Lists measured and indexed by native numbers, under the library's names.
use Prim.Native.Nat.{ℕ, zero, suc, ◌+◌, ◌<◌}
use mathlib.Core.Path.{◌≡◌, refl}
use mathlib.Core.List.{List, [], ◌∷◌, ◌++◌}
use mathlib.Core.Option.{Option, none, some}
use native.Mathlib.Omega.{arith}

module _ {ℓ} {A : Type ℓ} where
  abbrev pub length : List A → ℕ
  length [] = 0
  length (x ∷ xs) = suc (length xs)

  abbrev pub get_elem? : List A → ℕ → Option A
  get_elem? [] i = none
  get_elem? (x ∷ xs) zero = some x
  get_elem? (x ∷ xs) (suc i) = get_elem? xs i

  abbrev pub drop : ℕ → List A → List A
  drop zero xs = xs
  drop (suc n) [] = []
  drop (suc n) (x ∷ xs) = drop n xs

  pub length-append : (xs ys : List A) → length (xs ++ ys) ≡ length xs + length ys
  length-append [] ys = omega arith
  length-append (x ∷ xs) ys = omega (arith, length-append xs ys)

  pub get_elem?-append :
      (xs ys : List A) (i : ℕ) → i < length xs → get_elem? (xs ++ ys) i ≡ get_elem? xs i
  get_elem?-append [] ys i h = absurd (omega arith)
  get_elem?-append (x ∷ xs) ys zero h = refl
  get_elem?-append (x ∷ xs) ys (suc i) h = get_elem?-append xs ys i (omega arith)

-- Eight cases, one for each value of a three-bit field.
pub below_eight {ℓ} :
    (P : ℕ → Type ℓ) → P 0 × P 1 × P 2 × P 3 × P 4 × P 5 × P 6 × P 7 → (n : ℕ) → n < 8 → P n
below_eight P p zero h = p.0
below_eight P p (suc zero) h = p.1
below_eight P p (suc (suc zero)) h = p.2
below_eight P p (suc (suc (suc zero))) h = p.3
below_eight P p (suc (suc (suc (suc zero)))) h = p.4
below_eight P p (suc (suc (suc (suc (suc zero))))) h = p.5
below_eight P p (suc (suc (suc (suc (suc (suc zero)))))) h = p.6
below_eight P p (suc (suc (suc (suc (suc (suc (suc zero))))))) h = p.7
below_eight P p (suc (suc (suc (suc (suc (suc (suc (suc n)))))))) h = absurd (omega arith)
