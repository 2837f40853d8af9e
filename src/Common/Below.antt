-- ===== src/Common/Below.antt =====
-- A property of all small numbers, by trying each of them.
use Prim.Native.Nat.{ℕ, zero, suc, ◌<◌}
use mathlib.Core.Path.{◌≡◌, refl}
use mathlib.Core.Logic.{◌⊎◌, inl, inr}
use mathlib.Core.Bool.{Bool, true, false, ◌&&◌}
use native.Mathlib.Omega.{arith}

abbrev pub all_below : ℕ → (ℕ → Bool) → Bool
all_below zero test = true
all_below (suc n) test = test n && all_below n test

last_or_below : (k n : ℕ) → k < suc n → (k ≡ n) ⊎ (k < n)
last_or_below k n h = ground arith

pub both : (a b : Bool) → (a && b) ≡ true → (a ≡ true) × (b ≡ true)
both true b h = (refl, h)
both false b h = cc

pub all_below_lem :
    (n : ℕ) (test : ℕ → Bool) → all_below n test ≡ true → (k : ℕ) → k < n → test k ≡ true
all_below_lem zero test h k small = absurd (omega arith)
all_below_lem (suc n) test h k small =
    let (here, below) = both (test n) (all_below n test) h in
    elim (last_or_below k n small) [
      | inl last ↦ rw last here
      | inr smaller ↦ all_below_lem n test below k smaller
    ]
