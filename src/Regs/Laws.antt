-- ===== src/Regs/Laws.antt =====
-- A write to a register and the reads after it, through either view of the union.
use door86c.Common.{ℕ, refl, ◌≤◌, ◌<◌, ◌≡◌, Option, some, arith, ◌==◌, if◌then◌else◌, below_eight}
use door86c.Regs.{Regs, get16, set16, get8, set8}
use mathlib.Core.Option.{get_or}

abbrev pub after : Regs → Option Regs → Regs
after r o = get_or o r

-- A word written through `regs16` is read back, and the seven other words stay.
pub get16-set16 :
    (r : Regs) (n m v : ℕ)
    → n < 8
    → m < 8
    → get16 (after r (set16 r n v)) m ≡ (if m == n then some v else get16 r m)
unfolding get16 set16
get16-set16 r n m v hn hm =
    let row = λ (k : ℕ). get16 (after r (set16 r k v)) m ≡ (if m == k then some v else get16 r m) in
    below_eight row
      (
        ground arith,
        ground arith,
        ground arith,
        ground arith,
        ground arith,
        ground arith,
        ground arith,
        ground arith,
      )
      n hn

-- A byte written through `regs8` is read back, and the seven other bytes stay, the other half of
-- the same word among them.
pub get8-set8 :
    (r : Regs) (n m v : ℕ)
    → n < 8
    → m < 8
    → v < 256
    → get8 (after r (set8 r n v)) m ≡ (if m == n then some v else get8 r m)
unfolding get8 set8
get8-set8 r n m v hn hm hv =
    let row = λ (k : ℕ). get8 (after r (set8 r k v)) m ≡ (if m == k then some v else get8 r m) in
    below_eight row
      (
        ground arith,
        ground arith,
        ground arith,
        ground arith,
        ground arith,
        ground arith,
        ground arith,
        ground arith,
      )
      n hn

-- SP, BP, SI and DI have no byte registers: a byte written leaves them as they are.
pub get16-set8 :
    (r : Regs) (n m v : ℕ) → n < 8 → 4 ≤ m → m < 8 → get16 (after r (set8 r n v)) m ≡ get16 r m
unfolding get16 set8
get16-set8 r n m v hn h4 h8 =
    below_eight (λ k. get16 (after r (set8 r k v)) m ≡ get16 r m)
      (
        ground arith,
        ground arith,
        ground arith,
        ground arith,
        ground arith,
        ground arith,
        ground arith,
        ground arith,
      )
      n hn

-- A write to one of the eight words or bytes succeeds.
pub set16-some : (r : Regs) (n v : ℕ) → n < 8 → set16 r n v ≡ some (after r (set16 r n v))
unfolding set16
set16-some r n v small =
    below_eight (λ k. set16 r k v ≡ some (after r (set16 r k v)))
      (refl, refl, refl, refl, refl, refl, refl, refl) n small

pub set8-some : (r : Regs) (n v : ℕ) → n < 8 → set8 r n v ≡ some (after r (set8 r n v))
unfolding set8
set8-some r n v small =
    below_eight (λ k. set8 r k v ≡ some (after r (set8 r k v)))
      (refl, refl, refl, refl, refl, refl, refl, refl) n small
