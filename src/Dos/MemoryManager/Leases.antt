-- ===== src/Dos/MemoryManager/Leases.antt =====
-- dos/dos.cpp, DosMemoryManager, against what it promises: a set of leased blocks, to which
-- `allocate` adds one and from which `free` takes one.
use door86c.Common.{
  ℕ, ◌+◌, ◌-◌, ◌≤◌, ◌≡◌, refl, Bool, true, false, Option, none, some, List, [], ◌∷◌, ◌++◌, arith,
  leb, if◌then◌else◌, inl, inr, both, Bool-cases, ◌||◌,
}
use door86c.Dos.MemoryManager.{
  MemoryAvail, free, used, system, MemoryBlock, FitStrategy, first, best, last, DosMemoryManager,
  Found, fits, behind, take_front, take_back, allocate_first, allocate_last, search_blocks,
  allocate, is_free, is_used, or_else, finish,
}

-- The leased blocks: where each begins, and its size.
abbrev pub leases : List MemoryBlock → List (ℕ × ℕ)
leases [] = []
leases (b ∷ bs) = if is_used b.avail then (b.start, b.size) ∷ leases bs else leases bs

-- `new` is `old` with `x` put in somewhere.
pub record Inserted (x : ℕ × ℕ) (old new : List (ℕ × ℕ)) : Type 0 where
  pub before : List (ℕ × ℕ)
  pub after : List (ℕ × ℕ)
  pub old_is : old ≡ before ++ after
  pub new_is : new ≡ before ++ x ∷ after

abbrev pub any_fits : ℕ → List MemoryBlock → Bool
any_fits segs [] = false
any_fits segs (b ∷ bs) = fits segs b || any_fits segs bs

-- A search fails exactly if no free block is large enough; else the block that it leases out begins
-- at the segment returned, is at least as large as asked for, and at most 256 paragraphs larger.
abbrev pub Granted : ℕ → List MemoryBlock → Found → Type 0
Granted segs bs none = any_fits segs bs ≡ false
Granted segs bs (some (start, bs')) =
    (any_fits segs bs ≡ true)
    × (size : ℕ) × Inserted (start, size) (leases bs) (leases bs')
    × (segs ≤ size)
    × (size ≤ segs + 256)

pub Inserted-here : (x : ℕ × ℕ) (old : List (ℕ × ℕ)) → Inserted x old (x ∷ old)
Inserted-here x old = record { before = []; after = old; old_is = refl; new_is = refl }

Inserted-later :
    (x y : ℕ × ℕ) (old new : List (ℕ × ℕ)) → Inserted x old new → Inserted x (y ∷ old) (y ∷ new)
Inserted-later x y old new i = record {
  before = y ∷ i.before;
  after = i.after;
  old_is = cc;
  new_is = cc;
}

-- A block passed by keeps its lease.
pub Inserted-leases :
    (x : ℕ × ℕ) (b : MemoryBlock) (bs bs' : List MemoryBlock)
    → Inserted x (leases bs) (leases bs')
    → Inserted x (leases (b ∷ bs)) (leases (b ∷ bs'))
Inserted-leases x b bs bs' i = elim (Bool-cases (is_used b.avail)) [
  | inl leased ↦ rw leased (Inserted-later x _ (leases bs) (leases bs') i)
  | inr other ↦ rw other i
]

free-unused : (a : MemoryAvail) → is_free a ≡ true → is_used a ≡ false
free-unused free h = refl
free-unused used h = cc
free-unused system h = refl

-- A block that fits has no lease yet.
unleased :
    (segs : ℕ) (b : MemoryBlock) (bs : List MemoryBlock) {x : ℕ × ℕ} {new : List (ℕ × ℕ)}
    → fits segs b ≡ true
    → Inserted x (leases bs) new
    → Inserted x (leases (b ∷ bs)) new
unleased segs b bs h i = rw (free-unused b.avail (both (is_free b.avail) _ h).0) i

take_front-Granted :
    (segs : ℕ) (b : MemoryBlock) (bs : List MemoryBlock)
    → fits segs b ≡ true
    → Granted segs (b ∷ bs) (take_front segs b bs)
unfolding take_front
take_front-Granted segs b bs h = elim (Bool-cases (leb (b.size - segs) 256)) [
  | inl little_left ↦ rw little_left (
    ground arith,
    b.size,
    unleased segs b bs h (Inserted-here (b.start, b.size) (leases bs)),
    ground arith,
    ground arith,
  )
  | inr cut ↦ rw cut (
    ground arith,
    segs,
    unleased segs b bs h (Inserted-here (b.start, segs) (leases bs)),
    omega arith,
    omega arith,
  )
]

take_back-Granted :
    (segs : ℕ) (b : MemoryBlock) (bs : List MemoryBlock)
    → fits segs b ≡ true
    → Granted segs (b ∷ bs) (take_back segs b bs)
unfolding take_back
take_back-Granted segs b bs h = elim (Bool-cases (leb (b.size - segs) 256)) [
  | inl little_left ↦ rw little_left (
    ground arith,
    b.size,
    unleased segs b bs h (Inserted-here (b.start, b.size) (leases bs)),
    ground arith,
    ground arith,
  )
  | inr cut ↦ rw cut (
    ground arith,
    segs,
    unleased segs b bs h (Inserted-here _ (leases bs)),
    omega arith,
    omega arith,
  )
]

either : (a b : Bool) → b ≡ true → (a || b) ≡ true
either true b h = refl
either false b h = h

-- A search that succeeds behind a block succeeds with the block in front.
behind-Granted :
    (segs : ℕ) (b : MemoryBlock) (bs bs' : List MemoryBlock) (start : ℕ)
    → Granted segs bs (some (start, bs'))
    → Granted segs (b ∷ bs) (some (start, b ∷ bs'))
behind-Granted segs b bs bs' start g = (
  either (fits segs b) (any_fits segs bs) g.0,
  g.1,
  Inserted-leases (start, g.1) b bs bs' g.2,
  g.3,
  g.4,
)

first_step :
    (segs : ℕ) (b : MemoryBlock) (bs : List MemoryBlock) (r : Found)
    → fits segs b ≡ false
    → Granted segs bs r
    → Granted segs (b ∷ bs) (behind b r)
first_step segs b bs none h g = rw h g
first_step segs b bs (some (start, bs')) h g = behind-Granted segs b bs bs' start g

pick :
    (segs : ℕ) (bs : List MemoryBlock) (c : Bool) (x y : Found)
    → (c ≡ true → Granted segs bs x)
    → (c ≡ false → Granted segs bs y)
    → Granted segs bs (if c then x else y)
pick segs bs true x y here passed = here refl
pick segs bs false x y here passed = passed refl

allocate_first-Granted :
    (segs : ℕ) (bs : List MemoryBlock) → Granted segs bs (allocate_first segs bs)
unfolding allocate_first
allocate_first-Granted segs [] = refl
allocate_first-Granted segs (b ∷ bs) =
    pick segs (b ∷ bs) (fits segs b) _ _ (λ here. take_front-Granted segs b bs here)
      (λ passed. first_step segs b bs _ passed (allocate_first-Granted segs bs))

last_step :
    (segs : ℕ) (b : MemoryBlock) (bs : List MemoryBlock) (r : Found)
    → Granted segs bs r
    → Granted segs
        (b ∷ bs)
        (or_else (behind b r) (if fits segs b then take_back segs b bs else none))
last_step segs b bs none g =
    pick segs (b ∷ bs) (fits segs b) _ _ (λ here. take_back-Granted segs b bs here)
      (λ passed. rw passed g)
last_step segs b bs (some (start, bs')) g = behind-Granted segs b bs bs' start g

allocate_last-Granted : (segs : ℕ) (bs : List MemoryBlock) → Granted segs bs (allocate_last segs bs)
unfolding allocate_last
allocate_last-Granted segs [] = refl
allocate_last-Granted segs (b ∷ bs) = last_step segs b bs _ (allocate_last-Granted segs bs)

search_blocks-Granted :
    (fit : FitStrategy) (segs : ℕ) (bs : List MemoryBlock)
    → Granted segs bs (search_blocks fit segs bs)
search_blocks-Granted first = allocate_first-Granted
search_blocks-Granted best = allocate_first-Granted
search_blocks-Granted last = allocate_last-Granted

-- The result of `allocate` on a manager.
abbrev pub Leased : ℕ → DosMemoryManager → DosMemoryManager × Option ℕ → Type 0
Leased segs m (m', none) = (m' ≡ m) × (any_fits segs m.blocks ≡ false)
Leased segs m (m', some start) =
    (any_fits segs m.blocks ≡ true)
    × (size : ℕ) × Inserted (start, size) (leases m.blocks) (leases m'.blocks)
    × (segs ≤ size)
    × (size ≤ segs + 256)

finish-Leased :
    (segs : ℕ) (m : DosMemoryManager) (r : Found)
    → Granted segs m.blocks r
    → Leased segs m (finish m r)
finish-Leased segs m none g = (refl, g)
finish-Leased segs m (some (start, bs)) g = g

-- Under every strategy `allocate` fails, and changes nothing, exactly if no free block is large
-- enough. Else it adds one lease to those there are and keeps each of them: the new one begins at
-- the segment that is returned, and has as many paragraphs as asked for, or up to 256 more.
pub allocate-Leased : (m : DosMemoryManager) (segs : ℕ) → Leased segs m (allocate m segs)
unfolding allocate
allocate-Leased m segs =
    finish-Leased segs m (search_blocks m.fit segs m.blocks)
      (search_blocks-Granted m.fit segs m.blocks)
