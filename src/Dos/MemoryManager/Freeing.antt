-- ===== src/Dos/MemoryManager/Freeing.antt =====
-- dos/dos.cpp, DosMemoryManager::free, against the set of leased blocks.
use door86c.Common.{
  ℕ, ◌≡◌, refl, Bool, true, false, Option, none, some, List, [], ◌∷◌, ◌++◌, arith, ◌==◌,
  if◌then◌else◌, both, ◌&&◌, ◌||◌,
}
use door86c.Dos.MemoryManager.{
  free, MemoryBlock, DosMemoryManager, free_blocks, free_block, is_used, freed,
}
use door86c.Dos.MemoryManager.Leases.{leases, Inserted, Inserted-here, Inserted-leases}

abbrev pub leased_at : ℕ → List (ℕ × ℕ) → Bool
leased_at seg [] = false
leased_at seg ((start, size) ∷ rest) = start == seg || leased_at seg rest

abbrev pub FreedFrom : ℕ → List MemoryBlock → Option (List MemoryBlock) → Type 0
FreedFrom seg bs none = leased_at seg (leases bs) ≡ false
FreedFrom seg bs (some bs') = (size : ℕ) × Inserted (seg, size) (leases bs') (leases bs)

free_later :
    (seg : ℕ) (b : MemoryBlock) (bs : List MemoryBlock) (r : Option (List MemoryBlock))
    → (b.start == seg && is_used b.avail) ≡ false
    → FreedFrom seg bs r
    → FreedFrom seg (b ∷ bs) (elim r [ none ↦ none | some rest ↦ some (b ∷ rest) ])
free_later seg b bs none h g = ground arith
free_later seg b bs (some rest) h g = (g.0, Inserted-leases (seg, g.0) b rest bs g.1)

free_here :
    (seg : ℕ) (b : MemoryBlock) (bs : List MemoryBlock)
    → (b.start == seg && is_used b.avail) ≡ true
    → FreedFrom seg (b ∷ bs) (some (record b { avail = free; owner = 0 } ∷ bs))
free_here seg b bs h =
    let (at_seg, leased) = both (b.start == seg) (is_used b.avail) h in
    let start_is : b.start ≡ seg = ground arith in
    rw (leased, start_is) (b.size, Inserted-here (seg, b.size) (leases bs))

pick_freed :
    (seg : ℕ) (bs : List MemoryBlock) (c : Bool) (x y : Option (List MemoryBlock))
    → (c ≡ true → FreedFrom seg bs x)
    → (c ≡ false → FreedFrom seg bs y)
    → FreedFrom seg bs (if c then x else y)
pick_freed seg bs true x y here passed = here refl
pick_freed seg bs false x y here passed = passed refl

free_blocks-FreedFrom : (seg : ℕ) (bs : List MemoryBlock) → FreedFrom seg bs (free_blocks seg bs)
unfolding free_blocks
free_blocks-FreedFrom seg [] = refl
free_blocks-FreedFrom seg (b ∷ bs) =
    pick_freed seg (b ∷ bs) (b.start == seg && is_used b.avail) _ _
      (λ here. free_here seg b bs here)
      (λ passed. free_later seg b bs (free_blocks seg bs) passed (free_blocks-FreedFrom seg bs))

-- The result of `free` on a manager.
abbrev pub Freed : ℕ → DosMemoryManager → DosMemoryManager × Bool → Type 0
Freed seg m (m', false) = (m' ≡ m) × (leased_at seg (leases m.blocks) ≡ false)
Freed seg m (m', true) = (size : ℕ) × Inserted (seg, size) (leases m'.blocks) (leases m.blocks)

freed-Freed :
    (seg : ℕ) (m : DosMemoryManager) (r : Option (List MemoryBlock))
    → FreedFrom seg m.blocks r
    → Freed seg m (freed m r)
freed-Freed seg m none g = (refl, g)
freed-Freed seg m (some bs) g = g

-- `free` fails, and changes nothing, exactly if no lease begins at the segment. Else it takes one
-- lease that begins there away, and keeps every other.
pub free_block-Freed : (m : DosMemoryManager) (seg : ℕ) → Freed seg m (free_block m seg)
unfolding free_block
free_block-Freed m seg =
    freed-Freed seg m (free_blocks seg m.blocks) (free_blocks-FreedFrom seg m.blocks)

leased_at-append :
    (seg size : ℕ) (before after : List (ℕ × ℕ))
    → leased_at seg (before ++ (seg, size) ∷ after) ≡ true
leased_at-append seg size [] after = ground arith
leased_at-append seg size ((start, n) ∷ before) after =
    ground (arith, leased_at-append seg size before after)

lease_found :
    (m : DosMemoryManager) (seg size : ℕ) (old : List (ℕ × ℕ)) (r : DosMemoryManager × Bool)
    → Inserted (seg, size) old (leases m.blocks)
    → Freed seg m r
    → r.1 ≡ true
lease_found m seg size old (m', true) i g = refl
lease_found m seg size old (m', false) i (same, unleased) =
    absurd (ground (arith, i.new_is, unleased, leased_at-append seg size i.before i.after))

-- What was leased out can be given back.
pub free_block-leased :
    (m : DosMemoryManager) (seg size : ℕ) (old : List (ℕ × ℕ))
    → Inserted (seg, size) old (leases m.blocks)
    → (free_block m seg).1 ≡ true
free_block-leased m seg size old i =
    lease_found m seg size old (free_block m seg) i (free_block-Freed m seg)
