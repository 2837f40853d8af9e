-- ===== src/Dos/MemoryManager/Tiling.antt =====
-- dos/dos.cpp, DosMemoryManager: the blocks cover the managed range.
use door86c.Common.{
  ℕ, ◌+◌, ◌^◌, ◌≤◌, ◌<◌, ◌≡◌, refl, Option, none, some, List, [], ◌∷◌, arith, if◌then◌else◌, inl,
  inr, Option-cases,
}
use door86c.Dos.MemoryManager.{
  MemoryBlock, FitStrategy, first, best, last, DosMemoryManager, make_manager, Found, fits, behind,
  take_back, allocate_first, allocate_last, search_blocks, allocate, free_blocks, free_block,
  finish, freed, set_strategy, or_else,
}

-- The blocks cover the paragraphs from `lo` to `hi`, each beginning where the one before ends.
abbrev pub Tiles : ℕ → ℕ → List MemoryBlock → Type 0
Tiles lo hi [] = lo ≡ hi
Tiles lo hi (b ∷ bs) = (b.start ≡ lo) × Tiles (lo + b.size) hi bs

abbrev FoundTiles : ℕ → ℕ → Found → Type 0
FoundTiles lo hi none = Unit {0}
FoundTiles lo hi (some (start, bs)) = Tiles lo hi bs

Tiles-le : (lo hi : ℕ) (bs : List MemoryBlock) → Tiles lo hi bs → lo ≤ hi
Tiles-le lo hi [] t = omega arith
Tiles-le lo hi (b ∷ bs) t = omega (arith, Tiles-le (lo + b.size) hi bs t.1)

behind-Tiles :
    (lo hi : ℕ) (b : MemoryBlock) (r : Found)
    → b.start ≡ lo
    → FoundTiles (lo + b.size) hi r
    → FoundTiles lo hi (behind b r)
behind-Tiles lo hi b none e t = tt
behind-Tiles lo hi b (some r) e t = (e, t)

or_else-Tiles :
    (lo hi : ℕ) (r other : Found)
    → FoundTiles lo hi r
    → FoundTiles lo hi other
    → FoundTiles lo hi (or_else r other)
or_else-Tiles lo hi none other t t' = t'
or_else-Tiles lo hi (some r) other t t' = t

module _ (hi segs : ℕ) (hi_fits : hi < 2 ^ 16) where
  allocate_first-Tiles :
      (lo : ℕ) (bs : List MemoryBlock) → Tiles lo hi bs → FoundTiles lo hi (allocate_first segs bs)
  unfolding allocate_first
  allocate_first-Tiles lo [] t = tt
  allocate_first-Tiles lo (b ∷ bs) t =
      ground (arith, allocate_first-Tiles (lo + b.size) bs t.1, Tiles-le (lo + b.size) hi bs t.1)

  take_back-Tiles :
      (lo : ℕ) (b : MemoryBlock) (bs : List MemoryBlock)
      → Tiles lo hi (b ∷ bs)
      → FoundTiles lo hi (if fits segs b then take_back segs b bs else none)
  unfolding take_back
  take_back-Tiles lo b bs t = ground (arith, Tiles-le (lo + b.size) hi bs t.1)

  allocate_last-Tiles :
      (lo : ℕ) (bs : List MemoryBlock) → Tiles lo hi bs → FoundTiles lo hi (allocate_last segs bs)
  unfolding allocate_last
  allocate_last-Tiles lo [] t = tt
  allocate_last-Tiles lo (b ∷ bs) t =
      or_else-Tiles lo hi _ _
        (behind-Tiles lo hi b _ t.0 (allocate_last-Tiles (lo + b.size) bs t.1))
        (take_back-Tiles lo b bs t)

  search_blocks-Tiles :
      (fit : FitStrategy) (lo : ℕ) (bs : List MemoryBlock)
      → Tiles lo hi bs
      → FoundTiles lo hi (search_blocks fit segs bs)
  search_blocks-Tiles first lo bs t = allocate_first-Tiles lo bs t
  search_blocks-Tiles best lo bs t = allocate_first-Tiles lo bs t
  search_blocks-Tiles last lo bs t = allocate_last-Tiles lo bs t

free_blocks-Tiles :
    (lo hi seg : ℕ) (bs bs' : List MemoryBlock)
    → Tiles lo hi bs
    → free_blocks seg bs ≡ some bs'
    → Tiles lo hi bs'
unfolding free_blocks
free_blocks-Tiles lo hi seg [] bs' t h = cc
free_blocks-Tiles lo hi seg (b ∷ bs) bs' t h = elim (Option-cases (free_blocks seg bs)) [
  | inl missing ↦ ground arith
  | inr (rest, e) ↦ ground (arith, free_blocks-Tiles (lo + b.size) hi seg bs rest t.1 e)
]

-- What the program asks of the manager.
pub data Call : Type 0 where
  allocating : ℕ → Call
  freeing : ℕ → Call
  choosing : FitStrategy → Call

unfoldable pub after_call : DosMemoryManager → Call → DosMemoryManager
unfolding allocate free_block set_strategy
after_call m (allocating segs) = (allocate m segs).0
after_call m (freeing seg) = (free_block m seg).0
after_call m (choosing fit) = set_strategy m fit

unfoldable pub after_calls : DosMemoryManager → List Call → DosMemoryManager
unfolding after_call
after_calls m [] = m
after_calls m (c ∷ cs) = after_calls (after_call m c) cs

-- The manager keeps its range, and its blocks tile it.
pub record Sound (lo hi : ℕ) (m : DosMemoryManager) : Type 0 where
  pub from : m.start_seg ≡ lo
  pub to : m.end_seg ≡ hi
  pub tiles : Tiles lo hi m.blocks

finish-Sound :
    (lo hi : ℕ) (m : DosMemoryManager) (r : Found)
    → Sound lo hi m
    → FoundTiles lo hi r
    → Sound lo hi (finish m r).0
finish-Sound lo hi m none s t = s
finish-Sound lo hi m (some r) s t = record { from = s.from; to = s.to; tiles = t }

freed-Sound :
    (lo hi : ℕ) (m : DosMemoryManager) (r : Option (List MemoryBlock))
    → Sound lo hi m
    → ((bs : List MemoryBlock) → r ≡ some bs → Tiles lo hi bs)
    → Sound lo hi (freed m r).0
freed-Sound lo hi m none s t = s
freed-Sound lo hi m (some bs) s t = record { from = s.from; to = s.to; tiles = t bs refl }

after_call-Sound :
    (lo hi : ℕ) (m : DosMemoryManager) (c : Call)
    → hi < 2 ^ 16
    → Sound lo hi m
    → Sound lo hi (after_call m c)
unfolding after_call allocate free_block set_strategy
after_call-Sound lo hi m (allocating segs) h s =
    finish-Sound lo hi m _ s (search_blocks-Tiles hi segs h m.fit lo m.blocks s.tiles)
after_call-Sound lo hi m (freeing seg) h s =
    freed-Sound lo hi m _ s (λ bs e. free_blocks-Tiles lo hi seg m.blocks bs s.tiles e)
after_call-Sound lo hi m (choosing fit) h s = record { from = s.from; to = s.to; tiles = s.tiles }

after_calls-Sound :
    (lo hi : ℕ) (m : DosMemoryManager) (cs : List Call)
    → hi < 2 ^ 16
    → Sound lo hi m
    → Sound lo hi (after_calls m cs)
unfolding after_calls
after_calls-Sound lo hi m [] h s = s
after_calls-Sound lo hi m (c ∷ cs) h s =
    after_calls-Sound lo hi (after_call m c) cs h (after_call-Sound lo hi m c h s)

-- From a new manager over the segments `lo` to `hi`, after any sequence of allocations, frees and
-- changes of strategy, the blocks tile the range from `lo` to `hi`, in order, without a gap and
-- without an overlap.
pub after_calls-make_manager :
    (lo hi : ℕ) (cs : List Call)
    → lo ≤ hi
    → hi < 2 ^ 16
    → Sound lo hi (after_calls (make_manager lo hi) cs)
unfolding make_manager
after_calls-make_manager lo hi cs le h =
    after_calls-Sound lo hi (make_manager lo hi) cs h
      (record { from = refl; to = refl; tiles = (refl, omega arith) })
