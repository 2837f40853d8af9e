-- ===== src/Dos/MemoryManager.antt =====
-- dos/dos.h and dos/dos.cpp, DosMemoryManager: first-fit or last-fit allocation of conventional
-- memory in 16-byte paragraphs. The blocks are a vector in the order of their addresses.
pub mod Tiling
pub mod Leases
pub mod Freeing
use door86c.Common.{
  ℕ, ◌+◌, ◌-◌, ◌^◌, Bool, true, false, ◌&&◌, Option, none, some, List, [], ◌∷◌, u16, leb, ◌==◌,
  if◌then◌else◌,
}
use Prim.Native.String.{String}

pub data MemoryAvail : Type 0 where
  free used system : MemoryAvail

pub record MemoryBlock : Type 0 where
  pub avail : MemoryAvail
  pub start : ℕ
  pub size : ℕ
  pub owner : ℕ
  pub prog_name : String

pub data FitStrategy : Type 0 where
  first best last : FitStrategy

pub record DosMemoryManager : Type 0 where
  pub start_seg : ℕ
  pub end_seg : ℕ
  pub fit : FitStrategy
  pub blocks : List MemoryBlock

unfoldable pub make_block : ℕ → ℕ → MemoryAvail → MemoryBlock
make_block start size avail = record {
  avail = avail;
  start = start;
  size = size;
  owner = 0;
  prog_name = "";
}

-- The constructor: one free block over the whole range.
unfoldable pub make_manager : ℕ → ℕ → DosMemoryManager
unfolding make_block
make_manager start_seg end_seg = record {
  start_seg = start_seg;
  end_seg = end_seg;
  fit = first;
  blocks = make_block start_seg (u16 (end_seg + 2 ^ 16 - start_seg)) free ∷ [];
}

abbrev pub is_free : MemoryAvail → Bool
is_free free = true
is_free used = false
is_free system = false

abbrev pub is_used : MemoryAvail → Bool
is_used free = false
is_used used = true
is_used system = false

-- `it->avail == free && it->size >= segs`
abbrev pub fits : ℕ → MemoryBlock → Bool
fits segs b = is_free b.avail && leb segs b.size

abbrev pub Found : Type 0
Found = Option (ℕ × List MemoryBlock)

-- Puts a block that the search passed by back in front of its result.
abbrev pub behind : MemoryBlock → Found → Found
behind b none = none
behind b (some (start, bs)) = some (start, b ∷ bs)

-- The block found from the front: taken whole if at most 256 paragraphs would be left over, else
-- cut, with the rest free behind it.
unfoldable pub take_front : ℕ → MemoryBlock → List MemoryBlock → Found
unfolding make_block
take_front segs b bs =
    if leb (b.size - segs) 256
    then some (b.start, record b { avail = used } ∷ bs)
    else some (
      b.start,
      record b { size = segs; avail = used }
          ∷ make_block (u16 (b.start + segs)) (b.size - segs) free
          ∷ bs,
    )

-- The block found from the back: it shrinks, and the new block is put behind it.
unfoldable pub take_back : ℕ → MemoryBlock → List MemoryBlock → Found
unfolding make_block
take_back segs b bs =
    if leb (b.size - segs) 256
    then some (b.start, record b { avail = used } ∷ bs)
    else some (
      u16 (b.start + (b.size - segs)),
      record b { size = b.size - segs; avail = free }
          ∷ make_block (u16 (b.start + (b.size - segs))) segs used
          ∷ bs,
    )

unfoldable pub allocate_first : ℕ → List MemoryBlock → Found
unfolding take_front
allocate_first segs [] = none
allocate_first segs (b ∷ bs) =
    if fits segs b then take_front segs b bs else behind b (allocate_first segs bs)

-- The loop from `rbegin`: what stands behind a block is tried before it.
abbrev or_else : Found → Found → Found
or_else none other = other
or_else (some r) other = some r

unfoldable pub allocate_last : ℕ → List MemoryBlock → Found
unfolding take_back
allocate_last segs [] = none
allocate_last segs (b ∷ bs) =
    or_else (behind b (allocate_last segs bs)) (if fits segs b then take_back segs b bs else none)

abbrev pub search_blocks : FitStrategy → ℕ → List MemoryBlock → Found
search_blocks last segs bs = allocate_last segs bs
search_blocks first segs bs = allocate_first segs bs
search_blocks best segs bs = allocate_first segs bs

abbrev pub finish : DosMemoryManager → Found → DosMemoryManager × Option ℕ
finish m none = (m, none)
finish m (some (start, bs)) = (record m { blocks = bs }, some start)

-- Every strategy but `last` takes the first block that fits.
unfoldable pub allocate : DosMemoryManager → ℕ → DosMemoryManager × Option ℕ
unfolding allocate_first allocate_last
allocate m segs = finish m (search_blocks m.fit segs m.blocks)

unfoldable pub free_blocks : ℕ → List MemoryBlock → Option (List MemoryBlock)
free_blocks seg [] = none
free_blocks seg (b ∷ bs) =
    if b.start == seg && is_used b.avail
    then some (record b { avail = free; owner = 0 } ∷ bs)
    else elim (free_blocks seg bs) [ none ↦ none | some rest ↦ some (b ∷ rest) ]

abbrev pub freed : DosMemoryManager → Option (List MemoryBlock) → DosMemoryManager × Bool
freed m none = (m, false)
freed m (some bs) = (record m { blocks = bs }, true)

unfoldable pub free_block : DosMemoryManager → ℕ → DosMemoryManager × Bool
unfolding free_blocks
free_block m seg = freed m (free_blocks seg m.blocks)

unfoldable pub set_strategy : DosMemoryManager → FitStrategy → DosMemoryManager
set_strategy m fit = record m { fit = fit }
