-- ===== src/Memory/Blocks.antt =====
-- cpu/memory.cpp, load_image, load_string and clear: what they change, and where they go wrong.
use door86c.Common.{
  ℕ, zero, suc, ◌+◌, ◌-◌, ◌^◌, ◌≤◌, ◌<◌, ◌≡◌, ◌⊎◌, refl, ap, arith, true, false, none, some, List,
  [], ◌∷◌, leb, if◌then◌else◌, length, get_elem?,
}
use mathlib.Core.Option
use door86c.Memory.{Memory, load_image, load_string, moved, clear, cleared}

-- An element that is there.
get_elem?-get_or :
    (xs : List ℕ) (i : ℕ) → i < length xs → get_elem? xs i ≡ some (Option.get_or (get_elem? xs i) 0)
get_elem?-get_or [] i h = absurd (omega arith)
get_elem?-get_or (x ∷ xs) zero h = refl
get_elem?-get_or (x ∷ xs) (suc i) h = get_elem?-get_or xs i (omega arith)

-- The bytes of `image` stand in memory from `start` on, and nothing else has changed.
pub record Loaded (start : ℕ) (image : List ℕ) (m m' : Memory) : Type 0 where
  pub size_kept : m'.size ≡ m.size
  pub image_there : (i : ℕ) → i < length image → get_elem? image i ≡ some (m'.cells (start + i))
  pub others_kept : (i : ℕ) → (i < start) ⊎ (start + length image ≤ i) → m'.cells i ≡ m.cells i

-- A byte of the image, where it was put.
there :
    (start : ℕ) (image : List ℕ) (m : Memory) (i : ℕ)
    → i < length image
    → (moved m start image).cells (start + i) ≡ Option.get_or (get_elem? image i) 0
there start image m i h =
    let back : start + i - start ≡ i = omega arith in
    ground (arith, ap (λ k. Option.get_or (get_elem? image k) 0) back)

pub moved-Loaded :
    (m : Memory) (start : ℕ) (image : List ℕ) → Loaded start image m (moved m start image)
moved-Loaded m start image = record {
  size_kept = refl;
  image_there = λ i h. rw (there start image m i h) (get_elem?-get_or image i h);
  others_kept = λ i h. ground arith;
}

module _ (m : Memory) (start : ℕ) (image : List ℕ) (size_is_int : m.size < 2 ^ 31) where
  -- An image or a string that fits is loaded: `load_image` and `load_string` return true, the bytes
  -- of the image stand in memory from `start` on, and nothing else changes.
  pub load_image-Loaded :
      start + length image ≤ m.size
      → (m' : Memory) × (load_image m start image ≡ some (m', true))
        × (load_string m start image ≡ some (m', true))
        × Loaded start image m m'
  unfolding load_image load_string
  load_image-Loaded inside =
      (moved m start image, ground arith, ground arith, moved-Loaded m start image)

  -- An image that begins in memory and does not fit is refused, and memory stays as it is. One that
  -- begins beyond the end of memory passes the test for its size, which wraps, and is written
  -- outside of the array.
  pub load_image-refused :
      m.size < start + length image
      → length image < 2 ^ 62
      → start < 2 ^ 62
      → load_image m start image ≡ (if leb start m.size then some (m, false) else none)
  unfolding load_image
  load_image-refused over length_fits start_fits = ground arith

-- `clear` of a range in memory returns true, leaves zeros in it, and changes nothing else.
pub clear_lem :
    (m : Memory) (start size : ℕ)
    → m.size < 2 ^ 31
    → start + size ≤ m.size
    → (m' : Memory) × (clear m start size ≡ some (m', true))
      × (m'.size ≡ m.size)
      × ((i : ℕ) → i < size → m'.cells (start + i) ≡ 0)
      × ((i : ℕ) → (i < start) ⊎ (start + size ≤ i) → m'.cells i ≡ m.cells i)
unfolding clear
clear_lem m start size size_is_int inside =
    (cleared m start size, ground arith, refl, λ i h. ground arith, λ i h. ground arith)
