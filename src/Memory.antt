-- ===== src/Memory.antt =====
-- cpu/memory.h and cpu/memory.cpp: the emulated machine's memory, an array of `size_` bytes.
-- The array is the function `cells`; an access outside of it, which C++ leaves undefined, is
-- `none`. A 16-bit access reads the low byte first, as on the little-endian hosts it is built for.
pub mod Laws
pub mod Blocks
use door86c.Common.{
  ℕ, ◌+◌, ◌-◌, ◌*◌, ◌/◌, ◌%◌, ◌^◌, Bool, true, false, ◌&&◌, Option, none, some, List, u8, ltb, leb,
  ◌==◌, if◌then◌else◌, length, get_elem?,
}
use mathlib.Core.Option

-- The template argument of `get`, `set` and `Rmm`: `uint8_t` or `uint16_t`.
pub data Width : Type 0 where
  byte word : Width

pub record SegAddress : Type 0 where
  pub off : ℕ
  pub seg : ℕ

pub record Memory : Type 0 where
  pub size : ℕ
  pub cells : ℕ → ℕ

unfoldable pub make_memory : ℕ → Memory
make_memory size = record { size = size; cells = λ _. 0 }

unfoldable pub abs_memory : ℕ → ℕ → ℕ
abs_memory seg off = seg * 0x10 + off

abbrev pub update : (ℕ → ℕ) → ℕ → ℕ → ℕ → ℕ
update f loc v i = if i == loc then v else f i

unfoldable pub abs8 : Memory → ℕ → Option ℕ
abs8 m loc = if ltb loc m.size then some (m.cells loc) else none

unfoldable pub set_abs8 : Memory → ℕ → ℕ → Option Memory
set_abs8 m loc v = if ltb loc m.size then some (record m { cells = update m.cells loc v }) else none

unfoldable pub abs16 : Memory → ℕ → Option ℕ
abs16 m loc = if ltb (loc + 1) m.size then some (m.cells loc + m.cells (loc + 1) * 256) else none

unfoldable pub set_abs16 : Memory → ℕ → ℕ → Option Memory
set_abs16 m loc v =
    if ltb (loc + 1) m.size
    then some (record m { cells = update (update m.cells loc (v % 256)) (loc + 1) (v / 256) })
    else none

unfoldable pub get : Width → Memory → ℕ → ℕ → Option ℕ
unfolding abs8 abs16 abs_memory
get byte m seg off = abs8 m (abs_memory seg off)
get word m seg off = abs16 m (abs_memory seg off)

unfoldable pub set : Width → Memory → ℕ → ℕ → ℕ → Option Memory
unfolding set_abs8 set_abs16 abs_memory
set byte m seg off v = set_abs8 m (abs_memory seg off) v
set word m seg off v = set_abs16 m (abs_memory seg off) v

-- `size_ - start < size` is computed in `size_t`: a start beyond the end wraps.
abbrev too_big : Memory → ℕ → ℕ → Bool
too_big m start size = ltb ((m.size + 2 ^ 64 - start) % 2 ^ 64) size

-- Memory with the bytes of `image` from `start` on.
abbrev pub moved : Memory → ℕ → List ℕ → Memory
moved m start image = record m {
  cells = λ i.
      if leb start i && ltb i (start + length image)
      then Option.get_or (get_elem? image (i - start)) 0
      else m.cells i;
}

-- `memmove`, whose target has to lie inside of the array.
unfoldable move_in : Memory → ℕ → List ℕ → Option Memory
move_in m start image =
    if leb (start + length image) m.size then some (moved m start image) else none

-- Does the image fit? The memory after the call, and the result.
unfoldable pub load_image : Memory → ℕ → List ℕ → Option (Memory × Bool)
unfolding move_in
load_image m start image =
    if too_big m start (length image)
    then some (m, false)
    else Option.map (λ m'. (m', true)) (move_in m start image)

unfoldable load_image_seg : Memory → SegAddress → List ℕ → Option (Memory × Bool)
unfolding load_image abs_memory
load_image_seg m start image = load_image m (abs_memory start.seg start.off) image

unfoldable pub load_string : Memory → ℕ → List ℕ → Option (Memory × Bool)
unfolding load_image
load_string m start s = if too_big m start (length s) then some (m, false) else load_image m start s

abbrev pub cleared : Memory → ℕ → ℕ → Memory
cleared m start size = record m {
  cells = λ i. if leb start i && ltb i (start + size) then 0 else m.cells i;
}

unfoldable pub clear : Memory → ℕ → ℕ → Option (Memory × Bool)
clear m start size =
    if too_big m start size
    then some (m, false)
    else if leb (start + size) m.size
    then some (cleared m start size, true)
    else none
