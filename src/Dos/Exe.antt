-- ===== src/Dos/Exe.antt =====
-- dos/exe.h and dos/exe.cpp: the header of an EXE file, and how an image is put into memory and
-- relocated. A file is its bytes, or `none` if it cannot be opened; `read_file` is what the class
-- `File` of the core library reads from an offset to the file's end.
pub mod Relocated
pub mod Header
use door86c.Common.{
  drop, ℕ, zero, suc, ◌+◌, ◌-◌, ◌*◌, ◌^◌, Bool, true, false, ◌&&◌, not, Option, none, some, List,
  [], ◌∷◌, length, u16, u32, leb, ◌==◌, nonzero, if◌then◌else◌,
}
use mathlib.Core.Option
use door86c.Memory.{Memory, abs16, set_abs16, moved}
use door86c.Machine.Exec.{Exec, Step, ok, out_of_bounds, pure, ◌>>=◌, ◌>>◌, lift, try_memory}
use door86c.Execute.Operands.{skip}

pub record ExeHeader : Type 0 where
  pub signature : ℕ
  pub bytes_in_last_block : ℕ
  pub blocks_in_file : ℕ
  pub num_relocs : ℕ
  pub header_paragraphs : ℕ
  pub min_extra_paragraphs : ℕ
  pub max_extra_paragraphs : ℕ
  pub ss : ℕ
  pub sp : ℕ
  pub checksum : ℕ
  pub ip : ℕ
  pub cs : ℕ
  pub reloc_table_offset : ℕ
  pub overlay_number : ℕ

pub record ExeReloc : Type 0 where
  pub offset : ℕ
  pub segment : ℕ

-- `binary_size` is an `int`: its low 32 bits.
pub record Exe : Type 0 where
  pub hdr : ExeHeader
  pub relos : List ExeReloc
  pub binary_size : ℕ

-- `fread` of a 16-bit word.
unfoldable pub read_word : List ℕ → Option (ℕ × List ℕ)
read_word [] = none
read_word (lo ∷ []) = none
read_word (lo ∷ hi ∷ rest) = some (lo + hi * 256, rest)

unfoldable pub is_exe : Option (List ℕ) → Bool
is_exe none = false
is_exe (some []) = false
is_exe (some (m ∷ [])) = false
is_exe (some (m ∷ z ∷ rest)) = m == 0x4d && z == 0x5a

-- The words of a structure, in order.
unfoldable pub read_words : ℕ → List ℕ → Option (List ℕ × List ℕ)
unfolding read_word
read_words zero bytes = some ([], bytes)
read_words (suc n) bytes = elim (read_word bytes) [
  | none ↦ none
  | some (w, rest) ↦ Option.map (λ (r : List ℕ × List ℕ). (w ∷ r.0, r.1)) (read_words n rest)
]

abbrev pub header_of : List ℕ → Option ExeHeader
header_of (a ∷ b ∷ c ∷ d ∷ e ∷ f ∷ g ∷ h ∷ i ∷ j ∷ k ∷ l ∷ m ∷ n ∷ []) = some (record {
  signature = a;
  bytes_in_last_block = b;
  blocks_in_file = c;
  num_relocs = d;
  header_paragraphs = e;
  min_extra_paragraphs = f;
  max_extra_paragraphs = g;
  ss = h;
  sp = i;
  checksum = j;
  ip = k;
  cs = l;
  reloc_table_offset = m;
  overlay_number = n;
})
header_of ws = none

abbrev pub whole_header : Option (List ℕ × List ℕ) → Option ExeHeader
whole_header none = none
whole_header (some (ws, rest)) = header_of ws

-- `fread(&exe.hdr, sizeof(exe_header_t), 1, fp)`
unfoldable pub read_header : List ℕ → Option ExeHeader
read_header bytes = whole_header (read_words 14 bytes)

unfoldable pub read_relocs : ℕ → List ℕ → Option (List ExeReloc)
unfolding read_word
read_relocs zero bytes = some []
read_relocs (suc n) bytes = elim (read_word bytes) [
  | none ↦ none
  | some (offset, rest) ↦ elim (read_word rest) [
    | none ↦ none
    | some (segment, rest') ↦
        Option.map (λ (rs : List ExeReloc). record { offset = offset; segment = segment } ∷ rs)
          (read_relocs n rest')
  ]
]

unfoldable pub binary_size_of : ExeHeader → ℕ
binary_size_of h = u32 (
    h.blocks_in_file * 512
    + h.bytes_in_last_block
    + (if nonzero h.bytes_in_last_block then 2 ^ 32 - 512 else 0))

-- The two bytes that stop the reading: neither of them is the one of an EXE.
abbrev pub not_mz : ℕ → ℕ → Bool
not_mz m z = not (m == 0x4d) && not (z == 0x5a)

unfoldable pub with_relocs : ExeHeader → Option (List ExeReloc) → Option Exe
with_relocs h none = none
with_relocs h (some rs) = some (record { hdr = h; relos = rs; binary_size = binary_size_of h })

unfoldable pub read_rest : List ℕ → Option ExeHeader → Option Exe
read_rest bytes none = none
read_rest bytes (some h) =
    with_relocs h (read_relocs h.num_relocs (drop h.reloc_table_offset bytes))

unfoldable pub read_exe_header : Option (List ℕ) → Option Exe
read_exe_header none = none
read_exe_header (some []) = none
read_exe_header (some (m ∷ [])) = none
read_exe_header (some (m ∷ z ∷ rest)) =
    if not_mz m z then none else read_rest (m ∷ z ∷ rest) (read_header (m ∷ z ∷ rest))

unfoldable pub header_size : Exe → ℕ
header_size exe = exe.hdr.header_paragraphs * 0x10

-- In bytes, cut to 16 bits.
unfoldable pub memory_needed : Exe → ℕ
memory_needed exe = u16 (exe.hdr.min_extra_paragraphs * 16 + exe.binary_size + 256)

-- Bytes put into memory at `start`; outside of the array that is undefined.
unfoldable pub store_bytes : ℕ → List ℕ → Step
store_bytes start bytes s =
    try_memory
      (if leb (start + length bytes) s.memory.size then some (moved s.memory start bytes) else none)
      s

-- The 16-bit word at an absolute address, and the segment of the image added to it.
unfoldable pub relocate : ℕ → ExeReloc → Step
unfolding abs16 set_abs16
relocate image_seg relo = do
  let addr = relo.segment * 0x10 + image_seg * 0x10 + relo.offset
  relo_seg ← λ s. lift out_of_bounds (abs16 s.memory addr) s
  (λ s. try_memory (set_abs16 s.memory addr (u16 (relo_seg + image_seg))) s)

unfoldable pub relocate_all : ℕ → List ExeReloc → Step
unfolding relocate
relocate_all image_seg [] = skip
relocate_all image_seg (relo ∷ relos) = do relocate image_seg relo; relocate_all image_seg relos

-- The rest of the file, if there is one.
unfoldable pub load_bytes : ℕ → Option (List ℕ) → Exec Bool
unfolding store_bytes
load_bytes base_segment none = pure false
load_bytes base_segment (some bytes) = do store_bytes (base_segment * 0x10) bytes; pure true

module _ (read_file : ℕ → Option (List ℕ)) where
  -- The free function `load_image`: false if there is no file.
  unfoldable pub load_image : ℕ → ℕ → Exec Bool
  unfolding load_bytes
  load_image base_segment offset = load_bytes base_segment (read_file offset)

  -- `Exe::load_image`. The members that it sets for later are not read by any code.
  unfoldable pub load_exe : Exe → ℕ → Exec Bool
  unfolding load_image relocate_all header_size
  load_exe exe base_segment = do
    let image_seg = u16 (base_segment + 0x10)
    loaded ← load_image image_seg (header_size exe)
    if loaded then (do relocate_all image_seg exe.relos; pure true) else pure false
