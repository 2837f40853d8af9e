-- ===== src/Dos/Exe/Header.antt =====
-- dos/exe.cpp, read_exe_header: a file written field by field is read back.
use door86c.Common.{
  drop, ℕ, ◌+◌, ◌-◌, ◌*◌, ◌/◌, ◌%◌, ◌^◌, ◌<◌, ◌≤◌, ◌≡◌, refl, arith, true, false, ◌==◌, Option,
  none, some, List, [], ◌∷◌, ◌++◌, length, if◌then◌else◌, ap, sym, subst, Bool, length-append, ◌∙◌,
}
use mathlib.Core.List.{append_assoc}
use door86c.Dos.Exe.{
  Exe, ExeHeader, ExeReloc, read_word, read_words, whole_header, not_mz, read_header, read_relocs,
  binary_size_of, with_relocs, read_rest, read_exe_header,
}

abbrev pub AllWords : List ℕ → Type 0
AllWords [] = Unit {0}
AllWords (w ∷ ws) = (w < 2 ^ 16) × AllWords ws

-- Words as bytes, the low one first.
abbrev pub encode : List ℕ → List ℕ
encode [] = []
encode (w ∷ ws) = w % 256 ∷ w / 256 ∷ encode ws

abbrev pub header_words : ExeHeader → List ℕ
header_words h =
    h.signature ∷ h.bytes_in_last_block ∷ h.blocks_in_file ∷ h.num_relocs ∷ h.header_paragraphs
    ∷ h.min_extra_paragraphs ∷ h.max_extra_paragraphs ∷ h.ss ∷ h.sp ∷ h.checksum ∷ h.ip ∷ h.cs
    ∷ h.reloc_table_offset ∷ h.overlay_number ∷ []

abbrev pub reloc_words : List ExeReloc → List ℕ
reloc_words [] = []
reloc_words (r ∷ rs) = r.offset ∷ r.segment ∷ reloc_words rs

read_words-encode :
    (ws rest : List ℕ) → AllWords ws → read_words (length ws) (encode ws ++ rest) ≡ some (ws, rest)
unfolding read_words read_word
read_words-encode [] rest h = refl
read_words-encode (w ∷ ws) rest (fits, h) =
    let whole : w % 256 + w / 256 * 256 ≡ w = omega arith in
    rw (read_words-encode ws rest h, whole) refl

read_relocs-encode :
    (rs : List ExeReloc) (rest : List ℕ)
    → AllWords (reloc_words rs)
    → read_relocs (length rs) (encode (reloc_words rs) ++ rest) ≡ some rs
unfolding read_relocs read_word
read_relocs-encode [] rest h = refl
read_relocs-encode (r ∷ rs) rest (h1, (h2, h)) =
    let offset : r.offset % 256 + r.offset / 256 * 256 ≡ r.offset = omega arith in
    let segment : r.segment % 256 + r.segment / 256 * 256 ≡ r.segment = omega arith in
    rw (read_relocs-encode rs rest h, offset, segment) refl

drop-append : (xs ys : List ℕ) → drop (length xs) (xs ++ ys) ≡ ys
drop-append [] ys = refl
drop-append (x ∷ xs) ys = drop-append xs ys

read_header-encode :
    (h : ExeHeader) (rest : List ℕ)
    → AllWords (header_words h)
    → read_header (encode (header_words h) ++ rest) ≡ some h
unfolding read_header
read_header-encode h rest words = ap whole_header (read_words-encode (header_words h) rest words)

not_taken : (b : Bool) (o : Option Exe) → b ≡ false → (if b then none else o) ≡ o
not_taken true o e = cc
not_taken false o e = refl

binary_size_lem :
    (h : ExeHeader)
    → AllWords (header_words h)
    → 1 ≤ h.blocks_in_file
    → binary_size_of h ≡ (
        if h.bytes_in_last_block == 0
        then h.blocks_in_file * 512
        else (h.blocks_in_file - 1) * 512 + h.bytes_in_last_block)
unfolding binary_size_of
binary_size_lem h (a, (b, (c, rest))) some_block = ground arith

-- The bytes of a file: the header, what stands between it and the relocation table, the table, and
-- what follows.
abbrev pub file_of : ExeHeader → List ℕ → List ExeReloc → List ℕ → List ℕ
file_of h gap rs image = encode (header_words h) ++ (gap ++ (encode (reloc_words rs) ++ image))

-- A file with the signature of an EXE, whose header gives the number of relocations and where the
-- table is, with at least one block, is read back: `read_exe_header` finds every field of the header
-- and every entry of the table, and the binary's size is that of the full blocks and of the bytes in
-- the last one.
pub read_exe_header-file_of :
    (h : ExeHeader) (gap image : List ℕ) (rs : List ExeReloc)
    → AllWords (header_words h)
    → AllWords (reloc_words rs)
    → h.signature ≡ 0x5a4d
    → h.num_relocs ≡ length rs
    → h.reloc_table_offset ≡ 28 + length gap
    → 1 ≤ h.blocks_in_file
    → read_exe_header (some (file_of h gap rs image))
      ≡ some (record {
        hdr = h;
        relos = rs;
        binary_size =
            if h.bytes_in_last_block == 0
            then h.blocks_in_file * 512
            else (h.blocks_in_file - 1) * 512 + h.bytes_in_last_block;
      })
unfolding read_exe_header read_rest with_relocs
read_exe_header-file_of h gap image rs words relocs mz count table some_block =
    let bytes = file_of h gap rs image in
    let tail = encode (reloc_words rs) ++ image in
    let signed : not_mz (h.signature % 256) (h.signature / 256) ≡ false = rw mz refl in
    let passed : drop (length (encode (header_words h) ++ gap)) bytes ≡ tail =
      subst (λ t. drop (length (encode (header_words h) ++ gap)) t ≡ tail)
        (append_assoc (encode (header_words h)) gap tail)
        (drop-append (encode (header_words h) ++ gap) tail) in
    let at_table : drop h.reloc_table_offset bytes ≡ tail =
      let far : length (encode (header_words h) ++ gap) ≡ h.reloc_table_offset =
        omega (arith, length-append (encode (header_words h)) gap, table) in
      subst (λ n. drop n bytes ≡ tail) far passed in
    let found : read_relocs h.num_relocs (drop h.reloc_table_offset bytes) ≡ some rs =
      subst (λ t. read_relocs h.num_relocs t ≡ some rs) (sym at_table)
        (subst (λ n. read_relocs n tail ≡ some rs) (sym count)
          (read_relocs-encode rs image relocs)) in
    not_taken (not_mz (h.signature % 256) (h.signature / 256)) _ signed
    ∙ ap (read_rest bytes) (read_header-encode h (gap ++ tail) words)
    ∙ ap (with_relocs h) found
    ∙ ap (λ (n : ℕ). some (record { hdr = h; relos = rs; binary_size = n }))
        (binary_size_lem h words some_block)
