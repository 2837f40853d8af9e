-- ===== src/Dis.antt =====
-- dis/dis.cpp: the disassembler's listings of a file's code, as instructions or as bytes.
pub mod Listings
pub mod Dumps
use door86c.Common.{
  ℕ, zero, suc, ◌+◌, ◌-◌, ◌/◌, Bool, true, false, ◌&&◌, Option, none, some, List, [], ◌∷◌, ◌++◌,
  ◌==◌, ltb, leb, if◌then◌else◌, codes, get_elem?, length, drop, equal,
}
use door86c.Decoder.{Instruction, decode}
use door86c.Decoder.Print.{Formats, debug_string}

-- What is used of fmt besides: `{:08x}`, and `{:48.48}` of a text.
pub record Columns : Type 0 where
  pub formats : Formats
  pub hex08 : ℕ → List ℕ
  pub field48 : List ℕ → List ℕ

-- What a listing ends with. `reads_outside` is a read beyond the end of the bytes, which C++ leaves
-- undefined; `out_of_fuel` is none of the program's.
pub data Listing : Type 0 where
  finished : List ℕ → Listing
  reads_outside out_of_fuel : Listing

abbrev pub code_line : Columns → ℕ → List ℕ → List ℕ
code_line f off text = f.hex08 off ++ (codes " " ++ (text ++ codes "\n"))

abbrev pub printed : (List ℕ → Listing) → Option (List ℕ) → Listing
printed go_on none = reads_outside
printed go_on (some text) = go_on text

abbrev pub decoded : (Instruction → Listing) → Option Instruction → Listing
decoded go_on none = reads_outside
decoded go_on (some i) = go_on i

-- The loop of `disasm_code`, with what has been printed.
unfoldable pub list_code : Columns → ℕ → List ℕ → ℕ → ℕ → List ℕ → Listing
list_code f zero ops pos off out = out_of_fuel
list_code f (suc rounds) ops pos off out =
    let next =
      decoded
        (λ i.
          printed
            (λ text.
              list_code f rounds ops (pos + i.len) (off + i.len) (out ++ code_line f off text))
            (debug_string f.formats i))
        (decode (get_elem? (drop pos ops))) in
    if ltb pos (length ops) then next else finished out

-- `disasm_code` for what the file holds, if it can be read.
unfoldable pub disasm_code : Columns → Option (List ℕ) → ℕ → Listing
unfolding list_code
disasm_code f none code_offset = finished []
disasm_code f (some []) code_offset = finished []
disasm_code f (some (b ∷ bs)) code_offset =
    list_code f (suc (length (b ∷ bs))) (b ∷ bs) code_offset 0 []

-- A row of `disasm_hex` in the making, and what has been printed.
pub record Rows : Type 0 where
  pub row : ℕ
  pub line1 : List ℕ
  pub line2 : List ℕ
  pub curline : ℕ
  pub out : List ℕ

abbrev pub hex_line : Columns → Rows → List ℕ
hex_line f r =
    f.hex08 r.row
    ++ (codes "  " ++ (f.field48 r.line1 ++ (codes "  " ++ (r.line2 ++ codes "\r\n"))))

-- A character between 32 and 127, or a dot.
abbrev pub shown : ℕ → ℕ
shown ch = if leb 32 ch && leb ch 127 then ch else b'.'

unfoldable pub hex_byte : Columns → ℕ → Rows → Rows
hex_byte f ch r =
    let r1 = record r {
      line1 = r.line1 ++ (f.formats.hex02 ch ++ codes " ");
      line2 = r.line2 ++ shown ch ∷ [];
      curline = r.curline + 1;
    } in
    if r1.curline == 16
    then record {
      row = r1.row + 16;
      line1 = [];
      line2 = [];
      curline = 0;
      out = r1.out ++ hex_line f r1;
    }
    else r1

abbrev pub is_empty : List ℕ → Bool
is_empty [] = true
is_empty (c ∷ cs) = false

-- The rest of a row at the end of a block.
unfoldable pub end_block : Columns → Rows → Rows
end_block f r = if is_empty r.line1 then r else record r { out = r.out ++ hex_line f r }

-- The loop over a block's bytes, so many of them at most; what is left of the file.
unfoldable pub hex_block : Columns → ℕ → List ℕ → Rows → List ℕ × Rows
unfolding hex_byte
hex_block f zero bytes r = (bytes, r)
hex_block f (suc n) [] r = ([], r)
hex_block f (suc n) (ch ∷ bytes) r = hex_block f n bytes (hex_byte f ch r)

abbrev pub new_block : Rows → Rows
new_block r = record r { line1 = []; line2 = []; curline = 0 }

-- The loop over the blocks. A block of less than 1024 bytes is the last.
unfoldable pub list_hex : Columns → ℕ → List ℕ → Rows → Listing
list_hex f zero bytes r = out_of_fuel
list_hex f (suc rounds) bytes r =
    let (left, r1) = hex_block f 1024 bytes (new_block r) in
    let rest = list_hex f rounds left (end_block f r1) in
    if ltb (length bytes) 1024 then finished (end_block f r1).out else rest

-- `disasm_hex` for what the file holds.
unfoldable pub disasm_hex : Columns → Option (List ℕ) → ℕ → Listing
unfolding list_hex
disasm_hex f none code_offset = finished []
disasm_hex f (some bytes) code_offset =
    list_hex f (suc (length bytes)) (drop code_offset bytes)
      (record { row = code_offset; line1 = []; line2 = []; curline = 0; out = [] })

unfoldable pub disasm : Columns → Option (List ℕ) → ℕ → List ℕ → Listing
unfolding equal
disasm f content code_offset format =
    if equal format (codes "hex")
    then disasm_hex f content code_offset
    else disasm_code f content code_offset
