-- ===== src/Examples/Listing.antt =====
-- Listings of two instructions.
use door86c.Common.{
  ℕ, zero, suc, ◌-◌, ◌/◌, ◌%◌, ◌^◌, ◌≡◌, ◌≢◌, refl, some, List, [], ◌∷◌, ◌++◌, codes, length,
}
use door86c.Decoder.{has_modrm}
use door86c.Decoder.Print.{Formats, debug_string}
use door86c.Dis.{Columns, finished, out_of_fuel, disasm_code, disasm_hex, hex_block, end_block}
use door86c.Dis.Dumps.{feed, disasm_hex-feed}
use door86c.Dis.Listings.{code, Lines, disasm_code-Lines, disasm_code-ends}
use door86c.Debugger.Gdb.Library.{hex_digit}
use door86c.Examples.Data.{mov_cafe}
use door86c.Examples.Decoding.{cafe, mov_cafe_decodes}

-- So many digits of a number.
abbrev digits : ℕ → ℕ → List ℕ
digits zero n = []
digits (suc k) n = hex_digit (n / 16 ^ k % 16) ∷ digits k n

abbrev blanks : ℕ → List ℕ
blanks zero = []
blanks (suc k) = 32 ∷ blanks k

abbrev formats : Formats
formats = record {
  hex02 = digits 2;
  hex04 = digits 4;
  decimal = digits 1;
  pad10 = λ t. t ++ blanks (10 - length t);
}

abbrev columns : Columns
columns = record { formats = formats; hex08 = digits 8; field48 = λ t. t ++ blanks (48 - length t) }

cafe_text : debug_string formats cafe ≡ some (codes "B8FECA    MOV AX 0xCAFE ")
unfolding debug_string has_modrm
cafe_text = refl

cafe_bytes :
    disasm_hex columns (some (0 ∷ mov_cafe)) 1
    ≡ finished (codes "00000001  B8 FE CA                                          ...\r\n")
unfolding disasm_hex hex_block end_block
cafe_bytes = refl

disasm_code-Lines_example :
    (text : List ℕ) × (disasm_code columns (some (codes "MZ" ++ code (cafe ∷ cafe ∷ []))) 2
      ≡ finished text)
    × Lines columns 0 (cafe ∷ cafe ∷ []) text
disasm_code-Lines_example =
    disasm_code-Lines columns (codes "MZ") (cafe ∷ cafe ∷ [])
      (mov_cafe_decodes, (mov_cafe_decodes, tt))

disasm_code-ends_example : disasm_code columns (some (codes "MZ" ++ mov_cafe)) 2 ≢ out_of_fuel
disasm_code-ends_example = disasm_code-ends columns (some (codes "MZ" ++ mov_cafe)) 2

disasm_hex-feed_example :
    disasm_hex columns (some (0 ∷ mov_cafe)) 1
    ≡ finished
        (end_block columns (
          feed columns mov_cafe
            (record { row = 1; line1 = []; line2 = []; curline = 0; out = [] }))).out
disasm_hex-feed_example = disasm_hex-feed columns (0 ∷ mov_cafe) 1
