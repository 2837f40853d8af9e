-- ===== src/Debugger/Gdb/Values.antt =====
-- debugger/gdb_debugger.cpp: what a client reads out of the hexadecimal texts of `to_intel_format_*`.
use mathlib.Core.List.{append_assoc}
use mathlib.Core.Option
use door86c.Common.{
  ℕ, ◌+◌, ◌*◌, ◌/◌, ◌%◌, ◌^◌, ◌<◌, ◌≡◌, refl, ap, ◌∙◌, arith, Option, none, some, List, [], ◌∷◌,
  ◌++◌, u8, u32, bit_and,
}
use door86c.Common.Bits.{bit_and_mask, bit_and_field}
use door86c.Debugger.Gdb.Library.{Library, IsDocumented}
use door86c.Debugger.Gdb.Hex.{to_intel_format_hex16, four_bytes, to_intel_format_seg_off}
use door86c.Debugger.Gdb.Request.{digit_value}
use door86c.Debugger.Gdb.Checksums.{digit_value-hex_digit}

abbrev pub pair : Option ℕ → Option ℕ → Option (List ℕ) → Option (List ℕ)
pair none b bytes = none
pair (some a) none bytes = none
pair (some a) (some b) none = none
pair (some a) (some b) (some bytes) = some ((a * 16 + b) ∷ bytes)

-- The bytes of a text of hexadecimal digits.
unfoldable pub read_bytes : List ℕ → Option (List ℕ)
read_bytes [] = some []
read_bytes (a ∷ []) = none
read_bytes (a ∷ b ∷ cs) = pair (digit_value a) (digit_value b) (read_bytes cs)

-- Numbers of 32 bits, the lowest byte first.
abbrev pub words : List ℕ → List ℕ
words [] = []
words (a ∷ []) = []
words (a ∷ b ∷ []) = []
words (a ∷ b ∷ c ∷ []) = []
words (a ∷ b ∷ c ∷ d ∷ bytes) = (a + b * 0x100 + c * 0x10000 + d * 0x1000000) ∷ words bytes

unfoldable pub read_words : List ℕ → Option (List ℕ)
unfolding read_bytes
read_words text = Option.map words (read_bytes text)

paired :
    (a b n : ℕ) (bytes : Option (List ℕ))
    → a * 16 + b ≡ n
    → pair (some a) (some b) bytes ≡ Option.map (λ t. n ∷ t) bytes
paired a b n none e = refl
paired a b n (some bytes) e = ap (λ t. some (t ∷ bytes)) e

grouped :
    (b0 b1 b2 b3 : ℕ) (bytes : Option (List ℕ))
    → Option.map words (
        Option.map
          (λ t. b0 ∷ t)
          (Option.map (λ t. b1 ∷ t) (Option.map (λ t. b2 ∷ t) (Option.map (λ t. b3 ∷ t) bytes))))
      ≡ Option.map
          (λ ws. (b0 + b1 * 0x100 + b2 * 0x10000 + b3 * 0x1000000) ∷ ws)
          (Option.map words bytes)
grouped b0 b1 b2 b3 none = refl
grouped b0 b1 b2 b3 (some bytes) = refl

module _ (l : Library) (doc : IsDocumented l) where
  pub read_bytes-hex02 :
      (n : ℕ) (rest : List ℕ)
      → n < 256
      → read_bytes (l.hex02 n ++ rest) ≡ Option.map (λ bytes. n ∷ bytes) (read_bytes rest)
  unfolding read_bytes
  read_bytes-hex02 n rest h =
      let whole : n / 16 * 16 + n % 16 ≡ n = omega arith in
      rw
        (
          doc.hex02_byte n h,
          digit_value-hex_digit (n / 16) (omega arith),
          digit_value-hex_digit (n % 16) (omega arith),
        )
        (paired (n / 16) (n % 16) n (read_bytes rest) whole)

  read_words-four :
      (b0 b1 b2 b3 : ℕ) (rest : List ℕ)
      → b0 < 256
      → b1 < 256
      → b2 < 256
      → b3 < 256
      → read_words (l.hex02 b0 ++ (l.hex02 b1 ++ (l.hex02 b2 ++ (l.hex02 b3 ++ rest))))
        ≡ Option.map
            (λ ws. (b0 + b1 * 0x100 + b2 * 0x10000 + b3 * 0x1000000) ∷ ws)
            (read_words rest)
  unfolding read_words
  read_words-four b0 b1 b2 b3 rest h0 h1 h2 h3 =
      rw
        (
          read_bytes-hex02 b0 (l.hex02 b1 ++ (l.hex02 b2 ++ (l.hex02 b3 ++ rest))) h0,
          read_bytes-hex02 b1 (l.hex02 b2 ++ (l.hex02 b3 ++ rest)) h1,
          read_bytes-hex02 b2 (l.hex02 b3 ++ rest) h2,
          read_bytes-hex02 b3 rest h3,
        )
        (grouped b0 b1 b2 b3 (read_bytes rest))

  four_bytes-append :
      (d : ℕ) (rest : List ℕ)
      → four_bytes l d ++ rest
        ≡ l.hex02 (d % 256)
          ++ (l.hex02 (d / 2 ^ 8 % 256)
              ++ (l.hex02 (d / 2 ^ 16 % 256) ++ (l.hex02 (d / 2 ^ 24 % 256) ++ rest)))
  unfolding four_bytes
  four_bytes-append d rest =
      let e0 : u8 (bit_and d 0xff) ≡ d % 256 = omega (arith, bit_and_mask 8 d) in
      let e1 : u8 (bit_and d 0xff00 / 2 ^ 8) ≡ d / 2 ^ 8 % 256 =
        omega (arith, bit_and_field 8 8 d) in
      let e2 : u8 (bit_and d 0xff0000 / 2 ^ 16) ≡ d / 2 ^ 16 % 256 =
        omega (arith, bit_and_field 8 16 d) in
      let e3 : u8 (bit_and d 0xff000000 / 2 ^ 24) ≡ d / 2 ^ 24 % 256 =
        omega (arith, bit_and_field 8 24 d) in
      rw (e0, e1, e2, e3)
        (append_assoc (l.hex02 (d % 256)) _ rest
          ∙ ap (λ t. l.hex02 (d % 256) ++ t)
              (append_assoc (l.hex02 (d / 2 ^ 8 % 256)) _ rest
                ∙ ap (λ t. l.hex02 (d / 2 ^ 8 % 256) ++ t)
                    (append_assoc (l.hex02 (d / 2 ^ 16 % 256)) _ rest)))

  four_bytes_value :
      (d : ℕ)
      → d < 2 ^ 32
      → d % 256
          + d / 2 ^ 8 % 256 * 0x100
          + d / 2 ^ 16 % 256 * 0x10000
          + d / 2 ^ 24 % 256 * 0x1000000
        ≡ d
  four_bytes_value d h = omega arith

  read_words-four_bytes :
      (d : ℕ) (rest : List ℕ)
      → d < 2 ^ 32
      → read_words (four_bytes l d ++ rest) ≡ Option.map (λ ws. d ∷ ws) (read_words rest)
  read_words-four_bytes d rest h =
      ap read_words (four_bytes-append d rest)
      ∙ read_words-four (d % 256) (d / 2 ^ 8 % 256) (d / 2 ^ 16 % 256) (d / 2 ^ 24 % 256) rest
          (omega arith) (omega arith) (omega arith) (omega arith)
      ∙ ap (λ (v : ℕ). Option.map (λ ws. v ∷ ws) (read_words rest)) (four_bytes_value d h)

  seg_off-four :
      (seg off : ℕ) → to_intel_format_seg_off l seg off ≡ four_bytes l (u32 (seg * 0x10 + off))
  unfolding to_intel_format_seg_off four_bytes
  seg_off-four seg off = refl

  pub read_words-seg_off :
      (seg off : ℕ) (rest : List ℕ)
      → seg < 2 ^ 16
      → off < 2 ^ 16
      → read_words (to_intel_format_seg_off l seg off ++ rest)
        ≡ Option.map (λ ws. (seg * 0x10 + off) ∷ ws) (read_words rest)
  read_words-seg_off seg off rest hs ho =
      let fits : u32 (seg * 0x10 + off) ≡ seg * 0x10 + off = omega arith in
      ap (λ t. read_words (t ++ rest)) (seg_off-four seg off ∙ ap (four_bytes l) fits)
      ∙ read_words-four_bytes (seg * 0x10 + off) rest (omega arith)

  hex16-append :
      (d : ℕ) (rest : List ℕ)
      → to_intel_format_hex16 l d ++ rest
        ≡ l.hex02 (d % 256) ++ (l.hex02 (d / 2 ^ 8 % 256) ++ (l.hex02 0 ++ (l.hex02 0 ++ rest)))
  unfolding to_intel_format_hex16
  hex16-append d rest =
      let e0 : bit_and d 0xff ≡ d % 256 = omega (arith, bit_and_mask 8 d) in
      let e1 : bit_and d 0xff00 / 2 ^ 8 ≡ d / 2 ^ 8 % 256 = omega (arith, bit_and_field 8 8 d) in
      rw (e0, e1, doc.hex02_byte 0 (omega arith))
        (append_assoc (l.hex02 (d % 256)) _ rest
          ∙ ap (λ t. l.hex02 (d % 256) ++ t) (append_assoc (l.hex02 (d / 2 ^ 8 % 256)) _ rest))

  pub read_words-hex16 :
      (d : ℕ) (rest : List ℕ)
      → d < 2 ^ 16
      → read_words (to_intel_format_hex16 l d ++ rest) ≡ Option.map (λ ws. d ∷ ws) (read_words rest)
  read_words-hex16 d rest h =
      let value : d % 256 + d / 2 ^ 8 % 256 * 0x100 + 0 * 0x10000 + 0 * 0x1000000 ≡ d =
        omega arith in
      ap read_words (hex16-append d rest)
      ∙ read_words-four (d % 256) (d / 2 ^ 8 % 256) 0 0 rest (omega arith) (omega arith)
          (omega arith) (omega arith)
      ∙ ap (λ (v : ℕ). Option.map (λ ws. v ∷ ws) (read_words rest)) value
