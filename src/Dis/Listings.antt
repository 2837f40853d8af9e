-- ===== src/Dis/Listings.antt =====
-- dis/dis.cpp: what `disasm_code` lists.
use mathlib.Core.List.{append_assoc, append-nil}
use door86c.Common.{
  ℕ, zero, suc, ◌+◌, ◌≤◌, ◌<◌, ◌≡◌, ◌≢◌, refl, sym, ap, ◌∙◌, arith, true, false, Option, none, some,
  List, [], ◌∷◌, ◌++◌, ltb, Bool-cases, Option-cases, inl, inr, get_elem?, length, length-append,
  drop,
}
use door86c.Decoder.{Instruction, decode, decode_bytes}
use door86c.Decoder.Stream.{decode_lem, decode_bytes-append}
use door86c.Decoder.Print.{debug_string}
use door86c.Decoder.Printable.{decode-Printed}
use door86c.Dis.{
  Columns, Listing, finished, reads_outside, out_of_fuel, code_line, printed, list_code,
  disasm_code,
}

ltb→lt : (a b : ℕ) → ltb a b ≡ true → a < b
ltb→lt a b h = ground arith

lt→ltb : (a b : ℕ) → a < b → ltb a b ≡ true
lt→ltb a b h = ground arith

ltb-false→le : (a b : ℕ) → ltb a b ≡ false → b ≤ a
ltb-false→le a b h = ground arith

le→ltb-false : (a b : ℕ) → b ≤ a → ltb a b ≡ false
le→ltb-false a b h = ground arith

-- What one round does within the code.
list_code_step :
    (f : Columns) (rounds : ℕ) (ops : List ℕ) (pos off : ℕ) (out : List ℕ) (i : Instruction)
    (text : List ℕ)
    → pos < length ops
    → decode (get_elem? (drop pos ops)) ≡ some i
    → debug_string f.formats i ≡ some text
    → list_code f (suc rounds) ops pos off out
      ≡ list_code f rounds ops (pos + i.len) (off + i.len) (out ++ code_line f off text)
unfolding list_code
list_code_step f rounds ops pos off out i text inside e shown =
    rw (lt→ltb pos (length ops) inside, e)
      (ap
        (printed
          (λ t. list_code f rounds ops (pos + i.len) (off + i.len) (out ++ code_line f off t)))
        shown)

list_code_outside :
    (f : Columns) (rounds : ℕ) (ops : List ℕ) (pos off : ℕ) (out : List ℕ)
    → pos < length ops
    → decode (get_elem? (drop pos ops)) ≡ none
    → list_code f (suc rounds) ops pos off out ≡ reads_outside
unfolding list_code
list_code_outside f rounds ops pos off out inside e = rw (lt→ltb pos (length ops) inside, e) refl

list_code_end :
    (f : Columns) (rounds : ℕ) (ops : List ℕ) (pos off : ℕ) (out : List ℕ)
    → length ops ≤ pos
    → list_code f (suc rounds) ops pos off out ≡ finished out
unfolding list_code
list_code_end f rounds ops pos off out beyond = rw (le→ltb-false pos (length ops) beyond) refl

not_of_fuel : (a b : Listing) → a ≡ b → b ≢ out_of_fuel → a ≢ out_of_fuel
not_of_fuel a b e ne h = ne (sym e ∙ h)

-- Each round that goes on is further by the length of an instruction.
list_code-enough :
    (f : Columns) (rounds : ℕ) (ops : List ℕ) (pos off : ℕ) (out : List ℕ)
    → length ops < pos + rounds
    → 0 < rounds
    → list_code f rounds ops pos off out ≢ out_of_fuel
list_code-enough f zero ops pos off out h some_round = absurd (omega arith)
list_code-enough f (suc rounds) ops pos off out h some_round =
    elim (Bool-cases (ltb pos (length ops))) [
      | inl inside ↦ elim (Option-cases (decode (get_elem? (drop pos ops)))) [
        | inl ends ↦
            not_of_fuel _ _
              (list_code_outside f rounds ops pos off out (ltb→lt pos (length ops) inside) ends)
              (λ e. cc)
        | inr (i, e) ↦
            let (text, shown) = decode-Printed f.formats (get_elem? (drop pos ops)) i e in
            let some_byte = (decode_lem (get_elem? (drop pos ops)) i e).some_byte in
            let here = ltb→lt pos (length ops) inside in
            not_of_fuel _ _ (list_code_step f rounds ops pos off out i text here e shown) (
              list_code-enough f rounds ops (pos + i.len) (off + i.len)
                (out ++ code_line f off text) (omega arith) (omega arith))
      ]
      | inr beyond ↦
          not_of_fuel _ _
            (list_code_end f rounds ops pos off out (ltb-false→le pos (length ops) beyond))
            (λ e. cc)
    ]

-- Whatever a file holds and wherever its code begins: the loop ends after at most one round for
-- each byte of the file and one more; it ends with a listing or at a read beyond the end.
pub disasm_code-ends :
    (f : Columns) (content : Option (List ℕ)) (code_offset : ℕ)
    → disasm_code f content code_offset ≢ out_of_fuel
unfolding disasm_code
disasm_code-ends f none code_offset = λ e. cc
disasm_code-ends f (some []) code_offset = λ e. cc
disasm_code-ends f (some (b ∷ bs)) code_offset =
    list_code-enough f (suc (length (b ∷ bs))) (b ∷ bs) code_offset 0 [] (omega arith) (omega arith)

-- The bytes of instructions, one behind the other.
abbrev pub code : List Instruction → List ℕ
code [] = []
code (i ∷ is) = i.bytes ++ code is

-- Each is what its own bytes decode to.
abbrev pub AllDecoded : List Instruction → Type 0
AllDecoded [] = Unit {0}
AllDecoded (i ∷ is) = (decode_bytes i.bytes ≡ some i) × AllDecoded is

-- The lines of instructions, each with its offset from the first one.
pub data Lines (f : Columns) : ℕ → List Instruction → List ℕ → Type 0 where
  no_lines : {off : ℕ} → Lines f off [] []
  first_line :
      {off : ℕ} {i : Instruction} {is : List Instruction} (text : List ℕ) {rest : List ℕ}
      → debug_string f.formats i ≡ some text
      → Lines f (off + length i.bytes) is rest
      → Lines f off (i ∷ is) (code_line f off text ++ rest)

drop-append : (xs ys : List ℕ) → drop (length xs) (xs ++ ys) ≡ ys
drop-append [] ys = refl
drop-append (x ∷ xs) ys = drop-append xs ys

decode_bytes-fetch :
    (o : List ℕ) (i : Instruction) → decode_bytes o ≡ some i → decode (get_elem? o) ≡ some i
unfolding decode_bytes
decode_bytes-fetch o i e = e

own_bytes : (i : Instruction) → decode_bytes i.bytes ≡ some i → decode (get_elem? i.bytes) ≡ some i
own_bytes i e = decode_bytes-fetch i.bytes i e

moved_on :
    (f : Columns) (rounds : ℕ) (ops ops' : List ℕ) (pos pos' off off' : ℕ) (out : List ℕ)
    → ops ≡ ops'
    → pos ≡ pos'
    → off ≡ off'
    → list_code f rounds ops pos off out ≡ list_code f rounds ops' pos' off' out
moved_on f rounds ops ops' pos pos' off off' out e1 e2 e3 =
    ap (λ t. list_code f rounds t pos off out) e1
    ∙ ap (λ (n : ℕ). list_code f rounds ops' n off out) e2
    ∙ ap (λ (n : ℕ). list_code f rounds ops' pos' n out) e3

list_code-Lines :
    (f : Columns) (rounds : ℕ) (is : List Instruction) (done : List ℕ) (off : ℕ) (out : List ℕ)
    → length (code is) < rounds
    → AllDecoded is
    → (text : List ℕ) × (list_code f rounds (done ++ code is) (length done) off out
        ≡ finished (out ++ text))
      × Lines f off is text
list_code-Lines f zero is done off out h all = absurd (omega arith)
list_code-Lines f (suc rounds) [] done off out h all = (
  [],
  list_code_end f rounds (done ++ []) (length done) off out (omega (arith, length-append done []))
      ∙ ap finished (sym (append-nil out)),
  no_lines,
)
list_code-Lines f (suc rounds) (i ∷ is) done off out h (e, all) =
    let fetched = own_bytes i e in
    let read = decode_lem (get_elem? i.bytes) i fetched in
    let (text, shown) = decode-Printed f.formats (get_elem? i.bytes) i fetched in
    let onward = length-append i.bytes (code is) in
    let moved : length done + i.len ≡ length (done ++ i.bytes) =
      omega (arith, length-append done i.bytes, read.counted) in
    let out' = out ++ code_line f off text in
    let (rest, listed, lines) =
      list_code-Lines f rounds is (done ++ i.bytes) (off + length i.bytes) out'
        (omega (arith, onward, read.counted, read.some_byte)) all in
    (
      code_line f off text ++ rest,
      list_code_step f rounds (done ++ (i.bytes ++ code is)) (length done) off out i text
            (omega (
              arith,
              length-append done (i.bytes ++ code is),
              onward,
              read.counted,
              read.some_byte,
            ))
            (ap (λ t. decode (get_elem? t)) (drop-append done (i.bytes ++ code is))
              ∙ decode_bytes-fetch (i.bytes ++ code is) i
                  (decode_bytes-append i.bytes (code is) i e))
            shown
          ∙ moved_on f rounds (done ++ (i.bytes ++ code is)) ((done ++ i.bytes) ++ code is) _ _ _ _
              out' (sym (append_assoc done i.bytes (code is))) moved
              (ap (λ (n : ℕ). off + n) read.counted)
          ∙ listed
          ∙ ap finished (append_assoc out (code_line f off text) rest),
      first_line text shown lines,
    )

disasm_code-list_code :
    (f : Columns) (ops : List ℕ) (code_offset : ℕ)
    → disasm_code f (some ops) code_offset ≡ list_code f (suc (length ops)) ops code_offset 0 []
unfolding disasm_code
disasm_code-list_code f [] code_offset = sym (list_code_end f 0 [] code_offset 0 [] (omega arith))
disasm_code-list_code f (b ∷ bs) code_offset = refl

-- For a file that holds a header and then instructions, each the one that its own bytes decode to:
-- with the header's length as the offset of the code, the listing has exactly a line for each
-- instruction, in their order, each with its offset from the first one.
pub disasm_code-Lines :
    (f : Columns) (header : List ℕ) (is : List Instruction)
    → AllDecoded is
    → (text : List ℕ) × (disasm_code f (some (header ++ code is)) (length header) ≡ finished text)
      × Lines f 0 is text
disasm_code-Lines f header is all =
    let (text, listed, lines) =
      list_code-Lines f (suc (length (header ++ code is))) is header 0 []
        (omega (arith, length-append header (code is))) all in
    (text, disasm_code-list_code f (header ++ code is) (length header) ∙ listed, lines)
