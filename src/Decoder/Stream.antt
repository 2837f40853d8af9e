-- ===== src/Decoder/Stream.antt =====
-- What `decode` reads from the byte stream: the bytes that it records, and no other.
use door86c.Common.{
  ℕ, suc, ◌+◌, ◌≤◌, ◌≡◌, refl, sym, ap, subst, inl, inr, some, List, [], ◌∷◌, ◌++◌, arith,
  Option-cases, length, length-append, get_elem?,
}
use mathlib.Core.List.{append_assoc}
use door86c.Decoder.Table.{op_data}
use door86c.Decoder.{
  Instruction, Cursor, Fetch, decode_start, decode_modrm, decode_imm, decode_metadata, decode,
  decode_bytes,
}
use door86c.Decoder.Stages.{bind-some, Gives, decode_imm_lem, decode_modrm_lem, decode_start_lem}

Gives-append :
    (fetch : Fetch) (o : ℕ) (xs ys : List ℕ)
    → Gives fetch o xs
    → Gives fetch (o + length xs) ys
    → Gives fetch o (xs ++ ys)
Gives-append fetch o [] ys g h =
    let e : o + 0 ≡ o = omega arith in subst (λ t. Gives fetch t ys) e h
Gives-append fetch o (x ∷ xs) ys g h =
    let e : o + suc (length xs) ≡ o + 1 + length xs = omega arith in
    (g.0, Gives-append fetch (o + 1) xs ys g.1 (subst (λ t. Gives fetch t ys) e h))

Gives-split :
    (fetch : Fetch) (o : ℕ) (xs ys : List ℕ)
    → Gives fetch o (xs ++ ys)
    → Gives fetch o xs × Gives fetch (o + length xs) ys
Gives-split fetch o [] ys g =
    let e : o ≡ o + 0 = omega arith in (tt, subst (λ t. Gives fetch t ys) e g)
Gives-split fetch o (x ∷ xs) ys g =
    let rest = Gives-split fetch (o + 1) xs ys g.1 in
    let e : o + 1 + length xs ≡ o + suc (length xs) = omega arith in
    ((g.0, rest.0), subst (λ t. Gives fetch t ys) e rest.1)

-- What a successful `decode` has to do with its stream: it starts with the recorded bytes, one to
-- seven of them, as many as counted; and every stream that starts with them decodes the same.
pub record Decodes (fetch : Fetch) (i : Instruction) : Type 0 where
  pub given : Gives fetch 0 i.bytes
  pub counted : i.len ≡ length i.bytes
  pub some_byte : 1 ≤ i.len
  pub few : i.len ≤ 7
  pub again : (other : Fetch) → Gives other 0 i.bytes → decode other ≡ some i

decode_metadata_keeps :
    (c c' : Cursor)
    → decode_metadata c ≡ some c'
    → (c'.o ≡ c.o) × (c'.inst.bytes ≡ c.inst.bytes) × (c'.inst.len ≡ c.inst.len)
unfolding decode_metadata
decode_metadata_keeps c c' h = elim (Option-cases (op_data c.inst.op)) [
  | inl outside ↦ ground arith
  | inr (d, e) ↦ ground arith
]

-- The four stages of `decode`, with the cursors between them.
stages :
    (fetch : Fetch) (i : Instruction)
    → decode fetch ≡ some i
    → (c c1 c2 c3 : Cursor) × (decode_start fetch ≡ some c)
      × (decode_metadata c ≡ some c1)
      × (decode_modrm fetch c1 ≡ some c2)
      × (decode_imm fetch c2 ≡ some c3)
      × (c3.inst ≡ i)
unfolding decode
stages fetch i h =
    let (c, e, h1) = bind-some (decode_start fetch) _ h in
    let (c1, e1, h2) = bind-some (decode_metadata c) _ h1 in
    let (c2, e2, h3) = bind-some (decode_modrm fetch c1) _ h2 in
    let (c3, e3, h4) = bind-some (decode_imm fetch c2) _ h3 in
    (c, c1, c2, c3, e, e1, e2, e3, ground arith)

composed :
    (fetch : Fetch) (i : Instruction) (c c1 c2 c3 : Cursor)
    → decode_start fetch ≡ some c
    → decode_metadata c ≡ some c1
    → decode_modrm fetch c1 ≡ some c2
    → decode_imm fetch c2 ≡ some c3
    → c3.inst ≡ i
    → decode fetch ≡ some i
unfolding decode
composed fetch i c c1 c2 c3 e e1 e2 e3 e4 = rw (e, e1, e2, e3, e4) refl

-- If `decode` returns an instruction, the bytes that it has recorded are the first bytes of the
-- stream, one to seven of them and as many as its length says, and every other stream that begins
-- with these bytes decodes to the same instruction.
pub decode_lem : (fetch : Fetch) (i : Instruction) → decode fetch ≡ some i → Decodes fetch i
decode_lem fetch i h =
    let (c, c1, c2, c3, e, e1, e2, e3, e4) = stages fetch i h in
    let s = decode_start_lem fetch c e in
    let k = decode_metadata_keeps c c1 e1 in
    let m = decode_modrm_lem fetch c1 c2 e2 in
    let n = decode_imm_lem fetch c2 c3 e3 in
    let bytes_are : i.bytes ≡ s.bs ++ (m.bs ++ n.bs) = ground (
      arith,
      append_assoc s.bs m.bs n.bs,
      s.recorded,
      k,
      m.adds.recorded,
      n.adds.recorded,
      ap (λ (j : Instruction). j.bytes) e4,
    ) in
    let c1_o : c1.o ≡ 0 + length s.bs = omega (arith, s.moved, k.0) in
    let c2_o : c2.o ≡ 0 + length s.bs + length m.bs = omega (arith, c1_o, m.adds.moved) in
    let sizes : length i.bytes ≡ length s.bs + (length m.bs + length n.bs) =
      omega
        (arith, ap length bytes_are, length-append s.bs (m.bs ++ n.bs), length-append m.bs n.bs) in
    let len_is : i.len ≡ length i.bytes = omega (
      arith,
      sizes,
      ap (λ (j : Instruction). j.len) e4,
      s.counted,
      k.2,
      m.adds.counted,
      n.adds.counted,
    ) in
    record {
      given =
          subst (λ t. Gives fetch 0 t) (sym bytes_are)
            (Gives-append fetch 0 s.bs (m.bs ++ n.bs) s.given (
              Gives-append fetch (0 + length s.bs) m.bs n.bs
                (subst (λ t. Gives fetch t m.bs) c1_o m.adds.given)
                (subst (λ t. Gives fetch t n.bs) c2_o n.adds.given)));
      counted = len_is;
      some_byte = omega (arith, len_is, sizes, s.some_byte);
      few = omega (arith, len_is, sizes, s.few, m.few, n.few);
      again = λ other g.
          let (gs, rest) =
            Gives-split other 0 s.bs (m.bs ++ n.bs) (subst (λ t. Gives other 0 t) bytes_are g) in
          let (gm, gn) = Gives-split other (0 + length s.bs) m.bs n.bs rest in
          composed other i c c1 c2 c3 (s.again other gs) e1
            (m.again other (subst (λ t. Gives other t m.bs) (sym c1_o) gm))
            (n.again other (subst (λ t. Gives other t n.bs) (sym c2_o) gn)) e4;
    }

get_elem?-length :
    (done : List ℕ) (b : ℕ) (rest : List ℕ) → get_elem? (done ++ b ∷ rest) (length done) ≡ some b
get_elem?-length [] b rest = refl
get_elem?-length (x ∷ done) b rest = get_elem?-length done b rest

-- A list gives a piece of itself.
Gives-list : (done bs rest : List ℕ) → Gives (get_elem? (done ++ (bs ++ rest))) (length done) bs
Gives-list done [] rest = tt
Gives-list done (b ∷ bs) rest =
    let longer_by_one : length (done ++ b ∷ []) ≡ length done + 1 =
      omega (arith, length-append done (b ∷ [])) in
    let onward : Gives (get_elem? (done ++ (b ∷ bs ++ rest))) (length (done ++ b ∷ [])) bs =
      subst (λ t. Gives (get_elem? t) (length (done ++ b ∷ [])) bs)
        (append_assoc done (b ∷ []) (bs ++ rest)) (Gives-list (done ++ b ∷ []) bs rest) in
    (
      get_elem?-length done b (bs ++ rest),
      subst (λ t. Gives (get_elem? (done ++ (b ∷ bs ++ rest))) t bs) longer_by_one onward,
    )

-- The bytes that `decode` records are enough to decode the same instruction again, whatever bytes
-- follow them: an instruction's extent is fixed by its own bytes.
pub decode_bytes-append :
    (o rest : List ℕ) (i : Instruction)
    → decode_bytes o ≡ some i
    → decode_bytes (i.bytes ++ rest) ≡ some i
unfolding decode_bytes
decode_bytes-append o rest i h =
    (decode_lem (get_elem? o) i h).again (get_elem? (i.bytes ++ rest)) (Gives-list [] i.bytes rest)

row_found :
    (c c' : Cursor) → decode_metadata c ≡ some c' → op_data c'.inst.op ≡ some c'.inst.metadata
unfolding decode_metadata
row_found c c' h = elim (Option-cases (op_data c.inst.op)) [
  | inl outside ↦ ground arith
  | inr (d, e) ↦ ground arith
]

-- The metadata of a decoded instruction is the table's entry for its opcode.
pub decode-metadata :
    (fetch : Fetch) (i : Instruction) → decode fetch ≡ some i → op_data i.op ≡ some i.metadata
decode-metadata fetch i h =
    let (c, c1, c2, c3, e, e1, e2, e3, e4) = stages fetch i h in
    let m = (decode_modrm_lem fetch c1 c2 e2).adds in
    let n = (decode_imm_lem fetch c2 c3 e3).adds in
    let row = row_found c c1 e1 in
    let found : op_data c3.inst.op ≡ some c3.inst.metadata =
      rw (n.op_kept, n.metadata_kept, m.op_kept, m.metadata_kept) row in
    subst (λ (j : Instruction). op_data j.op ≡ some j.metadata) e4 found
