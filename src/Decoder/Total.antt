-- ===== src/Decoder/Total.antt =====
-- cpu/x86/decoder.cpp: seven bytes are enough for every instruction.
use door86c.Common.{
  ℕ, ◌+◌, ◌*◌, ◌^◌, bit_or, ◌≤◌, ◌<◌, ◌≡◌, refl, inl, inr, Bool, true, false, Option, none, some,
  [], ◌∷◌, ◌++◌, arith, if◌then◌else◌, Option-cases,
}
use door86c.Decoder.Table.Laws.{op_data-Row}
use door86c.Decoder.{
  Instruction, Cursor, Fetch, ◌>>=◌, take_byte, take_word, longer, prefix, decode_start,
  decode_disp, decode_modrm, decode_imm, decode_metadata, decode, blank,
}
use door86c.Decoder.Stages.{decode_modrm_lem, decode_start_lem}

-- The stream has a byte at each offset below `n`.
abbrev pub Bytes : ℕ → Fetch → Type 0
Bytes n fetch = (o : ℕ) → o < n → (b : ℕ) × (fetch o ≡ some b) × (b < 256)

some_if :
    (test : Bool) (x y : Option Cursor)
    → (c : Cursor) × (x ≡ some c)
    → (c : Cursor) × (y ≡ some c)
    → (c : Cursor) × ((if test then x else y) ≡ some c)
some_if true x y here other = here
some_if false x y here other = other

-- A bind of two steps that succeed.
then_some {ℓ κ} :
    {A : Type ℓ} {B : Type κ} (m : Option A) (f : A → Option B)
    → (a : A) × (m ≡ some a)
    → ((a : A) → m ≡ some a → (b : B) × (f a ≡ some b))
    → (b : B) × ((m >>= f) ≡ some b)
then_some none f found next = absurd cc
then_some (some a) f found next = next a refl

take_byte-moves :
    (fetch : Fetch) (c : Cursor) (r : ℕ × Cursor) → take_byte fetch c ≡ some r → r.1.o ≡ c.o + 1
unfolding take_byte
take_byte-moves fetch c r h = elim (Option-cases (fetch c.o)) [
  | inl ends ↦ ground arith
  | inr (b, e) ↦ ground arith
]

module _ (fetch : Fetch) (n : ℕ) (given : Bytes n fetch) where
  take_byte-some : (c : Cursor) → c.o < n → (r : ℕ × Cursor) × (take_byte fetch c ≡ some r)
  unfolding take_byte
  take_byte-some c inside =
      then_some (fetch c.o) _ (let (b, e, s) = given c.o inside in (b, e)) (λ b e. (_, refl))

  take_word-some : (c : Cursor) → c.o + 1 < n → (r : ℕ × Cursor) × (take_word fetch c ≡ some r)
  unfolding take_word take_byte
  take_word-some c inside =
      let (b, e, s) = given c.o (omega arith) in
      let (b', e', s') = given (c.o + 1) inside in
      (
        (
          bit_or (b' * 2 ^ 8) b,
          record {
            inst = record c.inst { bytes = (c.inst.bytes ++ b ∷ []) ++ b' ∷ [] };
            o = c.o + 1 + 1;
          },
        ),
        ground arith,
      )

  decode_disp-some : (c : Cursor) → c.o + 2 ≤ n → (c' : Cursor) × (decode_disp fetch c ≡ some c')
  unfolding decode_disp
  decode_disp-some c inside =
      some_if _ _ _
        (then_some (take_word fetch _) _ (take_word-some _ (omega arith)) (λ r e. (_, refl)))
        (some_if _ _ _
          (then_some (take_byte fetch _) _ (take_byte-some _ (omega arith)) (λ r e. (_, refl)))
          (c, refl))

  decode_imm-some : (c : Cursor) → c.o + 2 ≤ n → (c' : Cursor) × (decode_imm fetch c ≡ some c')
  unfolding decode_imm
  decode_imm-some c inside =
      some_if _ _ _
        (then_some (take_byte fetch _) _ (take_byte-some _ (omega arith)) (λ r e. (_, refl)))
        (some_if _ _ _
          (then_some (take_word fetch _) _ (take_word-some _ (omega arith)) (λ r e. (_, refl)))
          (c, refl))

  decode_modrm-some : (c : Cursor) → c.o + 3 ≤ n → (c' : Cursor) × (decode_modrm fetch c ≡ some c')
  unfolding decode_modrm
  decode_modrm-some c inside =
      some_if _ _ _
        (then_some (take_byte fetch _) _ (take_byte-some _ (omega arith))
          (λ r e. decode_disp-some _ (omega (arith, take_byte-moves fetch _ r e))))
        (c, refl)

  decode_start-some : 2 ≤ n → (c : Cursor) × (decode_start fetch ≡ some c) × (c.inst.op < 256)
  unfolding decode_start
  decode_start-some inside =
      let (b, e, s) = given 0 (omega arith) in
      let (b', e', s') = given 1 (omega arith) in
      let first_read = record blank { len = 1; bytes = b ∷ [] } in
      elim (Option-cases (prefix b first_read)) [
        | inl plain ↦ (record { inst = record first_read { op = b }; o = 1 }, ground arith, s)
        | inr (i, p) ↦ (
          record { inst = longer 1 (record i { op = b'; bytes = i.bytes ++ b' ∷ [] }); o = 2 },
          ground arith,
          s',
        )
      ]

decode_metadata-some :
    (c : Cursor) → c.inst.op < 256 → (c' : Cursor) × (decode_metadata c ≡ some c') × (c'.o ≡ c.o)
unfolding decode_metadata
decode_metadata-some c small =
    let (d, e, row) = op_data-Row c.inst.op small in
    (record c { inst = record c.inst { metadata = d } }, ground arith, refl)

-- If the stream begins with seven bytes, `decode` returns an instruction.
pub decode-some : (fetch : Fetch) → Bytes 7 fetch → (i : Instruction) × (decode fetch ≡ some i)
unfolding decode
decode-some fetch given =
    let (c, e, small) = decode_start-some fetch 7 given (omega arith) in
    let started = decode_start_lem fetch c e in
    let (c1, e1, kept) = decode_metadata-some c small in
    let (c2, e2) =
      decode_modrm-some fetch 7 given c1 (omega (arith, kept, started.moved, started.few)) in
    let read = decode_modrm_lem fetch c1 c2 e2 in
    let (c3, e3) =
      decode_imm-some fetch 7 given c2
        (omega (arith, kept, started.moved, started.few, read.adds.moved, read.few)) in
    (c3.inst, rw (e, e1, e2, e3) refl)
