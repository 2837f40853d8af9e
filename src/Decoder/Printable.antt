-- ===== src/Decoder/Printable.antt =====
-- cpu/x86/decoder.cpp: every decoded instruction can be printed.
use door86c.Common.{
  ℕ, ◌+◌, ◌<◌, ◌≡◌, refl, sym, subst, arith, Bool, true, false, ◌&&◌, ◌||◌, Option, none, some,
  List, [], ◌∷◌, ◌++◌, ◌==◌, nonzero, if◌then◌else◌, bit_and, Bool-cases, Option-cases, inl, inr,
  below_eight, get_elem?, codes,
}
use door86c.Common.Bits.{bit_and_mask}
use door86c.Decoder.Masks.{OpCodeData, op_mask_imm8, op_mask_imm16}
use door86c.Decoder.Table.{op_data}
use door86c.Decoder.{
  RegModRm, Segment, es, cs, ss, ds, fs, gs, segment_number, Instruction, Fetch, Cursor,
  parse_modrm, has_modrm, seg_index, prefix, decode_start, decode_metadata, decode_disp,
  decode_modrm, decode_imm, decode, blank, ◌>>=◌,
}
use door86c.Decoder.Stages.{bind-some}
use door86c.Decoder.Print.{
  Formats, ea012, segment_names, has_override, rm_to_string, override_part, modrm_part,
  debug_string,
}

-- The two low fields of the ModRM byte that printing looks up.
abbrev Small : Instruction → Type 0
Small i = i.mdrm.rm < 8

parse_modrm-Small : (b : ℕ) → (parse_modrm b).rm < 8
unfolding parse_modrm
parse_modrm-Small b = omega (arith, bit_and_mask 3 b)

prefix-mdrm : (b : ℕ) (i j : Instruction) → prefix b i ≡ some j → j.mdrm ≡ i.mdrm
unfolding prefix
prefix-mdrm b i j h = ground arith

module _ (fetch : Fetch) where
  decode_imm-mdrm : (c c' : Cursor) → decode_imm fetch c ≡ some c' → c'.inst.mdrm ≡ c.inst.mdrm
  unfolding decode_imm
  decode_imm-mdrm c c' h = elim (Bool-cases (nonzero (bit_and c.inst.metadata.mask op_mask_imm8))) [
    | inl byte_follows ↦ elim (Option-cases (fetch c.o)) [
      | inl ends ↦ ground arith
      | inr (b, e) ↦ ground arith
    ]
    | inr no_byte ↦ elim (Bool-cases (nonzero (bit_and c.inst.metadata.mask op_mask_imm16))) [
      | inl word_follows ↦ elim (Option-cases (fetch c.o)) [
        | inl ends ↦ ground arith
        | inr (lsb, e) ↦ elim (Option-cases (fetch (c.o + 1))) [
          | inl ends ↦ ground arith
          | inr (msb, e') ↦ ground arith
        ]
      ]
      | inr nothing ↦ ground arith
    ]
  ]

  decode_disp-mdrm : (c c' : Cursor) → decode_disp fetch c ≡ some c' → c'.inst.mdrm ≡ c.inst.mdrm
  unfolding decode_disp
  decode_disp-mdrm c c' h =
      let m = c.inst.mdrm in
      elim (Bool-cases ((m.rm == 0x06 && m.mode == 0) || m.mode == 0x02)) [
        | inl word_follows ↦ elim (Option-cases (fetch c.o)) [
          | inl ends ↦ ground arith
          | inr (lsb, e) ↦ elim (Option-cases (fetch (c.o + 1))) [
            | inl ends ↦ ground arith
            | inr (msb, e') ↦ ground arith
          ]
        ]
        | inr no_word ↦ elim (Bool-cases (m.mode == 0x01)) [
          | inl byte_follows ↦ elim (Option-cases (fetch c.o)) [
            | inl ends ↦ ground arith
            | inr (b, e) ↦ ground arith
          ]
          | inr nothing ↦ ground arith
        ]
      ]

  after_modrm : ℕ → Cursor → Cursor
  after_modrm b c = record {
    inst = record c.inst {
      len = c.inst.len + 1;
      bytes = c.inst.bytes ++ b ∷ [];
      mdrm = parse_modrm b;
    };
    o = c.o + 1;
  }

  decode_modrm-Small :
      (c c' : Cursor) → Small c.inst → decode_modrm fetch c ≡ some c' → Small c'.inst
  unfolding decode_modrm after_modrm
  decode_modrm-Small c c' small h = elim (Bool-cases (has_modrm c.inst.metadata.mask)) [
    | inl byte_follows ↦ elim (Option-cases (fetch c.o)) [
      | inl ends ↦ ground arith
      | inr (b, e) ↦
          let kept = decode_disp-mdrm (after_modrm b c) c' (ground arith) in
          subst (λ (m : RegModRm). m.rm < 8) (sym kept) (parse_modrm-Small b)
    ]
    | inr nothing ↦ ground arith
  ]

  decode_start-Small : (c : Cursor) → decode_start fetch ≡ some c → Small c.inst
  unfolding decode_start
  decode_start-Small c h = elim (Option-cases (fetch 0)) [
    | inl ends ↦ ground arith
    | inr (b, e) ↦
        let first_read = record blank { len = 1; bytes = b ∷ [] } in
        elim (Option-cases (prefix b first_read)) [
          | inl plain ↦ ground arith
          | inr (i, p) ↦ elim (Option-cases (fetch 1)) [
            | inl ends ↦ ground arith
            | inr (op, e') ↦ ground (arith, prefix-mdrm b first_read i p)
          ]
        ]
  ]

  decode_metadata-Small :
      (c c' : Cursor) → Small c.inst → decode_metadata c ≡ some c' → Small c'.inst
  unfolding decode_metadata
  decode_metadata-Small c c' small h = elim (Option-cases (op_data c.inst.op)) [
    | inl outside ↦ ground arith
    | inr (d, e) ↦ ground arith
  ]

  decode-Small : (i : Instruction) → decode fetch ≡ some i → Small i
  unfolding decode
  decode-Small i h =
      let (c, e, h1) = bind-some (decode_start fetch) _ h in
      let (c1, e1, h2) = bind-some (decode_metadata c) _ h1 in
      let (c2, e2, h3) = bind-some (decode_modrm fetch c1) _ h2 in
      let (c3, e3, h4) = bind-some (decode_imm fetch c2) _ h3 in
      let small =
        decode_modrm-Small c1 c2 (decode_metadata-Small c c1 (decode_start-Small c e) e1) e2 in
      let same : c3.inst ≡ i = ground arith in
      subst (λ (j : Instruction). Small j) same
        (subst (λ (m : RegModRm). m.rm < 8) (sym (decode_imm-mdrm c2 c3 e3)) small)

ea012-some : (n : ℕ) → n < 8 → (ea : List ℕ) × (get_elem? ea012 n ≡ some ea)
ea012-some =
    below_eight (λ n. (ea : List ℕ) × (get_elem? ea012 n ≡ some ea))
      ((_, refl), (_, refl), (_, refl), (_, refl), (_, refl), (_, refl), (_, refl), (_, refl))

segment_name :
    (s : Segment) → (name : List ℕ) × (get_elem? segment_names (segment_number s) ≡ some name)
segment_name es = (_, refl)
segment_name cs = (_, refl)
segment_name ss = (_, refl)
segment_name ds = (_, refl)
segment_name fs = (_, refl)
segment_name gs = (_, refl)

-- There is a text.
abbrev pub Printed : Option (List ℕ) → Type 0
Printed o = (text : List ℕ) × (o ≡ some text)

if-Printed :
    (b : Bool) (x y : Option (List ℕ)) → Printed x → Printed y → Printed (if b then x else y)
if-Printed true x y px py = px
if-Printed false x y px py = py

bind-Printed :
    (o : Option (List ℕ)) (k : List ℕ → Option (List ℕ))
    → Printed o
    → ((t : List ℕ) → Printed (k t))
    → Printed (o >>= k)
bind-Printed none k (text, e) all = absurd (cc)
bind-Printed (some t) k found all = all t

module _ (f : Formats) where
  rm_to_string-Printed :
      (rm : RegModRm) (d : OpCodeData) (disp8 disp16 : ℕ)
      → rm.rm < 8
      → Printed (rm_to_string f rm d disp8 disp16)
  unfolding rm_to_string
  rm_to_string-Printed rm d disp8 disp16 h =
      let ea = λ (k : List ℕ → List ℕ).
        bind-Printed (get_elem? ea012 rm.rm) (λ t. some (k t)) (ea012-some rm.rm h)
          (λ t. (k t, refl)) in
      if-Printed (rm.mode == 0 && rm.rm == 6) _ _ (_, refl)
        (if-Printed (rm.mode == 0) _ _ (ea (λ t. codes "[" ++ (t ++ codes "]"))) (
          if-Printed (rm.mode == 1) _ _
            (ea (λ t. codes "[" ++ (t ++ (codes "+" ++ (f.hex02 disp8 ++ codes "]")))))
            (if-Printed (rm.mode == 2) _ _
              (ea (λ t. codes "[" ++ (t ++ (codes "+" ++ (f.hex04 disp16 ++ codes "]")))))
              (if-Printed (rm.mode == 3 && d.bits == 8) _ _ (_, refl)
                (if-Printed (rm.mode == 3 && d.bits == 16) _ _ (_, refl) (_, refl))))))

  modrm_part-Printed : (i : Instruction) → Small i → Printed (modrm_part f i)
  modrm_part-Printed i small =
      if-Printed (has_modrm i.metadata.mask) _ _
        (bind-Printed _ _ (rm_to_string-Printed i.mdrm i.metadata i.disp8 i.disp16 small)
          (λ t. (_, refl)))
        (_, refl)

  override_part-Printed : (i : Instruction) → Printed (override_part f i)
  override_part-Printed i =
      if-Printed (has_override i.seg_override) _ _
        (bind-Printed _ _ (segment_name (seg_index i)) (λ t. (_, refl))) (_, refl)

  debug_string-Printed : (i : Instruction) → Small i → Printed (debug_string f i)
  unfolding debug_string
  debug_string-Printed i small =
      bind-Printed _ _ (override_part-Printed i)
        (λ o. bind-Printed _ _ (modrm_part-Printed i small) (λ m. (_, refl)))

  -- Every instruction that `decode` returns, from whatever stream, has a text: printing it looks up
  -- nothing beyond the ends of its tables.
  pub decode-Printed :
      (fetch : Fetch) (i : Instruction) → decode fetch ≡ some i → Printed (debug_string f i)
  decode-Printed fetch i h = debug_string-Printed i (decode-Small fetch i h)
