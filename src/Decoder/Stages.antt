-- ===== src/Decoder/Stages.antt =====
-- cpu/x86/decoder.cpp, the stages of `decode`: what each of them reads from the byte stream.
use door86c.Common.{
  ℕ, ◌+◌, ◌≤◌, ◌≡◌, refl, inl, inr, ◌&&◌, ◌||◌, Option, none, some, List, [], ◌∷◌, ◌++◌, arith,
  ◌==◌, nonzero, bit_and, Bool-cases, Option-cases, length,
}
use mathlib.Core.List.{append-nil, append_assoc}
use door86c.Decoder.Masks.{op_mask_imm8, op_mask_imm16}
use door86c.Decoder.{
  Instruction, Cursor, Fetch, ◌>>=◌, prefix, decode_start, decode_disp, decode_modrm, decode_imm,
  parse_modrm, has_modrm, blank,
}

pub bind-some {ℓ κ} :
    {A : Type ℓ} {B : Type κ} (m : Option A) (f : A → Option B) {b : B}
    → (m >>= f) ≡ some b
    → (a : A) × (m ≡ some a) × (f a ≡ some b)
bind-some none f h = cc
bind-some (some a) f h = (a, refl, h)

-- The stream gives these bytes from offset `o` on.
abbrev pub Gives : Fetch → ℕ → List ℕ → Type 0
Gives fetch o [] = Unit {0}
Gives fetch o (b ∷ bs) = (fetch o ≡ some b) × Gives fetch (o + 1) bs

-- From `c` to `c'` the bytes `bs` were read, recorded and counted.
pub record Adds (fetch : Fetch) (c c' : Cursor) (bs : List ℕ) : Type 0 where
  pub recorded : c'.inst.bytes ≡ c.inst.bytes ++ bs
  pub moved : c'.o ≡ c.o + length bs
  pub counted : c'.inst.len ≡ c.inst.len + length bs
  pub given : Gives fetch c.o bs
  pub op_kept : c'.inst.op ≡ c.inst.op
  pub metadata_kept : c'.inst.metadata ≡ c.inst.metadata

-- A stage of the decoder that went from `c` to `c'`: it read at most `n` bytes, and does the same
-- on every stream that gives the same bytes.
pub record Consumes (n : ℕ) (stage : Fetch → Cursor → Option Cursor) (fetch : Fetch) (c c' : Cursor)
    : Type 0 where
  pub bs : List ℕ
  pub adds : Adds fetch c c' bs
  pub few : length bs ≤ n
  pub again : (other : Fetch) → Gives other c.o bs → stage other c ≡ some c'

pub decode_imm_lem :
    (fetch : Fetch) (c c' : Cursor)
    → decode_imm fetch c ≡ some c'
    → Consumes 2 decode_imm fetch c c'
unfolding decode_imm
decode_imm_lem fetch c c' h =
    elim (Bool-cases (nonzero (bit_and c.inst.metadata.mask op_mask_imm8))) [
      | inl byte_follows ↦ elim (Option-cases (fetch c.o)) [
        | inl ends ↦ ground arith
        | inr (b, e) ↦ record {
          bs = b ∷ [];
          adds = ground arith;
          few = omega arith;
          again = λ other g. ground arith;
        }
      ]
      | inr no_byte ↦ elim (Bool-cases (nonzero (bit_and c.inst.metadata.mask op_mask_imm16))) [
        | inl word_follows ↦ elim (Option-cases (fetch c.o)) [
          | inl ends ↦ ground arith
          | inr (lsb, e) ↦ elim (Option-cases (fetch (c.o + 1))) [
            | inl ends ↦ ground arith
            | inr (msb, e') ↦ record {
              bs = lsb ∷ msb ∷ [];
              adds = ground (arith, append_assoc c.inst.bytes (lsb ∷ []) (msb ∷ []));
              few = omega arith;
              again = λ other g. ground arith;
            }
          ]
        ]
        | inr nothing ↦ record {
          bs = [];
          adds = ground (arith, append-nil c.inst.bytes);
          few = omega arith;
          again = λ other g. ground arith;
        }
      ]
    ]

decode_disp_lem :
    (fetch : Fetch) (c c' : Cursor)
    → decode_disp fetch c ≡ some c'
    → Consumes 2 decode_disp fetch c c'
unfolding decode_disp
decode_disp_lem fetch c c' h =
    let m = c.inst.mdrm in
    elim (Bool-cases ((m.rm == 0x06 && m.mode == 0) || m.mode == 0x02)) [
      | inl word_follows ↦ elim (Option-cases (fetch c.o)) [
        | inl ends ↦ ground arith
        | inr (lsb, e) ↦ elim (Option-cases (fetch (c.o + 1))) [
          | inl ends ↦ ground arith
          | inr (msb, e') ↦ record {
            bs = lsb ∷ msb ∷ [];
            adds = ground (arith, append_assoc c.inst.bytes (lsb ∷ []) (msb ∷ []));
            few = omega arith;
            again = λ other g. ground arith;
          }
        ]
      ]
      | inr no_word ↦ elim (Bool-cases (m.mode == 0x01)) [
        | inl byte_follows ↦ elim (Option-cases (fetch c.o)) [
          | inl ends ↦ ground arith
          | inr (b, e) ↦ record {
            bs = b ∷ [];
            adds = ground arith;
            few = omega arith;
            again = λ other g. ground arith;
          }
        ]
        | inr nothing ↦ record {
          bs = [];
          adds = ground (arith, append-nil c.inst.bytes);
          few = omega arith;
          again = λ other g. ground arith;
        }
      ]
    ]

-- The cursor after the ModRM byte.
abbrev pub after_modrm : ℕ → Cursor → Cursor
after_modrm b c = record {
  inst = record c.inst {
    mdrm = parse_modrm b;
    len = c.inst.len + 1;
    bytes = c.inst.bytes ++ b ∷ [];
  };
  o = c.o + 1;
}

pub decode_modrm_lem :
    (fetch : Fetch) (c c' : Cursor)
    → decode_modrm fetch c ≡ some c'
    → Consumes 3 decode_modrm fetch c c'
unfolding decode_modrm
decode_modrm_lem fetch c c' h = elim (Bool-cases (has_modrm c.inst.metadata.mask)) [
  | inl byte_follows ↦ elim (Option-cases (fetch c.o)) [
    | inl ends ↦ ground arith
    | inr (b, e) ↦
        let rest = decode_disp_lem fetch (after_modrm b c) c' (ground arith) in
        record {
          bs = b ∷ rest.bs;
          adds = ground (arith, append_assoc c.inst.bytes (b ∷ []) rest.bs);
          few = omega arith;
          again = λ other g. ground (arith, rest.again other g.1);
        }
  ]
  | inr nothing ↦ record {
    bs = [];
    adds = ground (arith, append-nil c.inst.bytes);
    few = omega arith;
    again = λ other g. ground arith;
  }
]

-- A prefix changes neither the bytes nor the count.
prefix_keeps :
    (b : ℕ) (i j : Instruction) → prefix b i ≡ some j → (j.bytes ≡ i.bytes) × (j.len ≡ i.len)
unfolding prefix
prefix_keeps b i j h = ground arith

-- The instruction when its first byte has been read.
abbrev pub first_read : ℕ → Instruction
first_read b = record blank { len = 1; bytes = b ∷ [] }

pub record Starts (fetch : Fetch) (c : Cursor) : Type 0 where
  pub bs : List ℕ
  pub recorded : c.inst.bytes ≡ bs
  pub moved : c.o ≡ length bs
  pub counted : c.inst.len ≡ length bs
  pub some_byte : 1 ≤ length bs
  pub few : length bs ≤ 2
  pub given : Gives fetch 0 bs
  pub again : (other : Fetch) → Gives other 0 bs → decode_start other ≡ some c

-- The opcode, with its prefix or without: one byte or two.
pub decode_start_lem : (fetch : Fetch) (c : Cursor) → decode_start fetch ≡ some c → Starts fetch c
unfolding decode_start
decode_start_lem fetch c h = elim (Option-cases (fetch 0)) [
  | inl ends ↦ ground arith
  | inr (b, e) ↦ elim (Option-cases (prefix b (first_read b))) [
    | inl plain ↦ record {
      bs = b ∷ [];
      recorded = ground arith;
      moved = ground arith;
      counted = ground arith;
      some_byte = omega arith;
      few = omega arith;
      given = ground arith;
      again = λ other g. ground arith;
    }
    | inr (i, p) ↦ elim (Option-cases (fetch 1)) [
      | inl ends ↦ ground arith
      | inr (op, e') ↦
          let kept = prefix_keeps b (first_read b) i p in
          record {
            bs = b ∷ op ∷ [];
            recorded = ground arith;
            moved = ground arith;
            counted = ground arith;
            some_byte = omega arith;
            few = omega arith;
            given = ground arith;
            again = λ other g. ground arith;
          }
    ]
  ]
]
