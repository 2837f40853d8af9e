-- ===== src/Decoder.antt =====
-- cpu/x86/decoder.h and cpu/x86/decoder.cpp: from bytes to an instruction. The byte stream is a
-- function from offsets; a read past its end, which C++ leaves undefined, gives `none`.
pub mod Masks
pub mod Opcodes00
pub mod Opcodes40
pub mod Opcodes80
pub mod OpcodesC0
pub mod Table
pub mod Stages
pub mod Stream
pub mod Total
pub mod Print
pub mod Printable
use door86c.Common.{
  ℕ, ◌+◌, ◌*◌, ◌/◌, ◌%◌, ◌^◌, bit_and, bit_or, Bool, true, false, ◌&&◌, ◌||◌, Option, none, some,
  List, [], ◌∷◌, ◌++◌, ◌==◌, nonzero, u8, if◌then◌else◌, get_elem?,
}
use door86c.Decoder.Masks.{
  OpCodeData, OpEnc, op_mask_modrm8, op_mask_modrm16, op_mask_modrm32, op_mask_imm8, op_mask_imm16,
}
use door86c.Decoder.Table.{op_data}

-- The segments, in the order of their numbers.
pub data Segment : Type 0 where
  es cs ss ds fs gs : Segment

abbrev pub segment_number : Segment → ℕ
segment_number es = 0
segment_number cs = 1
segment_number ss = 2
segment_number ds = 3
segment_number fs = 4
segment_number gs = 5

pub record RegModRm : Type 0 where
  pub mode : ℕ
  pub reg : ℕ
  pub rm : ℕ

pub record Instruction : Type 0 where
  pub op : ℕ
  pub mdrm : RegModRm
  pub disp8 : ℕ
  pub disp16 : ℕ
  pub imm8 : ℕ
  pub imm16 : ℕ
  pub len : ℕ
  pub metadata : OpCodeData
  pub seg_override : Option Segment
  pub lock : Bool
  pub rep : Bool
  pub repne : Bool
  pub bytes : List ℕ

unfoldable pub parse_modrm : ℕ → RegModRm
parse_modrm b = record {
  mode = bit_and b 0xc0 / 2 ^ 6;
  reg = bit_and b 0x38 / 2 ^ 3;
  rm = bit_and b 0x07;
}

-- Its parameter is a `uint8_t`, so the mask is cut to its low byte.
unfoldable pub has_modrm : ℕ → Bool
has_modrm mask = nonzero (bit_and (u8 mask) 0x70)

unfoldable pub default_segment_for_index : ℕ → ℕ → Segment
default_segment_for_index mode rm =
    if rm == 2 || rm == 3 || (rm == 6 && nonzero mode) then ss else ds

unfoldable pub seg_index : Instruction → Segment
unfolding default_segment_for_index
seg_index i = elim i.seg_override [
  | some s ↦ s
  | none ↦ default_segment_for_index i.mdrm.mode i.mdrm.rm
]

-- `instruction_t i;`, with its members' initial values.
abbrev pub blank : Instruction
blank = record {
  op = 0;
  mdrm = record { mode = 0; reg = 0; rm = 0 };
  disp8 = 0;
  disp16 = 0;
  imm8 = 0;
  imm16 = 0;
  len = 0;
  metadata = record { op = 0; mask = 0; name = ""; bits = 16; op_enc = OpEnc.none; r_base = 0 };
  seg_override = none;
  lock = false;
  rep = false;
  repne = false;
  bytes = [];
}

abbrev pub Fetch : Type 0
Fetch = ℕ → Option ℕ

-- The instruction so far, and how far the pointer `o` has moved.
pub record Cursor : Type 0 where
  pub inst : Instruction
  pub o : ℕ

infixl 5 ◌>>=◌
abbrev pub ◌>>=◌ {ℓ κ} : {A : Type ℓ} {B : Type κ} → Option A → (A → Option B) → Option B
none >>= f = none
some a >>= f = f a

-- `i.bytes.push_back(*o); b = *o++;`
unfoldable pub take_byte : Fetch → Cursor → Option (ℕ × Cursor)
take_byte fetch c = do
  b ← fetch c.o
  some (b, record { inst = record c.inst { bytes = c.inst.bytes ++ b ∷ [] }; o = c.o + 1 })

abbrev pub longer : ℕ → Instruction → Instruction
longer n i = record i { len = i.len + n }

-- `lsb = *o++; msb = *o++; (msb << 8) | lsb`
unfoldable pub take_word : Fetch → Cursor → Option (ℕ × Cursor)
unfolding take_byte
take_word fetch c = do
  (lsb, c1) ← take_byte fetch c
  (msb, c2) ← take_byte fetch c1
  some (bit_or (msb * 2 ^ 8) lsb, c2)

-- What each prefix byte sets; `none` is a byte that is no prefix.
unfoldable pub prefix : ℕ → Instruction → Option Instruction
prefix first_byte i =
    if first_byte == 0x2e
    then some (record i { seg_override = some cs })
    else if first_byte == 0x36
    then some (record i { seg_override = some ss })
    else if first_byte == 0x3e
    then some (record i { seg_override = some ds })
    else if first_byte == 0x26
    then some (record i { seg_override = some es })
    else if first_byte == 0xf0
    then some (record i { lock = true })
    else if first_byte == 0xf2
    then some (record i { repne = true })
    else if first_byte == 0xf3
    then some (record i { rep = true })
    else none

-- With a prefix the opcode is the next byte, else it is the first one.
unfoldable pub decode_op : Fetch → ℕ → Cursor → Option Instruction → Option Cursor
unfolding take_byte
decode_op fetch first_byte c none = some (record c { inst = record c.inst { op = first_byte } })
decode_op fetch first_byte c (some i) = do
  (b, c1) ← take_byte fetch (record c { inst = i })
  some (record c1 { inst = longer 1 (record c1.inst { op = b }) })

unfoldable pub decode_start : Fetch → Option Cursor
unfolding take_byte decode_op
decode_start fetch = do
  (first_byte, c) ← take_byte fetch (record { inst = blank; o = 0 })
  let counted = longer 1 c.inst
  decode_op fetch first_byte (record c { inst = counted }) (prefix first_byte counted)

-- The displacement that the ModRM byte calls for.
unfoldable pub decode_disp : Fetch → Cursor → Option Cursor
unfolding take_byte take_word
decode_disp fetch c =
    let m = c.inst.mdrm in
    if (m.rm == 0x06 && m.mode == 0) || m.mode == 0x02
    then (do
      (w, c1) ← take_word fetch (record c { inst = longer 2 c.inst })
      some (record c1 { inst = record c1.inst { disp16 = w } }))
    else if m.mode == 0x01
    then (do
      (b, c1) ← take_byte fetch (record c { inst = longer 1 c.inst })
      some (record c1 { inst = record c1.inst { disp8 = b } }))
    else some c

unfoldable pub decode_modrm : Fetch → Cursor → Option Cursor
unfolding take_byte
decode_modrm fetch c =
    if has_modrm c.inst.metadata.mask
    then (do
      (b, c1) ← take_byte fetch (record c { inst = longer 1 c.inst })
      decode_disp fetch (record c1 { inst = record c1.inst { mdrm = parse_modrm b } }))
    else some c

unfoldable pub decode_imm : Fetch → Cursor → Option Cursor
unfolding take_byte take_word
decode_imm fetch c =
    let mask = c.inst.metadata.mask in
    if nonzero (bit_and mask op_mask_imm8)
    then (do
      (b, c1) ← take_byte fetch (record c { inst = longer 1 c.inst })
      some (record c1 { inst = record c1.inst { imm8 = b } }))
    else if nonzero (bit_and mask op_mask_imm16)
    then (do
      (w, c1) ← take_word fetch (record c { inst = longer 2 c.inst })
      some (record c1 { inst = record c1.inst { imm16 = w } }))
    else some c

unfoldable pub decode_metadata : Cursor → Option Cursor
decode_metadata c = do
  d ← op_data c.inst.op
  some (record c { inst = record c.inst { metadata = d } })

unfoldable pub decode : Fetch → Option Instruction
decode fetch = do
  c ← decode_start fetch
  c1 ← decode_metadata c
  c2 ← decode_modrm fetch c1
  c3 ← decode_imm fetch c2
  some c3.inst

-- The overload on a vector of bytes.
unfoldable pub decode_bytes : List ℕ → Option Instruction
decode_bytes o = decode (get_elem? o)
