-- ===== src/Decoder/Table/Laws.antt =====
-- cpu/x86/decoder.cpp: what the opcode table has for every opcode, and the fields of every ModRM
-- byte.
use door86c.Common.{
  ℕ, ◌+◌, ◌*◌, ◌≡◌, refl, Bool, true, false, not, ◌&&◌, none, some, arith, ◌==◌, nonzero, bit_and,
  if◌then◌else◌, ltb, all_below, all_below_lem, Option-cases, ◌<◌,
}
use door86c.Common.{inl, inr}
use door86c.Decoder.{RegModRm, parse_modrm}
use door86c.Decoder.Masks.{OpCodeData, op_mask_imm8, op_mask_imm16, op_mask_modrm8, op_mask_modrm16}
use door86c.Decoder.Table.{op_data}

-- The operand size that the ModRM bits of a mask call for; without them, the entry's own.
abbrev pub size_of : OpCodeData → ℕ
size_of d =
    if nonzero (bit_and d.mask op_mask_modrm8)
    then 8
    else if nonzero (bit_and d.mask op_mask_modrm16)
    then 16
    else d.bits

abbrev pub both_immediates : OpCodeData → Bool
both_immediates d = nonzero (bit_and d.mask op_mask_imm8) && nonzero (bit_and d.mask op_mask_imm16)

abbrev row_fits : ℕ → Bool
row_fits b = elim (op_data b) [
  | none ↦ false
  | some d ↦
      d.op == b
      && d.bits == size_of d
      && not (both_immediates d)
      && not (nonzero (bit_and d.mask op_mask_modrm8) && nonzero (bit_and d.mask op_mask_modrm16))
]

table_fits : all_below 256 row_fits ≡ true
unfolding op_data
table_fits = refl

-- What the decoder relies on in an entry.
pub record Row (b : ℕ) (d : OpCodeData) : Type 0 where
  pub own : d.op ≡ b
  pub sized : d.bits ≡ size_of d
  pub one_immediate : both_immediates d ≡ false
  pub one_size :
      (nonzero (bit_and d.mask op_mask_modrm8) && nonzero (bit_and d.mask op_mask_modrm16)) ≡ false

row_fits-Row : (b : ℕ) → row_fits b ≡ true → (d : OpCodeData) × (op_data b ≡ some d) × Row b d
row_fits-Row b h = elim (Option-cases (op_data b)) [
  | inl absent ↦ ground arith
  | inr (d, e) ↦ (d, e, ground arith)
]

-- Every byte is the opcode of an entry of the table, the entry at its own place; the entry calls
-- for at most one size of ModRM operand, has that size, and calls for at most one immediate.
pub op_data-Row : (b : ℕ) → b < 256 → (d : OpCodeData) × (op_data b ≡ some d) × Row b d
op_data-Row b small = row_fits-Row b (all_below_lem 256 row_fits table_fits b small)

abbrev pub encode_modrm : RegModRm → ℕ
encode_modrm m = m.mode * 64 + m.reg * 8 + m.rm

abbrev modrm_fits : ℕ → Bool
modrm_fits b =
    let m = parse_modrm b in ltb m.mode 4 && ltb m.reg 8 && ltb m.rm 8 && encode_modrm m == b

all_modrm_fit : all_below 256 modrm_fits ≡ true
unfolding parse_modrm
all_modrm_fit = refl

-- The three fields of a byte, within their bounds, are the byte again.
pub modrm_fields :
    (b : ℕ)
    → b < 256
    → ((parse_modrm b).mode < 4)
      × ((parse_modrm b).reg < 8)
      × ((parse_modrm b).rm < 8)
      × (encode_modrm (parse_modrm b) ≡ b)
modrm_fields b small =
    let fits : modrm_fits b ≡ true = all_below_lem 256 modrm_fits all_modrm_fit b small in
    ground arith

-- For fields within their bounds, `parse_modrm` of the byte that holds them finds them again.
pub parse_modrm-encode :
    (m : RegModRm) → m.mode < 4 → m.reg < 8 → m.rm < 8 → parse_modrm (encode_modrm m) ≡ m
parse_modrm-encode m mode_fits reg_fits rm_fits =
    let (mode_fits', reg_fits', rm_fits', same_byte) =
      modrm_fields (encode_modrm m) (omega arith) in
    let parsed = parse_modrm (encode_modrm m) in
    let mode_is : parsed.mode ≡ m.mode = omega arith in
    let reg_is : parsed.reg ≡ m.reg = omega arith in
    let rm_is : parsed.rm ≡ m.rm = omega arith in ground arith
