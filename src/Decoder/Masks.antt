-- ===== src/Decoder/Masks.antt =====
-- cpu/x86/decoder.h: the bits of an opcode's metadata, and the metadata itself.
use door86c.Common.{ℕ, bit_or}
use Prim.Native.String.{String}

abbrev pub op_mask_none : ℕ
op_mask_none = 0x00

-- Has IMM or DISP or REL byte (8-bit).
abbrev pub op_mask_imm8 : ℕ
op_mask_imm8 = 0x01

abbrev pub op_mask_rel8 : ℕ
op_mask_rel8 = 0x01

-- Has IMM or DISP or REL byte (16-bit).
abbrev pub op_mask_imm16 : ℕ
op_mask_imm16 = 0x02

-- Has ModRM byte, of an 8-bit or a 16-bit operation.
abbrev pub op_mask_modrm8 : ℕ
op_mask_modrm8 = 0x10

abbrev pub op_mask_modrm16 : ℕ
op_mask_modrm16 = 0x20

abbrev pub op_mask_modrm32 : ℕ
op_mask_modrm32 = 0x40

-- Any register value refers to segment register not general register.
abbrev pub op_mask_reg_is_sreg : ℕ
op_mask_reg_is_sreg = 0x100

-- Has both r and rm encoded in ModRM byte.
abbrev pub op_mask_has_r_and_rm : ℕ
op_mask_has_r_and_rm = 0x400

-- Use ZF in rep for terminating the loop.
abbrev pub uses_rep_zf : ℕ
uses_rep_zf = 0x1000

-- Used reg for subcodes.
abbrev pub uses_reg_subcode : ℕ
uses_reg_subcode = 0x2000

-- Used reg for encoded register (+r).
abbrev pub uses_encoded_reg : ℕ
uses_encoded_reg = 0x4000

-- This one is not yet implemented.
abbrev pub op_mask_notimpl : ℕ
op_mask_notimpl = 0x80000000

-- `|` of masks.
infixl 40 ◌∣∣◌
abbrev pub ◌∣∣◌ : ℕ → ℕ → ℕ
a ∣∣ b = bit_or a b

pub data OpEnc : Type 0 where
  none rm_r r_rm rm_i r_i : OpEnc

pub record OpCodeData : Type 0 where
  pub op : ℕ
  pub mask : ℕ
  pub name : String
  pub bits : ℕ
  pub op_enc : OpEnc
  pub r_base : ℕ

abbrev pub entry : ℕ → ℕ → String → ℕ → OpEnc → ℕ → OpCodeData
entry op mask name bits op_enc r_base = record {
  op = op;
  mask = mask;
  name = name;
  bits = bits;
  op_enc = op_enc;
  r_base = r_base;
}
