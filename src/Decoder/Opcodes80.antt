-- ===== src/Decoder/Opcodes80.antt =====
-- cpu/x86/decoder.cpp, create_opcode_metadata: the entries 0x80 to 0xbf.
use door86c.Common.{List, [], ◌∷◌}
use door86c.Decoder.Masks.{
  OpCodeData, OpEnc, entry, ◌∣∣◌, op_mask_has_r_and_rm, op_mask_imm16, op_mask_imm8,
  op_mask_modrm16, op_mask_modrm8, op_mask_none, op_mask_notimpl, op_mask_reg_is_sreg,
  uses_encoded_reg, uses_reg_subcode, uses_rep_zf,
}

abbrev pub opcodes_80 : List OpCodeData
opcodes_80 =
    entry 0x80 (op_mask_modrm8 ∣∣ op_mask_imm8 ∣∣ uses_reg_subcode) "0x80/M" 8 OpEnc.none 0
    ∷ entry 0x81 (op_mask_modrm16 ∣∣ op_mask_imm16 ∣∣ uses_reg_subcode) "0x81/M" 16 OpEnc.none 0
    ∷ entry 0x82 (op_mask_notimpl ∣∣ op_mask_modrm8 ∣∣ uses_reg_subcode) "0x82/M" 8 OpEnc.none 0
    ∷ entry 0x83 (op_mask_modrm16 ∣∣ op_mask_imm8 ∣∣ uses_reg_subcode) "0x83/M" 16 OpEnc.none 0
    ∷ entry 0x84 (op_mask_modrm8 ∣∣ op_mask_has_r_and_rm) "TEST" 8 OpEnc.none 0
    ∷ entry 0x85 (op_mask_modrm16 ∣∣ op_mask_has_r_and_rm) "TEST" 16 OpEnc.none 0
    ∷ entry 0x86 (op_mask_modrm8 ∣∣ op_mask_has_r_and_rm) "XCHG" 8 OpEnc.none 0
    ∷ entry 0x87 (op_mask_modrm16 ∣∣ op_mask_has_r_and_rm) "XCHG" 16 OpEnc.none 0
    ∷ entry 0x88 (op_mask_modrm8 ∣∣ op_mask_has_r_and_rm) "MOV" 8 OpEnc.none 0
    ∷ entry 0x89 (op_mask_modrm16 ∣∣ op_mask_has_r_and_rm) "MOV" 16 OpEnc.none 0
    ∷ entry 0x8a (op_mask_modrm8 ∣∣ op_mask_has_r_and_rm) "MOV" 8 OpEnc.none 0
    ∷ entry 0x8b (op_mask_modrm16 ∣∣ op_mask_has_r_and_rm) "MOV" 16 OpEnc.none 0
    ∷ entry 0x8c (op_mask_modrm16 ∣∣ op_mask_has_r_and_rm ∣∣ op_mask_reg_is_sreg) "MOV" 16
        OpEnc.none 0
    ∷ entry 0x8d (op_mask_modrm16 ∣∣ op_mask_has_r_and_rm) "LEA" 16 OpEnc.r_rm 0
    ∷ entry 0x8e (op_mask_modrm16 ∣∣ op_mask_has_r_and_rm ∣∣ op_mask_reg_is_sreg) "MOV" 16
        OpEnc.r_rm 0
    ∷ entry 0x8f (op_mask_notimpl ∣∣ op_mask_modrm16) "" 16 OpEnc.none 0
    ∷ entry 0x90 (op_mask_none ∣∣ uses_encoded_reg) "XCHG" 16 OpEnc.none 0x90
    ∷ entry 0x91 (op_mask_none ∣∣ uses_encoded_reg) "XCHG" 16 OpEnc.none 0x90
    ∷ entry 0x92 (op_mask_none ∣∣ uses_encoded_reg) "XCHG" 16 OpEnc.none 0x90
    ∷ entry 0x93 (op_mask_none ∣∣ uses_encoded_reg) "XCHG" 16 OpEnc.none 0x90
    ∷ entry 0x94 (op_mask_none ∣∣ uses_encoded_reg) "XCHG" 16 OpEnc.none 0x90
    ∷ entry 0x95 (op_mask_none ∣∣ uses_encoded_reg) "XCHG" 16 OpEnc.none 0x90
    ∷ entry 0x96 (op_mask_none ∣∣ uses_encoded_reg) "XCHG" 16 OpEnc.none 0x90
    ∷ entry 0x97 (op_mask_none ∣∣ uses_encoded_reg) "XCHG" 16 OpEnc.none 0x90
    ∷ entry 0x98 op_mask_none "CBW" 16 OpEnc.none 0
    ∷ entry 0x99 op_mask_none "CWD" 16 OpEnc.none 0
    ∷ entry 0x9a op_mask_notimpl "" 16 OpEnc.none 0
    ∷ entry 0x9b op_mask_notimpl "" 16 OpEnc.none 0
    ∷ entry 0x9c op_mask_none "PUSHF" 16 OpEnc.none 0
    ∷ entry 0x9d op_mask_none "POPF" 16 OpEnc.none 0
    ∷ entry 0x9e op_mask_notimpl "" 16 OpEnc.none 0
    ∷ entry 0x9f op_mask_notimpl "" 16 OpEnc.none 0
    ∷ entry 0xa0 op_mask_imm16 "MOV" 8 OpEnc.none 0
    ∷ entry 0xa1 op_mask_imm16 "MOV" 16 OpEnc.none 0
    ∷ entry 0xa2 op_mask_imm16 "MOV" 8 OpEnc.none 0
    ∷ entry 0xa3 op_mask_imm16 "MOV" 16 OpEnc.none 0
    ∷ entry 0xa4 uses_rep_zf "MOVS" 8 OpEnc.none 0
    ∷ entry 0xa5 uses_rep_zf "MOVS" 16 OpEnc.none 0
    ∷ entry 0xa6 uses_rep_zf "CMPS" 16 OpEnc.none 0
    ∷ entry 0xa7 uses_rep_zf "CMPS" 16 OpEnc.none 0
    ∷ entry 0xa8 op_mask_imm8 "TEST" 8 OpEnc.none 0
    ∷ entry 0xa9 op_mask_imm16 "TEST" 16 OpEnc.none 0
    ∷ entry 0xaa uses_rep_zf "STOS" 8 OpEnc.none 0
    ∷ entry 0xab uses_rep_zf "STOS" 16 OpEnc.none 0
    ∷ entry 0xac uses_rep_zf "LODS" 8 OpEnc.none 0
    ∷ entry 0xad uses_rep_zf "LODS" 16 OpEnc.none 0
    ∷ entry 0xae uses_rep_zf "SCAS" 8 OpEnc.none 0
    ∷ entry 0xaf uses_rep_zf "SCAS" 16 OpEnc.none 0
    ∷ entry 0xb0 (uses_encoded_reg ∣∣ op_mask_imm8) "MOV" 8 OpEnc.none 0xB0
    ∷ entry 0xb1 (uses_encoded_reg ∣∣ op_mask_imm8) "MOV" 8 OpEnc.none 0xB0
    ∷ entry 0xb2 (uses_encoded_reg ∣∣ op_mask_imm8) "MOV" 8 OpEnc.none 0xB0
    ∷ entry 0xb3 (uses_encoded_reg ∣∣ op_mask_imm8) "MOV" 8 OpEnc.none 0xB0
    ∷ entry 0xb4 (uses_encoded_reg ∣∣ op_mask_imm8) "MOV" 8 OpEnc.none 0xB0
    ∷ entry 0xb5 (uses_encoded_reg ∣∣ op_mask_imm8) "MOV" 8 OpEnc.none 0xB0
    ∷ entry 0xb6 (uses_encoded_reg ∣∣ op_mask_imm8) "MOV" 8 OpEnc.none 0xB0
    ∷ entry 0xb7 (uses_encoded_reg ∣∣ op_mask_imm8) "MOV" 8 OpEnc.none 0xB0
    ∷ entry 0xb8 (uses_encoded_reg ∣∣ op_mask_imm16) "MOV" 16 OpEnc.none 0xB8
    ∷ entry 0xb9 (uses_encoded_reg ∣∣ op_mask_imm16) "MOV" 16 OpEnc.none 0xB8
    ∷ entry 0xba (uses_encoded_reg ∣∣ op_mask_imm16) "MOV" 16 OpEnc.none 0xB8
    ∷ entry 0xbb (uses_encoded_reg ∣∣ op_mask_imm16) "MOV" 16 OpEnc.none 0xB8
    ∷ entry 0xbc (uses_encoded_reg ∣∣ op_mask_imm16) "MOV" 16 OpEnc.none 0xB8
    ∷ entry 0xbd (uses_encoded_reg ∣∣ op_mask_imm16) "MOV" 16 OpEnc.none 0xB8
    ∷ entry 0xbe (uses_encoded_reg ∣∣ op_mask_imm16) "MOV" 16 OpEnc.none 0xB8
    ∷ entry 0xbf (uses_encoded_reg ∣∣ op_mask_imm16) "MOV" 16 OpEnc.none 0xB8
    ∷ []
