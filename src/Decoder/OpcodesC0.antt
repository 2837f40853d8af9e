-- ===== src/Decoder/OpcodesC0.antt =====
-- cpu/x86/decoder.cpp, create_opcode_metadata: the entries 0xc0 to 0xff.
use door86c.Common.{List, [], ◌∷◌}
use door86c.Decoder.Masks.{
  OpCodeData, OpEnc, entry, ◌∣∣◌, op_mask_has_r_and_rm, op_mask_imm16, op_mask_imm8,
  op_mask_modrm16, op_mask_modrm8, op_mask_none, op_mask_notimpl, op_mask_rel8, uses_reg_subcode,
}

abbrev pub opcodes_c0 : List OpCodeData
opcodes_c0 =
    entry 0xc0 (op_mask_modrm8 ∣∣ op_mask_imm8 ∣∣ uses_reg_subcode) "0xC0/M" 8 OpEnc.none 0
    ∷ entry 0xc1 (op_mask_modrm16 ∣∣ uses_reg_subcode ∣∣ op_mask_imm8) "0xC1/M" 16 OpEnc.none 0
    ∷ entry 0xc2 op_mask_imm16 "RET" 16 OpEnc.none 0
    ∷ entry 0xc3 op_mask_none "RET" 16 OpEnc.none 0
    ∷ entry 0xc4 (op_mask_modrm16 ∣∣ op_mask_has_r_and_rm) "LES" 16 OpEnc.none 0
    ∷ entry 0xc5 (op_mask_modrm16 ∣∣ op_mask_has_r_and_rm) "LDS" 16 OpEnc.none 0
    ∷ entry 0xc6 (op_mask_modrm8 ∣∣ op_mask_imm8) "MOV" 8 OpEnc.none 0
    ∷ entry 0xc7 (op_mask_modrm16 ∣∣ op_mask_imm16) "MOV" 16 OpEnc.none 0
    ∷ entry 0xc8 op_mask_notimpl "" 16 OpEnc.none 0
    ∷ entry 0xc9 op_mask_notimpl "" 16 OpEnc.none 0
    ∷ entry 0xca op_mask_imm16 "RET" 16 OpEnc.none 0
    ∷ entry 0xcb op_mask_none "RET" 16 OpEnc.none 0
    ∷ entry 0xcc op_mask_none "INT3" 16 OpEnc.none 0
    ∷ entry 0xcd op_mask_imm8 "INT" 8 OpEnc.none 0
    ∷ entry 0xce op_mask_none "INTO" 16 OpEnc.none 0
    ∷ entry 0xcf op_mask_notimpl "IRET" 16 OpEnc.none 0
    ∷ entry 0xd0 (op_mask_modrm8 ∣∣ uses_reg_subcode) "0xD0/M" 8 OpEnc.none 0
    ∷ entry 0xd1 (op_mask_modrm16 ∣∣ uses_reg_subcode) "0xD1/M" 16 OpEnc.none 0
    ∷ entry 0xd2 (op_mask_modrm8 ∣∣ uses_reg_subcode) "0xD2/M" 8 OpEnc.none 0
    ∷ entry 0xd3 (op_mask_modrm16 ∣∣ uses_reg_subcode) "0xD3/M" 16 OpEnc.none 0
    ∷ entry 0xd4 op_mask_notimpl "" 16 OpEnc.none 0
    ∷ entry 0xd5 op_mask_notimpl "" 16 OpEnc.none 0
    ∷ entry 0xd6 op_mask_notimpl "" 16 OpEnc.none 0
    ∷ entry 0xd7 op_mask_notimpl "" 16 OpEnc.none 0
    ∷ entry 0xd8 (op_mask_notimpl ∣∣ op_mask_imm8) "ESC" 8 OpEnc.none 0
    ∷ entry 0xd9 (op_mask_notimpl ∣∣ op_mask_imm8) "ESC" 8 OpEnc.none 0
    ∷ entry 0xda (op_mask_notimpl ∣∣ op_mask_imm8) "ESC" 8 OpEnc.none 0
    ∷ entry 0xdb (op_mask_notimpl ∣∣ op_mask_imm8) "ESC" 8 OpEnc.none 0
    ∷ entry 0xdc (op_mask_notimpl ∣∣ op_mask_imm8) "ESC" 8 OpEnc.none 0
    ∷ entry 0xdd (op_mask_notimpl ∣∣ op_mask_imm8) "ESC" 8 OpEnc.none 0
    ∷ entry 0xde (op_mask_notimpl ∣∣ op_mask_imm8) "ESC" 8 OpEnc.none 0
    ∷ entry 0xdf (op_mask_notimpl ∣∣ op_mask_imm8) "ESC" 8 OpEnc.none 0
    ∷ entry 0xe0 op_mask_rel8 "LOOPNE" 8 OpEnc.none 0
    ∷ entry 0xe1 op_mask_rel8 "LOOPE" 8 OpEnc.none 0
    ∷ entry 0xe2 op_mask_rel8 "LOOP" 8 OpEnc.none 0
    ∷ entry 0xe3 op_mask_rel8 "JCXZ" 8 OpEnc.none 0
    ∷ entry 0xe4 op_mask_imm8 "IN" 8 OpEnc.none 0
    ∷ entry 0xe5 op_mask_imm8 "IN" 8 OpEnc.none 0
    ∷ entry 0xe6 op_mask_imm8 "" 8 OpEnc.none 0
    ∷ entry 0xe7 op_mask_imm8 "" 8 OpEnc.none 0
    ∷ entry 0xe8 op_mask_imm16 "CALL" 16 OpEnc.none 0
    ∷ entry 0xe9 op_mask_imm16 "JMP" 16 OpEnc.none 0
    ∷ entry 0xea op_mask_notimpl "" 16 OpEnc.none 0
    ∷ entry 0xeb op_mask_imm8 "JMP" 8 OpEnc.none 0
    ∷ entry 0xec op_mask_none "IN" 16 OpEnc.none 0
    ∷ entry 0xed op_mask_none "IN" 16 OpEnc.none 0
    ∷ entry 0xee op_mask_none "IN" 16 OpEnc.none 0
    ∷ entry 0xef op_mask_none "IN" 16 OpEnc.none 0
    ∷ entry 0xf0 op_mask_notimpl "" 16 OpEnc.none 0
    ∷ entry 0xf1 op_mask_notimpl "" 16 OpEnc.none 0
    ∷ entry 0xf2 op_mask_notimpl "" 16 OpEnc.none 0
    ∷ entry 0xf3 op_mask_notimpl "" 16 OpEnc.none 0
    ∷ entry 0xf4 op_mask_notimpl "" 16 OpEnc.none 0
    ∷ entry 0xf5 op_mask_none "CMC" 16 OpEnc.none 0
    ∷ entry 0xf6 (op_mask_modrm8 ∣∣ uses_reg_subcode) "0xF6/M" 8 OpEnc.none 0
    ∷ entry 0xf7 (op_mask_modrm16 ∣∣ uses_reg_subcode) "0xF7/M" 16 OpEnc.none 0
    ∷ entry 0xf8 op_mask_none "CLC" 16 OpEnc.none 0
    ∷ entry 0xf9 op_mask_none "STC" 16 OpEnc.none 0
    ∷ entry 0xfa op_mask_none "CLI" 16 OpEnc.none 0
    ∷ entry 0xfb op_mask_none "STL" 16 OpEnc.none 0
    ∷ entry 0xfc op_mask_none "CLD" 16 OpEnc.none 0
    ∷ entry 0xfd op_mask_none "STD" 16 OpEnc.none 0
    ∷ entry 0xfe op_mask_modrm8 "INC" 8 OpEnc.none 0
    ∷ entry 0xff (op_mask_modrm16 ∣∣ uses_reg_subcode) "0xFF/M" 16 OpEnc.none 0
    ∷ []
