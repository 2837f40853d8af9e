-- ===== src/Decoder/Opcodes00.antt =====
-- cpu/x86/decoder.cpp, create_opcode_metadata: the entries 0x00 to 0x3f.
use door86c.Common.{List, [], ◌∷◌}
use door86c.Decoder.Masks.{
  OpCodeData, OpEnc, entry, ◌∣∣◌, op_mask_has_r_and_rm, op_mask_imm16, op_mask_imm8,
  op_mask_modrm16, op_mask_modrm8, op_mask_none, op_mask_notimpl,
}

abbrev pub opcodes_00 : List OpCodeData
opcodes_00 =
    entry 0x00 (op_mask_modrm8 ∣∣ op_mask_has_r_and_rm) "ADD" 8 OpEnc.none 0
    ∷ entry 0x01 (op_mask_modrm16 ∣∣ op_mask_has_r_and_rm) "ADD" 16 OpEnc.none 0
    ∷ entry 0x02 (op_mask_modrm8 ∣∣ op_mask_has_r_and_rm) "ADD" 8 OpEnc.none 0
    ∷ entry 0x03 (op_mask_modrm16 ∣∣ op_mask_has_r_and_rm) "ADD" 16 OpEnc.none 0
    ∷ entry 0x04 op_mask_imm8 "ADD" 8 OpEnc.none 0
    ∷ entry 0x05 op_mask_imm16 "ADD" 16 OpEnc.none 0
    ∷ entry 0x06 op_mask_none "PUSH ES" 16 OpEnc.none 0
    ∷ entry 0x07 op_mask_none "POP ES" 16 OpEnc.none 0
    ∷ entry 0x08 (op_mask_modrm8 ∣∣ op_mask_has_r_and_rm) "OR" 8 OpEnc.none 0
    ∷ entry 0x09 (op_mask_modrm16 ∣∣ op_mask_has_r_and_rm) "OR" 16 OpEnc.none 0
    ∷ entry 0x0a (op_mask_modrm8 ∣∣ op_mask_has_r_and_rm) "OR" 8 OpEnc.none 0
    ∷ entry 0x0b (op_mask_modrm16 ∣∣ op_mask_has_r_and_rm) "OR" 16 OpEnc.none 0
    ∷ entry 0x0c op_mask_imm8 "OR" 8 OpEnc.none 0
    ∷ entry 0x0d op_mask_imm16 "OR" 16 OpEnc.none 0
    ∷ entry 0x0e op_mask_none "PUSH CS" 16 OpEnc.none 0
    ∷ entry 0x0f op_mask_none "POP CS" 16 OpEnc.none 0
    ∷ entry 0x10 (op_mask_modrm8 ∣∣ op_mask_has_r_and_rm) "ADC" 8 OpEnc.none 0
    ∷ entry 0x11 (op_mask_modrm16 ∣∣ op_mask_has_r_and_rm) "ADC" 16 OpEnc.none 0
    ∷ entry 0x12 (op_mask_modrm8 ∣∣ op_mask_has_r_and_rm) "ADC" 8 OpEnc.none 0
    ∷ entry 0x13 (op_mask_modrm16 ∣∣ op_mask_has_r_and_rm) "ADC" 16 OpEnc.none 0
    ∷ entry 0x14 op_mask_imm8 "ADC" 8 OpEnc.none 0
    ∷ entry 0x15 op_mask_imm16 "ADC" 16 OpEnc.none 0
    ∷ entry 0x16 op_mask_none "PUSH SS" 16 OpEnc.none 0
    ∷ entry 0x17 op_mask_none "POP SS" 16 OpEnc.none 0
    ∷ entry 0x18 (op_mask_modrm8 ∣∣ op_mask_has_r_and_rm) "SBB" 8 OpEnc.none 0
    ∷ entry 0x19 (op_mask_modrm16 ∣∣ op_mask_has_r_and_rm) "SBB" 16 OpEnc.none 0
    ∷ entry 0x1a (op_mask_modrm8 ∣∣ op_mask_has_r_and_rm) "SBB" 8 OpEnc.none 0
    ∷ entry 0x1b (op_mask_modrm16 ∣∣ op_mask_has_r_and_rm) "SBB" 16 OpEnc.none 0
    ∷ entry 0x1c op_mask_imm8 "SBB" 8 OpEnc.none 0
    ∷ entry 0x1d op_mask_imm16 "SBB" 16 OpEnc.none 0
    ∷ entry 0x1e op_mask_none "PUSH DS" 16 OpEnc.none 0
    ∷ entry 0x1f op_mask_none "POP DS" 16 OpEnc.none 0
    ∷ entry 0x20 (op_mask_modrm8 ∣∣ op_mask_has_r_and_rm) "AND" 8 OpEnc.none 0
    ∷ entry 0x21 (op_mask_modrm16 ∣∣ op_mask_has_r_and_rm) "AND" 16 OpEnc.none 0
    ∷ entry 0x22 (op_mask_modrm8 ∣∣ op_mask_has_r_and_rm) "AND" 8 OpEnc.none 0
    ∷ entry 0x23 (op_mask_modrm16 ∣∣ op_mask_has_r_and_rm) "AND" 16 OpEnc.none 0
    ∷ entry 0x24 op_mask_imm8 "AND" 8 OpEnc.none 0
    ∷ entry 0x25 op_mask_imm16 "AND" 16 OpEnc.none 0
    ∷ entry 0x26 op_mask_notimpl "" 16 OpEnc.none 0
    ∷ entry 0x27 op_mask_notimpl "" 16 OpEnc.none 0
    ∷ entry 0x28 (op_mask_modrm8 ∣∣ op_mask_has_r_and_rm) "SUB" 8 OpEnc.none 0
    ∷ entry 0x29 (op_mask_modrm16 ∣∣ op_mask_has_r_and_rm) "SUB" 16 OpEnc.none 0
    ∷ entry 0x2a (op_mask_modrm8 ∣∣ op_mask_has_r_and_rm) "SUB" 8 OpEnc.none 0
    ∷ entry 0x2b (op_mask_modrm16 ∣∣ op_mask_has_r_and_rm) "SUB" 16 OpEnc.none 0
    ∷ entry 0x2c op_mask_imm8 "SUB" 8 OpEnc.none 0
    ∷ entry 0x2d op_mask_imm16 "SUB" 16 OpEnc.none 0
    ∷ entry 0x2e op_mask_notimpl "" 16 OpEnc.none 0
    ∷ entry 0x2f op_mask_notimpl "" 16 OpEnc.none 0
    ∷ entry 0x30 (op_mask_modrm8 ∣∣ op_mask_has_r_and_rm) "XOR" 8 OpEnc.rm_r 0
    ∷ entry 0x31 (op_mask_modrm16 ∣∣ op_mask_has_r_and_rm) "XOR" 16 OpEnc.rm_r 0
    ∷ entry 0x32 (op_mask_modrm8 ∣∣ op_mask_has_r_and_rm) "XOR" 8 OpEnc.r_rm 0
    ∷ entry 0x33 (op_mask_modrm16 ∣∣ op_mask_has_r_and_rm) "XOR" 16 OpEnc.r_rm 0
    ∷ entry 0x34 op_mask_imm8 "XOR" 8 OpEnc.r_i 0
    ∷ entry 0x35 op_mask_imm16 "XOR" 16 OpEnc.r_i 0
    ∷ entry 0x36 op_mask_notimpl "" 16 OpEnc.none 0
    ∷ entry 0x37 op_mask_notimpl "" 16 OpEnc.none 0
    ∷ entry 0x38 (op_mask_modrm8 ∣∣ op_mask_has_r_and_rm) "CMP" 8 OpEnc.none 0
    ∷ entry 0x39 (op_mask_modrm16 ∣∣ op_mask_has_r_and_rm) "CMP" 16 OpEnc.none 0
    ∷ entry 0x3a (op_mask_modrm8 ∣∣ op_mask_has_r_and_rm) "CMP" 8 OpEnc.none 0
    ∷ entry 0x3b (op_mask_modrm16 ∣∣ op_mask_has_r_and_rm) "CMP" 16 OpEnc.none 0
    ∷ entry 0x3c op_mask_imm8 "CMP" 8 OpEnc.none 0
    ∷ entry 0x3d op_mask_imm16 "CMP" 16 OpEnc.none 0
    ∷ entry 0x3e op_mask_notimpl "" 16 OpEnc.none 0
    ∷ entry 0x3f op_mask_notimpl "" 16 OpEnc.none 0
    ∷ []
