-- ===== src/Decoder/Opcodes40.antt =====
-- cpu/x86/decoder.cpp, create_opcode_metadata: the entries 0x40 to 0x7f.
use door86c.Common.{List, [], ◌∷◌}
use door86c.Decoder.Masks.{
  OpCodeData, OpEnc, entry, ◌∣∣◌, op_mask_has_r_and_rm, op_mask_imm16, op_mask_imm8, op_mask_none,
  op_mask_notimpl, op_mask_rel8, uses_encoded_reg, uses_rep_zf,
}

abbrev pub opcodes_40 : List OpCodeData
opcodes_40 =
    entry 0x40 (op_mask_none ∣∣ uses_encoded_reg) "INC" 16 OpEnc.none 0x40
    ∷ entry 0x41 (op_mask_none ∣∣ uses_encoded_reg) "INC" 16 OpEnc.none 0x40
    ∷ entry 0x42 (op_mask_none ∣∣ uses_encoded_reg) "INC" 16 OpEnc.none 0x40
    ∷ entry 0x43 (op_mask_none ∣∣ uses_encoded_reg) "INC" 16 OpEnc.none 0x40
    ∷ entry 0x44 (op_mask_none ∣∣ uses_encoded_reg) "INC" 16 OpEnc.none 0x40
    ∷ entry 0x45 (op_mask_none ∣∣ uses_encoded_reg) "INC" 16 OpEnc.none 0x40
    ∷ entry 0x46 (op_mask_none ∣∣ uses_encoded_reg) "INC" 16 OpEnc.none 0x40
    ∷ entry 0x47 (op_mask_none ∣∣ uses_encoded_reg) "INC" 16 OpEnc.none 0x40
    ∷ entry 0x48 (op_mask_none ∣∣ uses_encoded_reg) "DEC" 16 OpEnc.none 0x48
    ∷ entry 0x49 (op_mask_none ∣∣ uses_encoded_reg) "DEC" 16 OpEnc.none 0x48
    ∷ entry 0x4a (op_mask_none ∣∣ uses_encoded_reg) "DEC" 16 OpEnc.none 0x48
    ∷ entry 0x4b (op_mask_none ∣∣ uses_encoded_reg) "DEC" 16 OpEnc.none 0x48
    ∷ entry 0x4c (op_mask_none ∣∣ uses_encoded_reg) "DEC" 16 OpEnc.none 0x48
    ∷ entry 0x4d (op_mask_none ∣∣ uses_encoded_reg) "DEC" 16 OpEnc.none 0x48
    ∷ entry 0x4e (op_mask_none ∣∣ uses_encoded_reg) "DEC" 16 OpEnc.none 0x48
    ∷ entry 0x4f (op_mask_none ∣∣ uses_encoded_reg) "DEC" 16 OpEnc.none 0x48
    ∷ entry 0x50 (op_mask_none ∣∣ uses_encoded_reg) "PUSH" 16 OpEnc.none 0x50
    ∷ entry 0x51 (op_mask_none ∣∣ uses_encoded_reg) "PUSH" 16 OpEnc.none 0x50
    ∷ entry 0x52 (op_mask_none ∣∣ uses_encoded_reg) "PUSH" 16 OpEnc.none 0x50
    ∷ entry 0x53 (op_mask_none ∣∣ uses_encoded_reg) "PUSH" 16 OpEnc.none 0x50
    ∷ entry 0x54 (op_mask_none ∣∣ uses_encoded_reg) "PUSH" 16 OpEnc.none 0x50
    ∷ entry 0x55 (op_mask_none ∣∣ uses_encoded_reg) "PUSH" 16 OpEnc.none 0x50
    ∷ entry 0x56 (op_mask_none ∣∣ uses_encoded_reg) "PUSH" 16 OpEnc.none 0x50
    ∷ entry 0x57 (op_mask_none ∣∣ uses_encoded_reg) "PUSH" 16 OpEnc.none 0x50
    ∷ entry 0x58 (op_mask_none ∣∣ uses_encoded_reg) "POP" 16 OpEnc.none 0x58
    ∷ entry 0x59 (op_mask_none ∣∣ uses_encoded_reg) "POP" 16 OpEnc.none 0x58
    ∷ entry 0x5a (op_mask_none ∣∣ uses_encoded_reg) "POP" 16 OpEnc.none 0x58
    ∷ entry 0x5b (op_mask_none ∣∣ uses_encoded_reg) "POP" 16 OpEnc.none 0x58
    ∷ entry 0x5c (op_mask_none ∣∣ uses_encoded_reg) "POP" 16 OpEnc.none 0x58
    ∷ entry 0x5d (op_mask_none ∣∣ uses_encoded_reg) "POP" 16 OpEnc.none 0x58
    ∷ entry 0x5e (op_mask_none ∣∣ uses_encoded_reg) "POP" 16 OpEnc.none 0x58
    ∷ entry 0x5f (op_mask_none ∣∣ uses_encoded_reg) "POP" 16 OpEnc.none 0x58
    ∷ entry 0x60 op_mask_none "PUSHA" 16 OpEnc.none 0
    ∷ entry 0x61 op_mask_none "POPA" 16 OpEnc.none 0
    ∷ entry 0x62 op_mask_notimpl "" 16 OpEnc.none 0
    ∷ entry 0x63 op_mask_notimpl "" 16 OpEnc.none 0
    ∷ entry 0x64 op_mask_notimpl "" 16 OpEnc.none 0
    ∷ entry 0x65 op_mask_notimpl "" 16 OpEnc.none 0
    ∷ entry 0x66 op_mask_notimpl "" 16 OpEnc.none 0
    ∷ entry 0x67 op_mask_notimpl "" 16 OpEnc.none 0
    ∷ entry 0x68 op_mask_imm16 "PUSH" 16 OpEnc.none 0
    ∷ entry 0x69 (op_mask_notimpl ∣∣ op_mask_has_r_and_rm) "" 16 OpEnc.none 0
    ∷ entry 0x6a op_mask_imm8 "PUSH" 8 OpEnc.none 0
    ∷ entry 0x6b (op_mask_notimpl ∣∣ op_mask_has_r_and_rm) "" 16 OpEnc.none 0
    ∷ entry 0x6c (op_mask_notimpl ∣∣ uses_rep_zf) "" 16 OpEnc.none 0
    ∷ entry 0x6d (op_mask_notimpl ∣∣ uses_rep_zf) "" 16 OpEnc.none 0
    ∷ entry 0x6e (op_mask_notimpl ∣∣ uses_rep_zf) "" 16 OpEnc.none 0
    ∷ entry 0x6f (op_mask_notimpl ∣∣ uses_rep_zf) "" 16 OpEnc.none 0
    ∷ entry 0x70 op_mask_rel8 "JO" 8 OpEnc.none 0
    ∷ entry 0x71 op_mask_rel8 "JNO" 8 OpEnc.none 0
    ∷ entry 0x72 op_mask_rel8 "JB/JC/JNAE" 8 OpEnc.none 0
    ∷ entry 0x73 op_mask_rel8 "JNB/JNC/JAE" 8 OpEnc.none 0
    ∷ entry 0x74 op_mask_rel8 "JZ/JE" 8 OpEnc.none 0
    ∷ entry 0x75 op_mask_rel8 "JNZ/JNE" 8 OpEnc.none 0
    ∷ entry 0x76 op_mask_rel8 "JBE/JNA" 8 OpEnc.none 0
    ∷ entry 0x77 op_mask_rel8 "JA/JNBE" 8 OpEnc.none 0
    ∷ entry 0x78 op_mask_rel8 "JS" 8 OpEnc.none 0
    ∷ entry 0x79 op_mask_rel8 "JNS" 8 OpEnc.none 0
    ∷ entry 0x7a op_mask_rel8 "JP/JPE" 8 OpEnc.none 0
    ∷ entry 0x7b op_mask_rel8 "JNP/JPO" 8 OpEnc.none 0
    ∷ entry 0x7c op_mask_rel8 "JL/JNGE" 8 OpEnc.none 0
    ∷ entry 0x7d op_mask_rel8 "JNL/JGE" 8 OpEnc.none 0
    ∷ entry 0x7e op_mask_rel8 "JLE/JNG" 8 OpEnc.none 0
    ∷ entry 0x7f op_mask_rel8 "JNLE/JG" 8 OpEnc.none 0
    ∷ []
