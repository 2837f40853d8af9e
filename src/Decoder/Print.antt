-- ===== src/Decoder/Print.antt =====
-- cpu/x86/decoder.cpp, from `rmreg8_to_string` on, and cpu/x86/cpu_core.cpp: instructions and registers
-- as text.
use door86c.Common.{
  ℕ, ◌+◌, ◌-◌, ◌^◌, Bool, true, false, ◌&&◌, Option, none, some, List, [], ◌∷◌, ◌++◌, ◌==◌, nonzero,
  if◌then◌else◌, u8, bit_and, codes, get_elem?,
}
use door86c.Flags.{Flag, carry, parity, zero_flag, sign, overflow, read}
use door86c.Machine.{Core}
use door86c.Decoder.Masks.{
  OpEnc, rm_r, r_rm, OpCodeData, op_mask_imm8, op_mask_imm16, op_mask_reg_is_sreg,
  op_mask_has_r_and_rm, uses_reg_subcode, uses_encoded_reg,
}
use door86c.Decoder.{RegModRm, Segment, segment_number, Instruction, has_modrm, seg_index, ◌>>=◌}

-- What is used of fmt: `{:02X}`, `{:04X}`, `{:d}`, and `{:10}` of a text.
pub record Formats : Type 0 where
  pub hex02 : ℕ → List ℕ
  pub hex04 : ℕ → List ℕ
  pub decimal : ℕ → List ℕ
  pub pad10 : List ℕ → List ℕ

unfoldable pub rmreg8_to_string : ℕ → List ℕ
rmreg8_to_string reg =
    if reg == 0
    then codes "AL"
    else if reg == 1
    then codes "CL"
    else if reg == 2
    then codes "DL"
    else if reg == 3
    then codes "BL"
    else if reg == 4
    then codes "AH"
    else if reg == 5
    then codes "CH"
    else if reg == 6
    then codes "DH"
    else if reg == 7
    then codes "BH"
    else codes "??"

unfoldable pub rmreg16_to_string : ℕ → List ℕ
rmreg16_to_string reg =
    if reg == 0
    then codes "AX"
    else if reg == 1
    then codes "CX"
    else if reg == 2
    then codes "DX"
    else if reg == 3
    then codes "BX"
    else if reg == 4
    then codes "SP"
    else if reg == 5
    then codes "BP"
    else if reg == 6
    then codes "SI"
    else if reg == 7
    then codes "DI"
    else codes "??"

unfoldable pub rmreg_sreg_to_string : ℕ → List ℕ
rmreg_sreg_to_string reg =
    if reg == 0
    then codes "ES"
    else if reg == 1
    then codes "CS"
    else if reg == 2
    then codes "SS"
    else if reg == 3
    then codes "DS"
    else if reg == 4
    then codes "FS"
    else if reg == 5
    then codes "GS"
    else codes "??"

-- The tables `ea012` and `segment_names`; an entry beyond the end of the first is undefined.
abbrev pub ea012 : List (List ℕ)
ea012 =
    codes "[BX + SI]"
    ∷ codes "[BX + DI]"
    ∷ codes "[BP + SI]"
    ∷ codes "[BP + DI]"
    ∷ codes "[SI]"
    ∷ codes "[DI]"
    ∷ codes "[BP]"
    ∷ codes "[BX]"
    ∷ []

abbrev pub segment_names : List (List ℕ)
segment_names = codes "ES" ∷ codes "CS" ∷ codes "SS" ∷ codes "DS" ∷ codes "FS" ∷ codes "GS" ∷ []

abbrev pub has_override : Option Segment → Bool
has_override none = false
has_override (some s) = true

module _ (f : Formats) where
  unfoldable pub rm_to_string : RegModRm → OpCodeData → ℕ → ℕ → Option (List ℕ)
  unfolding rmreg8_to_string rmreg16_to_string
  rm_to_string rm metadata disp8 disp16 =
      if (rm.mode == 0) && (rm.rm == 6)
      then some (codes "[+" ++ (f.hex04 disp16 ++ codes "]"))
      else if rm.mode == 0
      then (do ea ← get_elem? ea012 rm.rm; some (codes "[" ++ (ea ++ codes "]")))
      else if rm.mode == 1
      then (do
        ea ← get_elem? ea012 rm.rm
        some (codes "[" ++ (ea ++ (codes "+" ++ (f.hex02 disp8 ++ codes "]")))))
      else if rm.mode == 2
      then (do
        ea ← get_elem? ea012 rm.rm
        some (codes "[" ++ (ea ++ (codes "+" ++ (f.hex04 disp16 ++ codes "]")))))
      else if (rm.mode == 3) && (metadata.bits == 8)
      then some (rmreg8_to_string rm.rm)
      else if (rm.mode == 3) && (metadata.bits == 16)
      then some (rmreg16_to_string rm.rm)
      else some []

  unfoldable pub r_to_string : RegModRm → OpCodeData → List ℕ
  unfolding rmreg8_to_string rmreg16_to_string rmreg_sreg_to_string
  r_to_string rm metadata =
      if nonzero (bit_and metadata.mask op_mask_reg_is_sreg)
      then rmreg_sreg_to_string rm.reg
      else if metadata.bits == 8
      then rmreg8_to_string rm.reg
      else rmreg16_to_string rm.reg

  -- Each byte by `{:02X}`.
  unfoldable pub join_bytes : List ℕ → List ℕ
  join_bytes [] = []
  join_bytes (b ∷ bs) = f.hex02 b ++ join_bytes bs

  unfoldable pub bytes_part : List ℕ → List ℕ
  unfolding join_bytes
  bytes_part [] = []
  bytes_part (b ∷ bs) = f.pad10 (join_bytes (b ∷ bs))

  abbrev pub rep_part : Instruction → List ℕ
  rep_part i = if i.rep then codes "[REP]" else if i.repne then codes "[REPNE]" else []

  abbrev pub override_part : Instruction → Option (List ℕ)
  override_part i =
      if has_override i.seg_override
      then (do
        name ← get_elem? segment_names (segment_number (seg_index i))
        some (codes "[SO:" ++ (name ++ codes "] ")))
      else some []

  abbrev pub subcode_part : Instruction → List ℕ
  subcode_part i =
      if nonzero (bit_and i.metadata.mask uses_reg_subcode)
      then codes "/" ++ (f.decimal i.mdrm.reg ++ codes " ")
      else []

  abbrev pub encoded_reg_part : Instruction → List ℕ
  encoded_reg_part i =
      if nonzero (bit_and i.metadata.mask uses_encoded_reg)
      then (if i.metadata.bits == 8
          then rmreg8_to_string (u8 (i.op + 2 ^ 8 - i.metadata.r_base)) ++ codes " "
          else rmreg16_to_string (u8 (i.op + 2 ^ 8 - i.metadata.r_base)) ++ codes " ")
      else []

  -- The text for the register, before the one for the other operand.
  abbrev pub r_first : OpEnc → Instruction → List ℕ
  r_first r_rm i = r_to_string i.mdrm i.metadata ++ codes ", "
  r_first rm_r i = r_to_string i.mdrm i.metadata ++ codes ", "
  r_first other i =
      if nonzero (bit_and i.metadata.mask op_mask_has_r_and_rm)
      then r_to_string i.mdrm i.metadata ++ codes ", "
      else []

  abbrev pub modrm_part : Instruction → Option (List ℕ)
  modrm_part i =
      if has_modrm i.metadata.mask
      then (do
        rm ← rm_to_string i.mdrm i.metadata i.disp8 i.disp16
        some (r_first i.metadata.op_enc i ++ (rm ++ codes " ")))
      else some []

  abbrev pub imm_part : Instruction → List ℕ
  imm_part i =
      if nonzero (bit_and i.metadata.mask op_mask_imm8)
      then codes "0x" ++ (f.hex02 i.imm8 ++ codes " ")
      else if nonzero (bit_and i.metadata.mask op_mask_imm16)
      then codes "0x" ++ (f.hex04 i.imm16 ++ codes " ")
      else []

  -- `instruction_t::DebugString`.
  unfoldable pub debug_string : Instruction → Option (List ℕ)
  unfolding bytes_part rmreg8_to_string rmreg16_to_string r_to_string rm_to_string
  debug_string i = do
    override ← override_part i
    modrm ← modrm_part i
    some (
        bytes_part i.bytes
        ++ (rep_part i
            ++ (override
                ++ (codes i.metadata.name
                    ++ (codes " "
                        ++ (subcode_part i ++ (encoded_reg_part i ++ (modrm ++ imm_part i))))))))

  abbrev pub bit_text : Bool → List ℕ
  bit_text true = codes "1"
  bit_text false = codes "0"

  -- `cpu_core::DebugString`.
  unfoldable pub core_string : Core → List ℕ
  core_string c =
      let x = c.regs in
      let s = c.sregs in
      let word = λ (name : List ℕ) (v : ℕ). name ++ f.hex04 v in
      let bit = λ (name : List ℕ) (g : Flag). name ++ bit_text (read g c.flags) in
      codes "            "
      ++ (word (codes "AX=") x.ax
          ++ (word (codes "  BX=") x.bx
              ++ (word (codes "  CX=") x.cx
                  ++ (word (codes "  DX=") x.dx
                      ++ (word (codes "  SP=") x.sp
                          ++ (word (codes "  BP=") x.bp
                              ++ (word (codes "  SI=") x.si
                                  ++ (word (codes "  DI=") x.di
                                      ++ (codes "\n"
                                          ++ (codes "                                          "
                                              ++ (word (codes "DS=") s.ds
                                                  ++ (word (codes " ES=") s.es
                                                      ++ (word (codes " SS=") s.ss
                                                          ++ (word (codes " CS=") s.cs
                                                            ++ (word (codes " IP=") c.ip
                                                            ++ (bit (codes ") C:") carry
                                                            ++ (bit (codes " P:") parity
                                                            ++ (bit (codes " Z:") zero_flag
                                                            ++ (bit (codes " S:") sign
                                                            ++ bit (codes " O:")
                                                            overflow)))))))))))))))))))
