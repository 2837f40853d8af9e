-- ===== src/Decoder/Table.antt =====
-- cpu/x86/decoder.cpp: the opcode table, its correction of operand sizes, and its lookup.
pub mod Laws
use door86c.Common.{
  ℕ, bit_and, ◌&&◌, Option, List, ◌++◌, ◌==◌, nonzero, if◌then◌else◌, get_elem?, not,
}
use mathlib.Core.List.{map}
use door86c.Decoder.Masks.{OpCodeData, op_mask_modrm8, op_mask_modrm16}
use door86c.Decoder.Opcodes00.{opcodes_00}
use door86c.Decoder.Opcodes40.{opcodes_40}
use door86c.Decoder.Opcodes80.{opcodes_80}
use door86c.Decoder.OpcodesC0.{opcodes_c0}

-- `// Fixup bits`
unfoldable pub fixup_bits : OpCodeData → OpCodeData
fixup_bits o =
    if nonzero (bit_and o.mask op_mask_modrm8)
    then (if not (o.bits == 8) then record o { bits = 8 } else o)
    else if nonzero (bit_and o.mask op_mask_modrm16) && not (o.bits == 16)
    then record o { bits = 16 }
    else o

unfoldable pub create_opcode_metadata : List OpCodeData
unfolding fixup_bits
create_opcode_metadata = map fixup_bits (opcodes_00 ++ opcodes_40 ++ opcodes_80 ++ opcodes_c0)

-- `op_data_[opcode]`
unfoldable pub op_data : ℕ → Option OpCodeData
unfolding create_opcode_metadata
op_data opcode = get_elem? create_opcode_metadata opcode
