-- ===== src/Examples/Decoding.antt =====
-- Instructions decoded.
use door86c.Common.{◌≡◌, refl, arith, some, get_elem?}
use door86c.Decoder.{
  Fetch, Instruction, RegModRm, blank, decode, decode_bytes, decode_start, prefix, decode_metadata,
  decode_modrm, has_modrm, decode_imm,
}
use door86c.Decoder.Masks.{OpEnc}
use door86c.Decoder.Table.{op_data}
use door86c.Decoder.Stream.{Decodes, decode_lem}
use door86c.Decoder.Total.{decode-some}
use door86c.Examples.Data.{mov_cafe}

abbrev pub cafe : Instruction
cafe = record blank {
  op = 0xb8;
  imm16 = 0xcafe;
  len = 3;
  bytes = mov_cafe;
  metadata = record {
    op = 0xb8;
    mask = 0x4002;
    name = "MOV";
    bits = 16;
    op_enc = OpEnc.none;
    r_base = 0xb8;
  };
}

pub mov_cafe_decodes : decode_bytes mov_cafe ≡ some cafe
unfolding decode_bytes decode decode_start prefix decode_metadata op_data decode_modrm has_modrm
    decode_imm
mov_cafe_decodes = refl

mov_cafe_stream : decode (get_elem? mov_cafe) ≡ some cafe
unfolding decode decode_start prefix decode_metadata op_data decode_modrm has_modrm decode_imm
mov_cafe_stream = refl

decode_lem_example : Decodes (get_elem? mov_cafe) cafe
decode_lem_example = decode_lem (get_elem? mov_cafe) cafe mov_cafe_stream

abbrev bp_disp8 : RegModRm
bp_disp8 = record { mode = 1; reg = 0; rm = 6 }

-- Seven NOPs.
abbrev nops : Fetch
nops o = some 0x90

decode-some_example : (i : Instruction) × (decode nops ≡ some i)
decode-some_example = decode-some nops (λ o h. (0x90, refl, omega arith))
