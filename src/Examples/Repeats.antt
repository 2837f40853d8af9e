-- ===== src/Examples/Repeats.antt =====
-- Opcodes that are skipped, and repeat prefixes, at work.
use door86c.Common.{
  ◌≡◌, refl, arith, some, get_elem?, true, false, bit_and, nonzero, if◌then◌else◌, [], ◌∷◌,
}
use door86c.Decoder.{
  Instruction, blank, decode, decode_start, prefix, decode_metadata, decode_modrm, has_modrm,
  decode_imm,
}
use door86c.Decoder.Masks.{OpEnc, op_mask_notimpl}
use door86c.Decoder.Table.{op_data}
use door86c.Machine.{Cpu}
use door86c.Machine.Exec.{ok, set_regs}
use door86c.Execute.Operands.{switch}
use door86c.Execute.Transfer.{cbw, execute_0x9}
use door86c.Regs.{low, with_high}
use door86c.Execute.Run.{execute, repeat, dispatch}
use door86c.Execute.Run.Laws.{execute-not_implemented}
use door86c.Execute.Run.Repeat.{repeat-rounds, rounds}
use door86c.Examples.Data.{machine, idle, iret_bytes}

abbrev iret : Instruction
iret = record blank {
  op = 0xcf;
  len = 1;
  bytes = iret_bytes;
  metadata = record {
    op = 0xcf;
    mask = op_mask_notimpl;
    name = "IRET";
    bits = 16;
    op_enc = OpEnc.none;
    r_base = 0;
  };
}

iret_decodes : decode (get_elem? iret_bytes) ≡ some iret
unfolding decode decode_start prefix decode_metadata op_data decode_modrm has_modrm decode_imm
iret_decodes = refl

execute-not_implemented_example : execute idle 5 iret machine ≡ ok false machine
execute-not_implemented_example =
    execute-not_implemented idle 5 (get_elem? iret_bytes) iret machine iret_decodes (omega arith)
      refl

-- F3 98: REP CBW.
abbrev rep_cbw : Instruction
rep_cbw = record blank {
  op = 0x98;
  rep = true;
  len = 2;
  bytes = 0xf3 ∷ 0x98 ∷ [];
  metadata = record {
    op = 0x98;
    mask = 0;
    name = "CBW";
    bits = 16;
    op_enc = OpEnc.none;
    r_base = 0;
  };
}

rep_cbw_decodes : decode (get_elem? (0xf3 ∷ 0x98 ∷ [])) ≡ some rep_cbw
unfolding decode decode_start prefix decode_metadata op_data decode_modrm has_modrm decode_imm
rep_cbw_decodes = refl

abbrev with_sign : Cpu → Cpu
with_sign s =
    set_regs
      (record s.core.regs {
        ax =
            with_high s.core.regs.ax
              (if nonzero (bit_and (low s.core.regs.ax) 0x80) then 0xff else 0x00);
      })
      s

cbw_runs : (s : Cpu) → dispatch idle rep_cbw s ≡ ok tt (with_sign s)
unfolding dispatch switch execute_0x9 cbw
cbw_runs s = refl

repeat-rounds_example :
    repeat 10 (dispatch idle rep_cbw) rep_cbw machine ≡ ok tt (rounds 3 with_sign machine)
repeat-rounds_example =
    repeat-rounds (dispatch idle rep_cbw) with_sign rep_cbw refl cbw_runs (λ t. refl) 10 3 machine
      refl (omega arith) refl (omega arith)
