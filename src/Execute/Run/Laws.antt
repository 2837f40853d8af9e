-- ===== src/Execute/Run/Laws.antt =====
-- cpu/x86/cpu.cpp, execute: the opcodes that the decoder's table marks as not implemented.
use door86c.Common.{
  ℕ, ◌<◌, ◌≡◌, refl, arith, Bool, true, false, some, none, List, [], ◌∷◌, ◌==◌, nonzero, bit_and,
  if◌then◌else◌, ◌∙◌, sym, ◌||◌, same, all_below, all_below_lem,
}
use door86c.Decoder.{Instruction, Fetch, decode}
use door86c.Decoder.Masks.{OpCodeData, op_mask_notimpl}
use door86c.Decoder.Table.{op_data}
use door86c.Decoder.Stream.{decode-metadata}
use door86c.Machine.{Cpu, Handler}
use door86c.Machine.Exec.{Step, ok, pure, ◌>>=◌, ◌>>◌}
use door86c.Execute.Run.{execute, repeat, dispatch}

abbrev marked : ℕ → Bool
marked b = elim (op_data b) [ none ↦ false | some d ↦ nonzero (bit_and d.mask op_mask_notimpl) ]

-- The segment prefixes and DAA to AAS, BOUND, ARPL, the prefixes of later processors, IMUL with an
-- immediate, INS, OUTS, 82, POP r/m, CALL far, WAIT, SAHF, LAHF, ENTER, LEAVE, IRET, AAM to XLAT,
-- ESC, JMP far, the lock and repeat prefixes, HLT.
abbrev pub not_implemented : List ℕ
not_implemented =
    0x26 ∷ 0x27 ∷ 0x2e ∷ 0x2f ∷ 0x36 ∷ 0x37 ∷ 0x3e ∷ 0x3f ∷ 0x62 ∷ 0x63 ∷ 0x64 ∷ 0x65 ∷ 0x66 ∷ 0x67
    ∷ 0x69 ∷ 0x6b ∷ 0x6c ∷ 0x6d ∷ 0x6e ∷ 0x6f ∷ 0x82 ∷ 0x8f ∷ 0x9a ∷ 0x9b ∷ 0x9e ∷ 0x9f ∷ 0xc8
    ∷ 0xc9 ∷ 0xcf ∷ 0xd4 ∷ 0xd5 ∷ 0xd6 ∷ 0xd7 ∷ 0xd8 ∷ 0xd9 ∷ 0xda ∷ 0xdb ∷ 0xdc ∷ 0xdd ∷ 0xde
    ∷ 0xdf ∷ 0xea ∷ 0xf0 ∷ 0xf1 ∷ 0xf2 ∷ 0xf3 ∷ 0xf4 ∷ []

abbrev pub member : ℕ → List ℕ → Bool
member b [] = false
member b (x ∷ xs) = b == x || member b xs

table_marked : all_below 256 (λ b. same (marked b) (member b not_implemented)) ≡ true
unfolding op_data
table_marked = refl

same-≡ : (a b : Bool) → same a b ≡ true → a ≡ b
same-≡ true b h = sym h
same-≡ false b h = ground arith

marked_here :
    (b : ℕ) (d : OpCodeData)
    → op_data b ≡ some d
    → marked b ≡ nonzero (bit_and d.mask op_mask_notimpl)
marked_here b d e = ground arith

skip_or_run :
    (handle : Handler → ℕ → Step) (fuel : ℕ) (i : Instruction) (s : Cpu) (skipped : Bool)
    → nonzero (bit_and i.metadata.mask op_mask_notimpl) ≡ skipped
    → s.debugger_attached ≡ false
    → execute handle fuel i s
      ≡ (if skipped then ok false s else (do repeat fuel (dispatch handle i) i; pure true) s)
unfolding execute
skip_or_run handle fuel i s true e alone = rw (alone, ◌>>=◌, e) refl
skip_or_run handle fuel i s false e alone = rw (alone, ◌>>=◌, e) refl

-- The opcodes of the list, IRET and POP r/m among them, are decoded and then skipped: without a
-- debugger `execute` returns false and changes nothing. Every other opcode below 256 goes on to the
-- dispatch, and `execute` returns true if that ends.
pub execute-not_implemented :
    (handle : Handler → ℕ → Step) (fuel : ℕ) (fetch : Fetch) (i : Instruction) (s : Cpu)
    → decode fetch ≡ some i
    → i.op < 256
    → s.debugger_attached ≡ false
    → execute handle fuel i s ≡ (
        if member i.op not_implemented
        then ok false s
        else (do repeat fuel (dispatch handle i) i; pure true) s)
execute-not_implemented handle fuel fetch i s decoded small alone =
    let row = decode-metadata fetch i decoded in
    let known = same-≡ (marked i.op) (member i.op not_implemented) (
      all_below_lem 256 (λ b. same (marked b) (member b not_implemented)) table_marked i.op
        small) in
    let mark : nonzero (bit_and i.metadata.mask op_mask_notimpl) ≡ member i.op not_implemented =
      sym (marked_here i.op i.metadata row) ∙ known in
    skip_or_run handle fuel i s (member i.op not_implemented) mark alone
