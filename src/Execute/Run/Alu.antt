-- ===== src/Execute/Run/Alu.antt =====
-- cpu/x86/cpu.cpp, run: ADD and SUB between two registers, from their two bytes on.
use door86c.Common.{
  ℕ, suc, ◌*◌, ◌+◌, ◌-◌, ◌/◌, ◌%◌, ◌<◌, ◌≡◌, refl, arith, true, false, Bool, ◌||◌, ◌&&◌, ◌==◌, some,
  List, [], ◌∷◌, get_elem?, u16, ◌∙◌, inl, inr, Option-cases, leb, ltb,
}
use door86c.Memory.{Width, byte, word}
use door86c.Decoder.{
  Instruction, RegModRm, parse_modrm, blank, decode, decode_start, prefix, decode_metadata,
  decode_modrm, decode_disp, has_modrm, decode_imm,
}
use door86c.Decoder.Masks.{OpEnc, OpCodeData}
use door86c.Decoder.Table.{op_data}
use door86c.Decoder.Table.Laws.{parse_modrm-encode}
use door86c.Decoder.Stages.{Gives}
use door86c.Decoder.Stream.{decode_lem}
use door86c.Regs.{get8, get16}
use door86c.Machine.{Cpu, Handler}
use door86c.Machine.Exec.{Exec, pure, put_ip, Step, ok, ◌>>=◌, ◌>>◌, set_ip}
use door86c.Rmm.{reg, card, get, add_assign, sub_assign}
use door86c.Rmm.Update.{Updated, add_assign-Updated, sub_assign-Updated}
use door86c.Execute.Operands.{Alu, switch, regptr, r_operand, rmm, rm_r, rm_x}
use door86c.Execute.Arith.{execute_0x0, execute_0x2}
use door86c.Execute.Run.{after_body, repeat, dispatch, execute, fetch_at, fetch_instruction, run}
use door86c.Execute.Run.Int.{if-true}

-- The two operations.
pub data Binary : Type 0 where
  add sub : Binary

abbrev pub opcode : Binary → Width → ℕ
opcode add byte = 0x00
opcode add word = 0x01
opcode sub byte = 0x28
opcode sub word = 0x29

abbrev name_bits : Binary → Width → OpCodeData
name_bits add byte = record {
  op = 0x00;
  mask = 0x410;
  name = "ADD";
  bits = 8;
  op_enc = OpEnc.none;
  r_base = 0;
}
name_bits add word = record {
  op = 0x01;
  mask = 0x420;
  name = "ADD";
  bits = 16;
  op_enc = OpEnc.none;
  r_base = 0;
}
name_bits sub byte = record {
  op = 0x28;
  mask = 0x410;
  name = "SUB";
  bits = 8;
  op_enc = OpEnc.none;
  r_base = 0;
}
name_bits sub word = record {
  op = 0x29;
  mask = 0x420;
  name = "SUB";
  bits = 16;
  op_enc = OpEnc.none;
  r_base = 0;
}

-- What it stores, and when it sets CF and OF.
abbrev pub assign : Binary → Alu
assign add = add_assign
assign sub = sub_assign

abbrev pub result : Binary → Width → ℕ → ℕ → ℕ
result add w a b = (a + b) % card w
result sub w a b = (a + card w - b) % card w

abbrev pub carries : Binary → Width → ℕ → ℕ → Bool
carries add w a b = leb (card w) (a + b)
carries sub w a b = ltb a b

abbrev pub overflows : Binary → Width → ℕ → ℕ → Bool
overflows add w a b = leb (card w / 2) (a + b)
overflows sub w a b = ltb a b || leb (card w / 2) (a - b)

abbrev operands : ℕ → ℕ → RegModRm
operands d r = record { mode = 3; reg = r; rm = d }

-- The operation on register `d` with register `r`: its opcode, and 11 in binary with `r` and `d`.
abbrev pub alu_bytes : Binary → Width → ℕ → ℕ → List ℕ
alu_bytes o w d r = opcode o w ∷ (3 * 64 + r * 8 + d) ∷ []

abbrev alu_instruction : Binary → Width → ℕ → ℕ → Instruction
alu_instruction o w d r = record blank {
  op = opcode o w;
  mdrm = operands d r;
  len = 2;
  bytes = alu_bytes o w d r;
  metadata = name_bits o w;
}

and_false : (b : Bool) → (b && false) ≡ false
and_false true = refl
and_false false = refl

module _ (d r : ℕ) (d_small : d < 8) (r_small : r < 8) where
  parsed : parse_modrm (3 * 64 + r * 8 + d) ≡ operands d r
  parsed = parse_modrm-encode (operands d r) (omega arith) r_small d_small

  alu_decodes :
      (o : Binary) (w : Width)
      → decode (get_elem? (alu_bytes o w d r)) ≡ some (alu_instruction o w d r)
  unfolding decode decode_start prefix decode_metadata op_data decode_modrm decode_disp has_modrm
      decode_imm
  alu_decodes add byte = rw (parsed, and_false (d == 6)) refl
  alu_decodes add word = rw (parsed, and_false (d == 6)) refl
  alu_decodes sub byte = rw (parsed, and_false (d == 6)) refl
  alu_decodes sub word = rw (parsed, and_false (d == 6)) refl

  d_named : ltb d 8 ≡ true
  d_named = ground arith

  r_named : ltb r 8 ≡ true
  r_named = ground arith

  dispatch-alu :
      (handle : Handler → ℕ → Step) (o : Binary) (w : Width) (b : ℕ) (s : Cpu)
      → get w (reg r) s ≡ ok b s
      → dispatch handle (alu_instruction o w d r) s ≡ assign o w (reg d) b s
  unfolding dispatch switch execute_0x0 execute_0x2 rm_r rm_x r_operand rmm regptr
  dispatch-alu handle add byte b s e = rw (d_named, r_named, ◌>>=◌, e) refl
  dispatch-alu handle add word b s e = rw (d_named, r_named, ◌>>=◌, e) refl
  dispatch-alu handle sub byte b s e = rw (d_named, r_named, ◌>>=◌, e) refl
  dispatch-alu handle sub word b s e = rw (r_named, ◌>>=◌, e, d_named) refl

  module _ (handle : Handler → ℕ → Step) (rounds : ℕ) where
    execute-alu :
        (o : Binary) (w : Width) (b : ℕ) (s t : Cpu)
        → s.debugger_attached ≡ false
        → get w (reg r) s ≡ ok b s
        → assign o w (reg d) b s ≡ ok tt t
        → execute handle (suc rounds) (alu_instruction o w d r) s ≡ ok true t
    unfolding execute repeat after_body
    execute-alu add byte b s t alone e f =
        simp (alone, ◌>>=◌, dispatch-alu handle add byte b s e, f)
    execute-alu add word b s t alone e f =
        simp (alone, ◌>>=◌, dispatch-alu handle add word b s e, f)
    execute-alu sub byte b s t alone e f =
        simp (alone, ◌>>=◌, dispatch-alu handle sub byte b s e, f)
    execute-alu sub word b s t alone e f =
        simp (alone, ◌>>=◌, dispatch-alu handle sub word b s e, f)

    assigned :
        (o : Binary) (w : Width) (a b : ℕ) (s : Cpu)
        → get w (reg d) s ≡ ok a s
        → a < card w
        → b < card w
        → (t : Cpu) × (assign o w (reg d) b s ≡ ok tt t)
          × Updated w (reg d) (result o w a b) (carries o w a b) (overflows o w a b) s t
    assigned add w a b s e a_fits b_fits =
        add_assign-Updated w (reg d) a b s e d_small a_fits b_fits
    assigned sub w a b s e a_fits b_fits =
        sub_assign-Updated w (reg d) a b s e d_small a_fits b_fits

    fetch-alu :
        (o : Binary) (w : Width) (s : Cpu)
        → Gives (fetch_at s.memory (s.core.sregs.cs * 0x10 + s.core.ip)) 0 (alu_bytes o w d r)
        → fetch_instruction s ≡ ok (alu_instruction o w d r) s
    unfolding fetch_instruction
    fetch-alu o w s g =
        let again = (decode_lem _ (alu_instruction o w d r) (alu_decodes o w)).again in
        rw (again _ g) refl

    get-set_ip :
        (w : Width) (n v ip : ℕ) (s : Cpu)
        → get w (reg n) s ≡ ok v s
        → get w (reg n) (set_ip ip s) ≡ ok v (set_ip ip s)
    unfolding get
    get-set_ip byte n v ip s e = elim (Option-cases (get8 s.core.regs n)) [
      | inl no_register ↦ grind arith
      | inr (v', found) ↦ grind arith
    ]
    get-set_ip word n v ip s e = elim (Option-cases (get16 s.core.regs n)) [
      | inl no_register ↦ grind arith
      | inr (v', found) ↦ grind arith
    ]

    -- A running machine without a debugger, with the two bytes of ADD or SUB between two registers
    -- of a width at CS:IP. The main loop fetches and executes them and goes on with a machine where
    -- IP is behind them and the first register holds the sum or the difference modulo its size. CF
    -- is the carry or the borrow; OF is set if the sum reaches half of the range, or on a borrow, or
    -- if the difference reaches half of the range; ZF, SF and PF describe the result. Everything
    -- else is as before: the other registers, AF, TF, IF and DF, the memory and the rest.
    pub run-alu :
        (o : Binary) (w : Width) (fuel a b : ℕ) (s : Cpu)
        → s.running ≡ true
        → s.debugger_attached ≡ false
        → Gives (fetch_at s.memory (s.core.sregs.cs * 0x10 + s.core.ip)) 0 (alu_bytes o w d r)
        → get w (reg d) s ≡ ok a s
        → get w (reg r) s ≡ ok b s
        → a < card w
        → b < card w
        → let s2 = set_ip (u16 (s.core.ip + 2)) s in
          (t : Cpu) × (run handle (suc rounds) (suc fuel) s ≡ run handle (suc rounds) fuel t)
          × Updated w (reg d) (result o w a b) (carries o w a b) (overflows o w a b) s2 t
    unfolding run
    run-alu o w fuel a b s running alone g ea eb a_fits b_fits =
        let s2 = set_ip (u16 (s.core.ip + 2)) s in
        let (t, e, u) = assigned o w a b s2 (get-set_ip w d a _ s ea) a_fits b_fits in
        let round : Exec Bool = (do
          i ← fetch_instruction
          put_ip (λ ip. u16 (ip + i.len))
          execute handle (suc rounds) i
          run handle (suc rounds) fuel) in
        (
          t,
          if-true s.running round (pure true) s running
              ∙ rw
                  (
                    ◌>>=◌,
                    fetch-alu o w s g,
                    execute-alu o w b s2 t alone (get-set_ip w r b _ s eb) e,
                  )
                  refl,
          u,
        )
