-- ===== src/Execute/Run/Int.antt =====
-- cpu/x86/cpu.cpp, run: the instruction INT, from its two bytes to the call of the interrupt.
use door86c.Common.{
  ℕ, suc, ◌*◌, ◌≡◌, refl, true, false, Bool, if◌then◌else◌, ◌+◌, some, List, [], ◌∷◌, get_elem?,
  u16, ◌∙◌,
}
use door86c.Decoder.{
  Instruction, blank, decode, decode_start, prefix, decode_metadata, decode_modrm, has_modrm,
  decode_imm,
}
use door86c.Decoder.Masks.{OpEnc, op_mask_imm8}
use door86c.Decoder.Table.{op_data}
use door86c.Decoder.Stages.{Gives}
use door86c.Decoder.Stream.{decode_lem}
use door86c.Machine.{Cpu, Handler}
use door86c.Machine.Exec.{Exec, pure, put_ip, Step, ok, ◌>>=◌, ◌>>◌, set_ip}
use door86c.Execute.Operands.{switch}
use door86c.Execute.Interrupt.{call_interrupt, execute_0xC}
use door86c.Execute.Run.{after_body, repeat, execute, fetch_at, fetch_instruction, run}

abbrev pub int_bytes : ℕ → List ℕ
int_bytes num = 0xcd ∷ num ∷ []

abbrev int_instruction : ℕ → Instruction
int_instruction num = record blank {
  op = 0xcd;
  imm8 = num;
  len = 2;
  bytes = int_bytes num;
  metadata = record {
    op = 0xcd;
    mask = op_mask_imm8;
    name = "INT";
    bits = 8;
    op_enc = OpEnc.none;
    r_base = 0;
  };
}

int_decodes : (num : ℕ) → decode (get_elem? (int_bytes num)) ≡ some (int_instruction num)
unfolding decode decode_start prefix decode_metadata op_data decode_modrm has_modrm decode_imm
int_decodes num = refl

pub if-true : (b : Bool) (m n : Exec Bool) (s : Cpu) → b ≡ true → (if b then m else n) s ≡ m s
if-true true m n s e = refl
if-true false m n s e = cc

module _ (handle : Handler → ℕ → Step) (rounds num : ℕ) where
  execute-int :
      (s t : Cpu)
      → s.debugger_attached ≡ false
      → call_interrupt handle num s ≡ ok tt t
      → execute handle (suc rounds) (int_instruction num) s ≡ ok true t
  unfolding execute repeat after_body switch execute_0xC
  execute-int s t alone e = simp (alone, ◌>>=◌, e)

  fetch-int :
      (s : Cpu)
      → Gives (fetch_at s.memory (s.core.sregs.cs * 0x10 + s.core.ip)) 0 (int_bytes num)
      → fetch_instruction s ≡ ok (int_instruction num) s
  unfolding fetch_instruction
  fetch-int s g =
      let again = (decode_lem _ (int_instruction num) (int_decodes num)).again in
      rw (again _ g) refl

  -- A running machine without a debugger, with `INT num` at CS:IP, and IP behind it when the
  -- interrupt is called: if that call ends, the main loop goes on from where it ended.
  pub run-int :
      (fuel : ℕ) (s t : Cpu)
      → s.running ≡ true
      → s.debugger_attached ≡ false
      → Gives (fetch_at s.memory (s.core.sregs.cs * 0x10 + s.core.ip)) 0 (int_bytes num)
      → call_interrupt handle num (set_ip (u16 (s.core.ip + 2)) s) ≡ ok tt t
      → run handle (suc rounds) (suc fuel) s ≡ run handle (suc rounds) fuel t
  unfolding run
  run-int fuel s t running alone g e =
      let round : Exec Bool = (do
        i ← fetch_instruction
        put_ip (λ ip. u16 (ip + i.len))
        execute handle (suc rounds) i
        run handle (suc rounds) fuel) in
      if-true s.running round (pure true) s running
      ∙ rw (◌>>=◌, fetch-int s g, execute-int (set_ip (u16 (s.core.ip + 2)) s) t alone e) refl

  pub run-stopped :
      (fuel : ℕ) (s : Cpu) → s.running ≡ false → run handle rounds (suc fuel) s ≡ ok true s
  unfolding run
  run-stopped fuel s stopped = rw (stopped, ◌>>=◌) refl
