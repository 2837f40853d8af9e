-- ===== src/Debugger/Gdb/Registers.antt =====
-- debugger/gdb_debugger.cpp: the answer to `g`.
use mathlib.Core.List.{append-nil}
use mathlib.Core.Option
use door86c.Common.{
  ℕ, ◌+◌, ◌*◌, ◌^◌, ◌<◌, ◌≡◌, refl, sym, ap, ◌∙◌, arith, true, some, List, [], ◌∷◌, ◌++◌,
}
use door86c.Machine.{Core}
use door86c.Machine.Fits.{CoreFits}
use door86c.Debugger.{DebugeeState}
use door86c.Debugger.Gdb.Library.{Library, IsDocumented, ok}
use door86c.Debugger.Gdb.Hex.{to_intel_format_hex16, to_intel_format_seg_off}
use door86c.Debugger.Gdb.Remote.{Arrival, arrived, frame}
use door86c.Debugger.Gdb.Client.{Gdb, registers_text, respond, handle_registers, handle_line}
use door86c.Debugger.Gdb.Packets.{connected}
use door86c.Debugger.Gdb.Replies.{respond-acked}
use door86c.Debugger.Gdb.Values.{read_bytes, read_words, read_words-hex16, read_words-seg_off}

-- The registers in GDB's order; each segment register as the address that it stands for.
abbrev pub registers_of : Core → List ℕ
registers_of c =
    c.regs.ax
    ∷ c.regs.cx
    ∷ c.regs.dx
    ∷ c.regs.bx
    ∷ c.regs.sp
    ∷ c.regs.bp
    ∷ c.regs.si
    ∷ c.regs.di
    ∷ (c.sregs.cs * 0x10 + c.ip)
    ∷ c.flags
    ∷ (c.sregs.cs * 0x10 + 0)
    ∷ (c.sregs.ss * 0x10 + 0)
    ∷ (c.sregs.ds * 0x10 + 0)
    ∷ (c.sregs.es * 0x10 + 0)
    ∷ (c.sregs.fs * 0x10 + 0)
    ∷ (c.sregs.gs * 0x10 + 0)
    ∷ []

module _ (l : Library) (doc : IsDocumented l) where
  word_first :
      (d : ℕ) (rest ws : List ℕ)
      → d < 2 ^ 16
      → read_words rest ≡ some ws
      → read_words (to_intel_format_hex16 l d ++ rest) ≡ some (d ∷ ws)
  word_first d rest ws h e =
      read_words-hex16 l doc d rest h ∙ ap (Option.map (λ (t : List ℕ). d ∷ t)) e

  address_first :
      (seg off : ℕ) (rest ws : List ℕ)
      → seg < 2 ^ 16
      → off < 2 ^ 16
      → read_words rest ≡ some ws
      → read_words (to_intel_format_seg_off l seg off ++ rest) ≡ some ((seg * 0x10 + off) ∷ ws)
  address_first seg off rest ws hs ho e =
      read_words-seg_off l doc seg off rest hs ho
      ∙ ap (Option.map (λ (t : List ℕ). (seg * 0x10 + off) ∷ t)) e

  nothing_left : read_words [] ≡ some []
  unfolding read_words read_bytes
  nothing_left = refl

  address_last :
      (seg : ℕ)
      → seg < 2 ^ 16
      → read_words (to_intel_format_seg_off l seg 0) ≡ some ((seg * 0x10 + 0) ∷ [])
  address_last seg h =
      ap read_words (sym (append-nil (to_intel_format_seg_off l seg 0)))
      ∙ address_first seg 0 [] [] h (omega arith) nothing_left

  read_words-registers_text :
      (c : Core) → CoreFits c → read_words (registers_text l c) ≡ some (registers_of c)
  unfolding registers_text
  read_words-registers_text c fit =
      let r = fit.regs_fit in
      let s = fit.sregs_fit in
      word_first _ _ _ r.ax_fits (
        word_first _ _ _ r.cx_fits (
          word_first _ _ _ r.dx_fits (
            word_first _ _ _ r.bx_fits (
              word_first _ _ _ r.sp_fits (
                word_first _ _ _ r.bp_fits (
                  word_first _ _ _ r.si_fits (
                    word_first _ _ _ r.di_fits (
                      address_first _ _ _ _ s.cs_fits fit.ip_fits (
                        word_first _ _ _ fit.flags_fit (
                          address_first _ _ _ _ s.cs_fits (omega arith) (
                            address_first _ _ _ _ s.ss_fits (omega arith) (
                              address_first _ _ _ _ s.ds_fits (omega arith) (
                                address_first _ _ _ _ s.es_fits (omega arith) (
                                  address_first _ _ _ _ s.fs_fits (omega arith)
                                    (address_last _ s.gs_fits)))))))))))))))

line_g :
    (l : Library) (seen : ℕ → DebugeeState) (more : List ℕ) (g : Gdb)
    → handle_line l seen (b'g' ∷ more) g ≡ respond l (registers_text l g.cpu.core) g
unfolding handle_line handle_registers
line_g l seen more g = refl

-- With registers that fit their types, on an open connection on which an acknowledgement comes next:
-- a line that begins with `g` is answered by one packet, whose text, read as 32-bit numbers with
-- the lowest byte first, is the list of the registers in GDB's order, IP and the segment registers
-- as addresses. Nothing else changes.
pub handle_line-registers :
    (l : Library) (seen : ℕ → DebugeeState) (more sent : List ℕ) (rest : List Arrival) (g : Gdb)
    → IsDocumented l
    → CoreFits g.cpu.core
    → (text : List ℕ) × (handle_line l seen
          (b'g' ∷ more)
          (record g { remote = connected (arrived b'+' ∷ rest) sent })
        ≡ ok (true, record g { remote = connected rest (sent ++ frame l text) }))
      × (read_words text ≡ some (registers_of g.cpu.core))
handle_line-registers l seen more sent rest g doc fit = (
  registers_text l g.cpu.core,
  line_g l seen more _ ∙ respond-acked l (registers_text l g.cpu.core) sent rest g,
  read_words-registers_text l doc g.cpu.core fit,
)
