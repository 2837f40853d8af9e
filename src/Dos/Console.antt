-- ===== src/Dos/Console.antt =====
-- dos/dos.cpp and bios/bios.cpp: what the functions that print write to stdout and stderr.
use door86c.Common.{
  ℕ, zero, suc, ◌+◌, ◌*◌, ◌^◌, ◌<◌, ◌≡◌, refl, arith, true, false, some, List, [], ◌∷◌, ◌++◌, ◌==◌,
  leb, u16, length, if◌then◌else◌, sym, subst, Bool-cases, inl, inr,
}
use mathlib.Core.List.{append-nil, append_assoc}
use door86c.Memory.{Memory, byte, abs8}
use door86c.Memory
use door86c.Regs.{low, high}
use door86c.Bios.{write_string, int10}
use door86c.Machine.{Cpu}
use door86c.Machine.Exec.{ok, fault, out_of_fuel, ◌>>=◌}
use door86c.Machine.Exec.Laws.{memory_get_lem}
use door86c.Decoder.Stages.{Gives}
use door86c.Dos.Services.{ends_string, display_from, display_string, bytes_from, dos_write}

abbrev pub printed : Cpu → List ℕ → Cpu
printed s bs = record s { world = record s.world { output = s.world.output ++ bs } }

abbrev pub reported : Cpu → List ℕ → Cpu
reported s bs = record s { world = record s.world { error_output = s.world.error_output ++ bs } }

-- The bytes `bs` stand at the address, and behind them one that ends a string.
abbrev pub Terminated : Memory → ℕ → ℕ → List ℕ → Type 0
Terminated m seg off [] = (t : ℕ) × (Memory.get byte m seg off ≡ some t) × (ends_string t ≡ true)
Terminated m seg off (b ∷ bs) =
    (Memory.get byte m seg off ≡ some b)
    × (ends_string b ≡ false)
    × Terminated m seg (u16 (off + 1)) bs

display_from_lem :
    (fuel : ℕ) (s : Cpu) (seg off : ℕ) (bs : List ℕ)
    → length bs < fuel
    → Terminated s.memory seg off bs
    → display_from fuel seg off s ≡ ok tt (printed s bs)
unfolding display_from
display_from_lem zero s seg off bs h g = absurd (omega arith)
display_from_lem (suc fuel) s seg off [] h (t, e, ends) =
    rw (memory_get_lem byte s seg off t e, ◌>>=◌, ends, append-nil s.world.output) refl
display_from_lem (suc fuel) s seg off (b ∷ bs) h (e, goes_on, g) =
    rw
      (
        memory_get_lem byte s seg off b e,
        ◌>>=◌,
        goes_on,
        sym (append_assoc s.world.output (b ∷ []) bs),
      )
      (display_from_lem fuel (printed s (b ∷ [])) seg (u16 (off + 1)) bs (omega arith) g)

-- A string of fewer than 2^16 bytes at DS:DX, closed by `$` or 0: `display_string` writes exactly
-- its bytes to stdout and changes nothing else.
pub display_string_lem :
    (s : Cpu) (bs : List ℕ)
    → length bs < 2 ^ 16
    → Terminated s.memory s.core.sregs.ds s.core.regs.dx bs
    → display_string s ≡ ok tt (printed s bs)
unfolding display_string
display_string_lem s bs h g = display_from_lem (2 ^ 16) s _ _ bs h g

display_from-endless :
    (rounds : ℕ) (s : Cpu) (seg off : ℕ)
    → off < 2 ^ 16
    → ((o : ℕ)
        → o < 2 ^ 16
        → (b : ℕ) × (Memory.get byte s.memory seg o ≡ some b) × (ends_string b ≡ false))
    → display_from rounds seg off s ≡ fault out_of_fuel
unfolding display_from
display_from-endless zero s seg off h g = refl
display_from-endless (suc rounds) s seg off h g =
    let (b, e, goes_on) = g off h in
    rw (memory_get_lem byte s seg off b e, ◌>>=◌, goes_on)
      (display_from-endless rounds (printed s (b ∷ [])) seg (u16 (off + 1)) (omega arith) g)

bytes_from_lem :
    (loc : ℕ) (bs : List ℕ) (s : Cpu)
    → Gives (abs8 s.memory) loc bs
    → bytes_from loc (length bs) s ≡ ok bs s
unfolding bytes_from
bytes_from_lem loc [] s g = refl
bytes_from_lem loc (b ∷ bs) s (e, g) = rw (e, ◌>>=◌, bytes_from_lem (loc + 1) bs s g) refl

-- With CX bytes at DS:DX: `dos_write` writes them to stdout for the handles 0, 1, 3 and 4, to
-- stderr for 2, and does nothing for a handle from 5 on.
pub dos_write_lem :
    (s : Cpu) (bs : List ℕ)
    → s.core.regs.cx ≡ length bs
    → Gives (abs8 s.memory) (s.core.sregs.ds * 0x10 + s.core.regs.dx) bs
    → dos_write s
      ≡ ok tt (
          if leb 5 s.core.regs.bx
          then s
          else if s.core.regs.bx == 2
          then reported s bs
          else printed s bs)
unfolding dos_write
dos_write_lem s bs n g =
    let loc = s.core.sregs.ds * 0x10 + s.core.regs.dx in
    let all_read = subst (λ t. bytes_from loc t s ≡ ok bs s) (sym n) (bytes_from_lem loc bs s g) in
    elim (Bool-cases (leb 5 s.core.regs.bx)) [
      | inl file ↦ rw (◌>>=◌, file) refl
      | inr stream ↦ elim (Bool-cases (s.core.regs.bx == 2)) [
        | inl err ↦ rw (◌>>=◌, stream, all_read, err) refl
        | inr out ↦ rw (◌>>=◌, stream, all_read, out) refl
      ]
    ]

-- The bytes `bs` stand from the offset on, which is cut to 16 bits at each of them.
abbrev pub Spread : Memory → ℕ → ℕ → List ℕ → Type 0
Spread m seg off [] = Unit {0}
Spread m seg off (b ∷ bs) = (Memory.get byte m seg (u16 off) ≡ some b) × Spread m seg (off + 1) bs

write_string_lem :
    (s : Cpu) (seg off : ℕ) (bs : List ℕ)
    → Spread s.memory seg off bs
    → write_string seg off (length bs) s ≡ ok tt (printed s bs)
unfolding write_string
write_string_lem s seg off [] g = rw (append-nil s.world.output) refl
write_string_lem s seg off (b ∷ bs) (e, g) =
    rw
      (
        memory_get_lem byte s seg (u16 off) b e,
        ◌>>=◌,
        sym (append_assoc s.world.output (b ∷ []) bs),
      )
      (write_string_lem (printed s (b ∷ [])) seg (off + 1) bs g)

-- `int10`: AH = 13h writes the CX bytes at ES:BP, AH = 0Eh the character in AL, and every other
-- function does nothing.
pub int10_lem :
    (s : Cpu) (bs : List ℕ)
    → s.core.regs.cx ≡ length bs
    → Spread s.memory s.core.sregs.es s.core.regs.bp bs
    → int10 s
      ≡ ok tt (
          if high s.core.regs.ax == 0x13
          then printed s bs
          else if high s.core.regs.ax == 0x0e
          then printed s (low s.core.regs.ax ∷ [])
          else s)
unfolding int10
int10_lem s bs n g =
    let c = s.core in
    let all_written =
      subst (λ t. write_string c.sregs.es c.regs.bp t s ≡ ok tt (printed s bs)) (sym n)
        (write_string_lem s c.sregs.es c.regs.bp bs g) in
    elim (Bool-cases (high s.core.regs.ax == 0x13)) [
      | inl text ↦ rw (◌>>=◌, text, all_written) refl
      | inr other ↦ elim (Bool-cases (high s.core.regs.ax == 0x0e)) [
        | inl char ↦ rw (◌>>=◌, other, char) refl
        | inr unknown ↦ rw (◌>>=◌, other, unknown) refl
      ]
    ]
