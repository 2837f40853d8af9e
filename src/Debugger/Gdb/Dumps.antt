-- ===== src/Debugger/Gdb/Dumps.antt =====
-- debugger/gdb_debugger.cpp: the answer to `m`.
use mathlib.Core.List.{append_assoc, append-nil}
use mathlib.Core.Option
use door86c.Common.{
  ℕ, zero, suc, ◌⊎◌, inl, inr, Bool, ◌+◌, ◌^◌, ◌<◌, ◌≤◌, ◌≡◌, refl, sym, ap, ◌∙◌, arith, true, none,
  some, List, [], ◌∷◌, ◌++◌, u32, codes,
}
use door86c.Memory.{Memory, abs8}
use door86c.Debugger.{DebugeeState}
use door86c.Debugger.Gdb.Library.{Library, IsDocumented, Result, ok, thrown, undefined, ◌>>=◌}
use door86c.Debugger.Gdb.Remote.{Arrival, arrived, frame}
use door86c.Debugger.Gdb.Client.{
  Gdb, respond, reserve_fits, dump_memory, handle_mem_parts, handle_mem, handle_line,
}
use door86c.Debugger.Gdb.Packets.{connected}
use door86c.Debugger.Gdb.Replies.{respond-acked}
use door86c.Debugger.Gdb.Values.{read_bytes, read_bytes-hex02}

-- So many cells from an address on.
abbrev pub cells_at : (ℕ → ℕ) → ℕ → ℕ → List ℕ
cells_at cells a zero = []
cells_at cells a (suc n) = cells a ∷ cells_at cells (a + 1) n

abbrev cells_text : Library → (ℕ → ℕ) → ℕ → ℕ → List ℕ
cells_text l cells a zero = []
cells_text l cells a (suc n) = l.hex02 (cells a) ++ cells_text l cells (a + 1) n

read_bytes-cells_text :
    (l : Library) (cells : ℕ → ℕ) (a n : ℕ)
    → IsDocumented l
    → ((i : ℕ) → cells i < 256)
    → read_bytes (cells_text l cells a n) ≡ some (cells_at cells a n)
unfolding read_bytes
read_bytes-cells_text l cells a zero doc fit = refl
read_bytes-cells_text l cells a (suc n) doc fit =
    read_bytes-hex02 l doc (cells a) (cells_text l cells (a + 1) n) (fit a)
    ∙ ap (Option.map (λ (t : List ℕ). cells a ∷ t))
        (read_bytes-cells_text l cells (a + 1) n doc fit)

abs8-cell : (m : Memory) (loc : ℕ) → loc < m.size → abs8 m loc ≡ some (m.cells loc)
unfolding abs8
abs8-cell m loc h = ground arith

abs8-none : (m : Memory) (loc : ℕ) → m.size ≤ loc → abs8 m loc ≡ none
unfolding abs8
abs8-none m loc h = ground arith

dump_memory_step :
    (l : Library) (m : Memory) (addr i left : ℕ) (resp : List ℕ)
    → addr + i < m.size
    → m.size ≤ 2 ^ 32
    → dump_memory l m addr i (suc left) resp
      ≡ dump_memory l m addr (i + 1) left (resp ++ l.hex02 (m.cells (addr + i)))
unfolding dump_memory
dump_memory_step l m addr i left resp h fits =
    let here : u32 (addr + i) ≡ addr + i = omega arith in rw (here, abs8-cell m (addr + i) h) refl

dump_memory-text :
    (l : Library) (m : Memory) (addr i left : ℕ) (resp : List ℕ)
    → addr + i + left ≤ m.size
    → m.size ≤ 2 ^ 32
    → dump_memory l m addr i left resp ≡ ok (resp ++ cells_text l m.cells (addr + i) left)
unfolding dump_memory
dump_memory-text l m addr i zero resp h fits = ap ok (sym (append-nil resp))
dump_memory-text l m addr i (suc left) resp h fits =
    let next : addr + (i + 1) ≡ addr + i + 1 = omega arith in
    dump_memory_step l m addr i left resp (omega arith) fits
    ∙ dump_memory-text l m addr (i + 1) left (resp ++ l.hex02 (m.cells (addr + i))) (omega arith)
        fits
    ∙ ap ok (
        append_assoc resp (l.hex02 (m.cells (addr + i)))
          (cells_text l m.cells (addr + (i + 1)) left)
        ∙ ap (λ (t : ℕ). resp ++ (l.hex02 (m.cells (addr + i)) ++ cells_text l m.cells t left))
            next)

dump_memory_end :
    (l : Library) (m : Memory) (addr i left : ℕ) (resp : List ℕ)
    → m.size ≤ addr + i
    → addr + i < 2 ^ 32
    → dump_memory l m addr i (suc left) resp ≡ thrown undefined
unfolding dump_memory
dump_memory_end l m addr i left resp h fits =
    let here : u32 (addr + i) ≡ addr + i = omega arith in rw (here, abs8-none m (addr + i) h) refl

inside_or_end : (a size : ℕ) → a ≤ size → (a < size) ⊎ (size ≤ a)
inside_or_end a size h = ground arith

dump_memory-outside :
    (l : Library) (m : Memory) (addr i left : ℕ) (resp : List ℕ)
    → addr + i ≤ m.size
    → m.size < addr + i + left
    → m.size < 2 ^ 32
    → dump_memory l m addr i left resp ≡ thrown undefined
dump_memory-outside l m addr i zero resp start over fits = absurd (omega arith)
dump_memory-outside l m addr i (suc left) resp start over fits =
    elim (inside_or_end (addr + i) m.size start) [
      | inl inside ↦
          dump_memory_step l m addr i left resp inside (omega arith)
          ∙ dump_memory-outside l m addr (i + 1) left (resp ++ l.hex02 (m.cells (addr + i)))
              (omega arith) (omega arith) fits
      | inr at_end ↦ dump_memory_end l m addr i left resp at_end (omega arith)
    ]

reserve_fits_lem : (n : ℕ) → n < 2 ^ 29 → reserve_fits n ≡ ok tt
unfolding reserve_fits
reserve_fits_lem n h = ground arith

-- The handler behind its own parsing, for the number of bytes that it reads.
dumped : Library → ℕ → List ℕ → Gdb → Result (Bool × Gdb)
dumped l n a g = dump_memory l g.cpu.memory (l.to_u32 a) 0 n [] >>= λ resp. respond l resp g

line_parts :
    (l : Library) (seen : ℕ → DebugeeState) (line : List ℕ) (g : Gdb)
    → handle_line l seen (b'm' ∷ line) g ≡ handle_mem_parts l (l.split_string line (codes ",")) g
unfolding handle_line handle_mem handle_mem_parts
line_parts l seen line g = refl

parts-dumped :
    (l : Library) (a b : List ℕ) (more : List (List ℕ)) (g : Gdb)
    → reserve_fits (l.to_int b) ≡ ok tt
    → handle_mem_parts l (a ∷ b ∷ more) g ≡ dumped l (l.to_int b) a g
unfolding handle_mem_parts dumped
parts-dumped l a b more g e = ap (λ (o : Result (Unit {0})). o >>= λ u. dumped l (l.to_int b) a g) e

line_m :
    (l : Library) (seen : ℕ → DebugeeState) (line a b : List ℕ) (more : List (List ℕ)) (g : Gdb)
    → l.split_string line (codes ",") ≡ a ∷ b ∷ more
    → l.to_int b < 2 ^ 29
    → handle_line l seen (b'm' ∷ line) g ≡ dumped l (l.to_int b) a g
line_m l seen line a b more g parts small =
    line_parts l seen line g
    ∙ ap (λ t. handle_mem_parts l t g) parts
    ∙ parts-dumped l a b more g (reserve_fits_lem (l.to_int b) small)

dumped-ok :
    (l : Library) (n : ℕ) (a text : List ℕ) (g : Gdb)
    → dump_memory l g.cpu.memory (l.to_u32 a) 0 n [] ≡ ok text
    → dumped l n a g ≡ respond l text g
unfolding dumped
dumped-ok l n a text g e = ap (λ (o : Result (List ℕ)). o >>= λ resp. respond l resp g) e

dumped-thrown :
    (l : Library) (n : ℕ) (a : List ℕ) (g : Gdb)
    → dump_memory l g.cpu.memory (l.to_u32 a) 0 n [] ≡ thrown undefined
    → dumped l n a g ≡ thrown undefined
unfolding dumped
dumped-thrown l n a g e = ap (λ (o : Result (List ℕ)). o >>= λ resp. respond l resp g) e

-- On an open connection on which an acknowledgement comes next, for a line that begins with `m` and
-- splits at commas into two numbers or more, an address and a number of bytes below 2^29, all of
-- them inside of a memory of at most 2^32 bytes: the line is answered by one packet, whose text,
-- read as hexadecimal bytes, is the content of the memory there. Nothing else changes.
pub handle_line-memory :
    (l : Library) (seen : ℕ → DebugeeState) (line a b sent : List ℕ) (more : List (List ℕ))
    (rest : List Arrival) (g : Gdb)
    → IsDocumented l
    → ((i : ℕ) → g.cpu.memory.cells i < 256)
    → l.split_string line (codes ",") ≡ a ∷ b ∷ more
    → l.to_int b < 2 ^ 29
    → l.to_u32 a + l.to_int b ≤ g.cpu.memory.size
    → g.cpu.memory.size ≤ 2 ^ 32
    → (text : List ℕ) × (handle_line l seen
          (b'm' ∷ line)
          (record g { remote = connected (arrived b'+' ∷ rest) sent })
        ≡ ok (true, record g { remote = connected rest (sent ++ frame l text) }))
      × (read_bytes text ≡ some (cells_at g.cpu.memory.cells (l.to_u32 a) (l.to_int b)))
handle_line-memory l seen line a b sent more rest g doc fit parts small inside fits =
    let text = cells_text l g.cpu.memory.cells (l.to_u32 a) (l.to_int b) in
    let begin : l.to_u32 a + 0 ≡ l.to_u32 a = omega arith in
    let waiting = record g { remote = connected (arrived b'+' ∷ rest) sent } in
    (
      text,
      line_m l seen line a b more waiting parts small
          ∙ dumped-ok l (l.to_int b) a text waiting (
              dump_memory-text l g.cpu.memory (l.to_u32 a) 0 (l.to_int b) [] (omega arith) fits
              ∙ ap (λ (t : ℕ). ok (cells_text l g.cpu.memory.cells t (l.to_int b))) begin)
          ∙ respond-acked l text sent rest g,
      read_bytes-cells_text l g.cpu.memory.cells (l.to_u32 a) (l.to_int b) doc fit,
    )

-- For such a line with an address inside of the memory or at its end, and a number of bytes below
-- 2^29 that reaches beyond the end: the code reads outside of the array, whatever the connection.
pub handle_line-memory_outside :
    (l : Library) (seen : ℕ → DebugeeState) (line a b : List ℕ) (more : List (List ℕ)) (g : Gdb)
    → l.split_string line (codes ",") ≡ a ∷ b ∷ more
    → l.to_int b < 2 ^ 29
    → l.to_u32 a ≤ g.cpu.memory.size
    → g.cpu.memory.size < l.to_u32 a + l.to_int b
    → g.cpu.memory.size < 2 ^ 32
    → handle_line l seen (b'm' ∷ line) g ≡ thrown undefined
handle_line-memory_outside l seen line a b more g parts small start over fits =
    line_m l seen line a b more g parts small
    ∙ dumped-thrown l (l.to_int b) a g (
        dump_memory-outside l g.cpu.memory (l.to_u32 a) 0 (l.to_int b) [] (omega arith)
          (omega arith) fits)
