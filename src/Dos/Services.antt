-- ===== src/Dos/Services.antt =====
-- dos/dos.cpp: the functions that DOS offers through the interrupts 0x20 and 0x21, and their
-- registration. Lines that only log are left out.
use door86c.Common.{
  ℕ, zero, suc, ◌+◌, ◌*◌, ◌^◌, Bool, true, false, not, ◌||◌, Option, none, some, List, [], ◌∷◌,
  ◌++◌, u16, leb, ◌==◌, if◌then◌else◌,
}
use door86c.Memory.{byte, word, abs8, set_abs8}
use door86c.Regs.{Regs, low, high, with_low}
use door86c.Flags.{carry, write}
use door86c.Dos.MemoryManager.{
  DosMemoryManager, FitStrategy, first, best, last, make_manager, free_block, set_strategy,
}
use door86c.Dos.MemoryManager
use door86c.Machine.{Handler, dos_int20, dos_int21, World}
use door86c.Machine.Exec.{
  Exec, Step, ok, out_of_bounds, out_of_fuel, pure, stop, ◌>>=◌, ◌>>◌, lift, reads, put_regs,
  put_flags, try_memory, memory_get, memory_set,
}
use door86c.Execute.Operands.{skip}
use door86c.Execute.Interrupt.{halt}

abbrev pub put_world : (World → World) → Step
put_world f s = ok tt (record s { world = f s.world })

-- `fputc(c, stdout)`
abbrev pub put_char : ℕ → Step
put_char c = put_world (λ w. record w { output = w.output ++ c ∷ [] })

-- `static_cast<uint8_t>(fgetc(stdin))`: EOF is -1.
abbrev pub take_char : List ℕ → ℕ × List ℕ
take_char [] = (0xff, [])
take_char (c ∷ cs) = (c, cs)

abbrev with_ax : ℕ → Regs → Regs
with_ax v r = record r { ax = v }

abbrev with_bx : ℕ → Regs → Regs
with_bx v r = record r { bx = v }

-- AX = 5, BX = 0, CX = 0.
unfoldable pub getversion : Step
getversion = put_regs (λ r. record r { ax = 0x0005; bx = 0x0000; cx = 0x0000 })

unfoldable pub get_interrupt_vector : Step
unfolding memory_get memory_set
get_interrupt_vector = do
  c ← reads (λ c. c)
  off ← memory_get word 0 (low c.regs.ax * 4)
  seg ← memory_get word 0 (low c.regs.ax * 4 + 2)
  memory_set word c.sregs.es c.regs.bx off
  memory_set word c.sregs.es (u16 (c.regs.bx + 2)) seg

unfoldable pub set_interrupt_vector : Step
unfolding memory_get memory_set
set_interrupt_vector = do
  c ← reads (λ c. c)
  off ← memory_get word c.sregs.ds c.regs.dx
  seg ← memory_get word c.sregs.ds (u16 (c.regs.dx + 2))
  memory_set word 0 (high c.regs.ax * 4) off
  memory_set word 0 (high c.regs.ax * 4 + 2) seg

unfoldable pub display_char : Step
display_char = do r ← reads (λ c. c.regs); put_char (low r.dx)

-- `m == '$' || m == '\0'`
abbrev pub ends_string : ℕ → Bool
ends_string m = m == 0x24 || m == 0x00

-- The loop of `display_string`; the offset is a `uint16_t`, so that it wraps.
unfoldable pub display_from : ℕ → ℕ → ℕ → Step
unfolding memory_get
display_from zero seg offset = stop out_of_fuel
display_from (suc fuel) seg offset =
    let again = display_from fuel seg (u16 (offset + 1)) in
    (do m ← memory_get byte seg offset; if ends_string m then skip else (do put_char m; again))

-- A string without an end in its segment is printed for ever: after 2^16 rounds the loop is back
-- where it began.
unfoldable pub display_string : Step
unfolding display_from
display_string = do c ← reads (λ c. c); display_from (2 ^ 16) c.sregs.ds c.regs.dx

unfoldable pub get_char : Step
get_char s =
    let (c, rest) = take_char s.world.input in
    (do
      put_world (λ w. record w { input = rest })
      put_regs (λ r. record r { ax = with_low r.ax c }))
      s

-- The `n` bytes from `loc` on.
unfoldable pub bytes_from : ℕ → ℕ → Exec (List ℕ)
unfolding abs8
bytes_from loc zero = pure []
bytes_from loc (suc n) = do
  b ← λ s. lift out_of_bounds (abs8 s.memory loc) s
  rest ← bytes_from (loc + 1) n
  pure (b ∷ rest)

-- The handles 0, 1, 3 and 4 are all stdout; 2 is stderr.
unfoldable pub dos_write : Step
unfolding bytes_from
dos_write = do
  c ← reads (λ c. c)
  if leb 5 c.regs.bx then skip else (do
    bytes ← bytes_from (c.sregs.ds * 0x10 + c.regs.dx) c.regs.cx
    if c.regs.bx == 2
        then put_world (λ w. record w { error_output = w.error_output ++ bytes })
        else put_world (λ w. record w { output = w.output ++ bytes }))

unfoldable pub realloc : Step
realloc = skip

-- One paragraph more, for the memory control block in front.
unfoldable pub allocate : Step
unfolding MemoryManager.allocate
allocate s =
    let (m, o) = MemoryManager.allocate s.world.mem_mgr (u16 (s.core.regs.bx + 1)) in
    (do
      put_world (λ w. record w { mem_mgr = m })
      elim o [
        | none ↦ put_flags (write carry true)
        | some start ↦ (do put_regs (with_ax (u16 (start + 1))); put_flags (write carry false))
      ])
      s

unfoldable pub free : Step
unfolding free_block
free s =
    let (m, success) = free_block s.world.mem_mgr (u16 (s.core.regs.bx + 0xffff)) in
    (do put_world (λ w. record w { mem_mgr = m }); put_flags (write carry (not success))) s

abbrev pub is_last : FitStrategy → Bool
is_last first = false
is_last best = false
is_last last = true

unfoldable pub memory_strategy : Step
unfolding set_strategy
memory_strategy s =
    let al = low s.core.regs.ax in
    (if al == 0
        then put_regs (with_bx (if is_last s.world.mem_mgr.fit then 2 else 0))
        else if al == 1
        then put_world (λ w. record w {
          mem_mgr = set_strategy w.mem_mgr (if s.core.regs.bx == 2 then last else first);
        })
        else skip)
      s

unfoldable pub set_handle_count : Step
set_handle_count = put_flags (write carry false)

unfoldable pub int20 : Step
unfolding halt
int20 = halt

-- `switch (ah)`
unfoldable pub int21 : Step
unfolding getversion get_interrupt_vector set_interrupt_vector display_char display_string get_char
    dos_write realloc allocate free memory_strategy set_handle_count halt
int21 = do
  r ← reads (λ c. c.regs)
  let ah = high r.ax
  if ah == 0x00
      then halt
      else if ah == 0x01
      then get_char
      else if ah == 0x02
      then display_char
      else if ah == 0x09
      then display_string
      else if ah == 0x25
      then set_interrupt_vector
      else if ah == 0x30
      then getversion
      else if ah == 0x35
      then get_interrupt_vector
      else if ah == 0x40
      then dos_write
      else if ah == 0x48
      then allocate
      else if ah == 0x49
      then free
      else if ah == 0x4a
      then realloc
      else if ah == 0x4c
      then halt
      else if ah == 0x58
      then memory_strategy
      else if ah == 0x67
      then set_handle_count
      else skip

-- `int_handlers().try_emplace(num, …)`: a handler that is there already stays.
abbrev pub emplaced : Handler → Option Handler → Option Handler
emplaced h none = some h
emplaced h (some old) = some old

abbrev pub try_emplace : ℕ → Handler → Step
try_emplace num h s = ok tt (record s {
  int_handlers = λ n. if n == num then emplaced h (s.int_handlers num) else s.int_handlers n;
})

-- `for (; i < 0xff; i++) memory[i * 4] = i`, with `n` rounds to go.
unfoldable pub set_vectors : ℕ → ℕ → Step
unfolding set_abs8
set_vectors i zero = skip
set_vectors i (suc n) = do (λ s. try_memory (set_abs8 s.memory (i * 4) i) s); set_vectors (i + 1) n

-- The constructor.
unfoldable pub make_dos : Step
unfolding set_vectors make_manager
make_dos = do
  put_world (λ w. record w { mem_mgr = make_manager 0x0800 0x9fc0 })
  try_emplace 0x20 dos_int20
  try_emplace 0x21 dos_int21
  set_vectors 0 0xff
