-- ===== src/Debugger/Gdb/Client.antt =====
-- debugger/gdb_debugger.h and debugger/gdb_debugger.cpp, `GdbDebugger`: the commands of the protocol.
use door86c.Common.{
  ℕ, zero, suc, ◌+◌, ◌*◌, ◌^◌, Bool, true, false, ◌||◌, Option, none, some, List, [], ◌∷◌, ◌++◌,
  ltb, leb, ◌==◌, if◌then◌else◌, u32, codes, equal, drop,
}
use door86c.Memory.{Memory, abs8}
use door86c.Machine.{Core, Cpu}
use door86c.Debugger.{
  DebuggerBackend, DebugResponse, DebugResponseId, start, stop, terminate, DebugeeState, running,
  stepping, stopped, step, cont, add_command,
}
use door86c.Debugger.Gdb.Library.{
  Library, Result, ok, thrown, out_of_range, length_error, undefined, ◌>>=◌,
}
use door86c.Debugger.Gdb.Hex.{to_intel_format_hex16, to_intel_format_seg_off}
use door86c.Debugger.Gdb.Remote.{Remote, response}

-- The client, with the back end and the CPU that it reaches through pointers.
pub record Gdb : Type 0 where
  pub backend : DebuggerBackend
  pub cpu : Cpu
  pub remote : Remote
  pub default_thread_id : ℕ

abbrev pub answered : Gdb → Bool × Remote → Result (Bool × Gdb)
answered g (acked, r) = ok (acked, record g { remote = r })

abbrev pub is_stopped : DebugeeState → Bool
is_stopped running = false
is_stopped stepping = false
is_stopped stopped = true

-- The loop of `handle_v_line`, whose calls of `state()` give `seen i`, `seen (i + 1)`, ...; which of
-- these the next call gives.
unfoldable pub wait_for_stop : (ℕ → DebugeeState) → ℕ → ℕ → ℕ
wait_for_stop seen zero i = i
wait_for_stop seen (suc rounds) i =
    let rest = wait_for_stop seen rounds (i + 1) in if is_stopped (seen i) then i + 1 else rest

-- The text of each register, in GDB's order, for a CPU's registers.
unfoldable pub registers_text : Library → Core → List ℕ
registers_text l core =
    let word = to_intel_format_hex16 l in
    let at = to_intel_format_seg_off l in
    word core.regs.ax
    ++ (word core.regs.cx
        ++ (word core.regs.dx
            ++ (word core.regs.bx
                ++ (word core.regs.sp
                    ++ (word core.regs.bp
                        ++ (word core.regs.si
                            ++ (word core.regs.di
                                ++ (at core.sregs.cs core.ip
                                    ++ (word core.flags
                                        ++ (at core.sregs.cs 0
                                            ++ (at core.sregs.ss 0
                                                ++ (at core.sregs.ds 0
                                                    ++ (at core.sregs.es 0
                                                        ++ (at core.sregs.fs 0
                                                            ++ at core.sregs.gs 0))))))))))))))

-- `reserve(len * 4)` for an `int` given by its 32 bits: a negative number of characters is too long.
unfoldable pub reserve_fits : ℕ → Result (Unit {0})
reserve_fits len =
    if ltb len (2 ^ 29)
    then ok tt
    else if leb (7 * 2 ^ 29) len
    then thrown length_error
    else thrown undefined

-- The command for the back end, from what stands behind `vCont;`.
unfoldable pub command_backend : List ℕ → DebuggerBackend → DebuggerBackend
unfolding add_command
command_backend [] b = b
command_backend (cmd ∷ rest) b =
    if cmd == b'S' || cmd == b's'
    then add_command step b
    else if cmd == b'C' || cmd == b'c'
    then add_command cont b
    else b

abbrev pub ignore_result : Result (Bool × Gdb) → Result (Bool × Gdb)
ignore_result (ok (acked, g)) = ok (true, g)
ignore_result (thrown e) = thrown e

module _ (l : Library) where
  abbrev pub respond : List ℕ → Gdb → Result (Bool × Gdb)
  respond text g = answered g (response l text g.remote)

  unfoldable pub handle_response : DebugResponseId → DebugResponse → Gdb → Result (Bool × Gdb)
  handle_response stop r g = respond (b'S' ∷ l.hex02 r.thread_id) g
  handle_response terminate r g = respond (b'W' ∷ l.hex02 r.exit_code) g
  handle_response start r g = ok (false, g)

  -- The options that `qSupported` brings are only logged, and are left out.
  unfoldable pub handle_query_line : List ℕ → Gdb → Result (Bool × Gdb)
  handle_query_line line g =
      if l.starts_with line (codes "qSupported:")
      then respond (codes "PacketSize=47ff;swbreak+;hwbreak;xmlRegisters=i8086") g
      else if l.starts_with line (codes "qTStatus")
      then respond [] g
      else if l.starts_with line (codes "qAttached")
      then respond (codes "1") g
      else if l.starts_with line (codes "qfThreadInfo")
      then respond (codes "m1") g
      else if l.starts_with line (codes "qsThreadInfo")
      then respond (codes "l") g
      else if l.starts_with line (codes "qC")
      then respond (codes "QC1") g
      else respond [] g

  unfoldable pub report_stop : (ℕ → DebugeeState) → Gdb → Result (Bool × Gdb)
  unfolding wait_for_stop
  report_stop seen g =
      if is_stopped (seen (wait_for_stop seen 10 0))
      then ignore_result (respond (codes "S05") g)
      else ok (true, g)

  unfoldable pub handle_v_line : (ℕ → DebugeeState) → List ℕ → Gdb → Result (Bool × Gdb)
  unfolding equal command_backend
  handle_v_line seen line g =
      if equal line (codes "vMustReplyEmpty")
      then respond [] g
      else if equal line (codes "vCont?")
      then respond (codes "vCont;c;C;r;s;S;t") g
      else if l.starts_with line (codes "vCont;")
      then report_stop seen (record g { backend = command_backend (drop 6 line) g.backend })
      else report_stop seen g

  unfoldable pub handle_multithread : List ℕ → Gdb → Result (Bool × Gdb)
  handle_multithread [] g = ok (false, g)
  handle_multithread (h ∷ []) g = ok (false, g)
  handle_multithread (h ∷ op ∷ []) g = ok (false, g)
  handle_multithread (h ∷ op ∷ d ∷ ds) g =
      if op == b'c' || op == b'g'
      then respond [] (record g { default_thread_id = l.to_int (d ∷ ds) })
      else ok (false, g)

  unfoldable pub handle_registers : List ℕ → Gdb → Result (Bool × Gdb)
  unfolding registers_text
  handle_registers [] g = thrown undefined
  handle_registers (op ∷ rest) g =
      if op == b'g'
      then respond (registers_text l g.cpu.core) g
      else if op == b'p'
      then respond (codes "00000000") g
      else respond [] g

  unfoldable pub handle_stop : List ℕ → Gdb → Result (Bool × Gdb)
  handle_stop line g = respond (codes "S05") g

  abbrev next_byte : (List ℕ → Result (List ℕ)) → List ℕ → Option ℕ → Result (List ℕ)
  next_byte go_on resp none = thrown undefined
  next_byte go_on resp (some b) = go_on (resp ++ l.hex02 b)

  -- The loop of `handle_mem`: so many bytes from `addr + i` on. An access outside of the memory is
  -- undefined.
  unfoldable pub dump_memory : Memory → ℕ → ℕ → ℕ → List ℕ → Result (List ℕ)
  unfolding abs8
  dump_memory m addr i zero resp = ok resp
  dump_memory m addr i (suc left) resp =
      next_byte (dump_memory m addr (i + 1) left) resp (abs8 m (u32 (addr + i)))

  unfoldable pub handle_mem_parts : List (List ℕ) → Gdb → Result (Bool × Gdb)
  unfolding reserve_fits dump_memory
  handle_mem_parts [] g = respond [] g
  handle_mem_parts (a ∷ []) g = respond [] g
  handle_mem_parts (a ∷ b ∷ more) g = reserve_fits (l.to_int b) >>= λ u.
      (dump_memory g.cpu.memory (l.to_u32 a) 0 (l.to_int b) [] >>= λ resp. respond resp g)

  unfoldable pub handle_mem : List ℕ → Gdb → Result (Bool × Gdb)
  unfolding handle_mem_parts
  handle_mem [] g = thrown out_of_range
  handle_mem (m ∷ line) g = handle_mem_parts (l.split_string line (codes ",")) g

  unfoldable pub handle_line : (ℕ → DebugeeState) → List ℕ → Gdb → Result (Bool × Gdb)
  unfolding handle_query_line handle_v_line handle_multithread handle_registers handle_stop
      handle_mem
  handle_line seen [] g = thrown undefined
  handle_line seen (c ∷ cs) g =
      if c == b'q'
      then handle_query_line (c ∷ cs) g
      else if c == b'v'
      then handle_v_line seen (c ∷ cs) g
      else if c == b'H'
      then handle_multithread (c ∷ cs) g
      else if c == b'g'
      then handle_registers (c ∷ cs) g
      else if c == b'p'
      then handle_registers (c ∷ cs) g
      else if c == b'?'
      then handle_stop (c ∷ cs) g
      else if c == b'm'
      then handle_mem (c ∷ cs) g
      else respond [] g >>= λ o. ok (false, o.1)
