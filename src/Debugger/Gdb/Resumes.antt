-- ===== src/Debugger/Gdb/Resumes.antt =====
-- debugger/gdb_debugger.cpp, `vCont;`, with the back end's `int1` of debugger/debugger.cpp.
use door86c.Common.{
  ℕ, suc, ◌≡◌, refl, ap, ◌∙◌, true, some, List, [], ◌∷◌, ◌++◌, length, Bool-cases, inl, inr, codes,
  equal,
}
use door86c.Debugger.{
  DebugCommandId, cont, step, DebugeeState, running, stepping, DebuggerBackend, resumed, push,
  add_command, int1,
}
use door86c.Debugger.Rounds.{AllIgnored, int1-returns}
use door86c.Debugger.Gdb.Library.{Library, IsDocumented, ok}
use door86c.Debugger.Gdb.Remote.{Remote, response}
use door86c.Debugger.Gdb.Client.{
  Gdb, is_stopped, wait_for_stop, command_backend, report_stop, handle_v_line, handle_line,
}

-- The character behind `vCont;`, the command that it stands for, and the state that this sets.
pub data Asks : ℕ → DebugCommandId → DebugeeState → Type 0 where
  small_s : {c : ℕ} → c ≡ b's' → Asks c step stepping
  capital_s : {c : ℕ} → c ≡ b'S' → Asks c step stepping
  small_c : {c : ℕ} → c ≡ b'c' → Asks c cont running
  capital_c : {c : ℕ} → c ≡ b'C' → Asks c cont running

command_backend-Asks :
    {c : ℕ} {command : DebugCommandId} {next : DebugeeState} (rest : List ℕ) (b : DebuggerBackend)
    → Asks c command next
    → command_backend (c ∷ rest) b ≡ add_command command b
unfolding command_backend
command_backend-Asks rest b (small_s e) = rw e refl
command_backend-Asks rest b (capital_s e) = rw e refl
command_backend-Asks rest b (small_c e) = rw e refl
command_backend-Asks rest b (capital_c e) = rw e refl

Asks-resumed :
    {c : ℕ} {command : DebugCommandId} {next : DebugeeState}
    → Asks c command next
    → resumed command ≡ some next
unfolding resumed
Asks-resumed (small_s e) = refl
Asks-resumed (capital_s e) = refl
Asks-resumed (small_c e) = refl
Asks-resumed (capital_c e) = refl

abbrev v_cont : List ℕ → List ℕ
v_cont actions = codes "vCont;" ++ actions

line_v :
    (l : Library) (seen : ℕ → DebugeeState) (c : ℕ) (rest : List ℕ) (g : Gdb)
    → IsDocumented l
    → handle_line l seen (v_cont (c ∷ rest)) g
      ≡ report_stop l seen (record g { backend = command_backend (c ∷ rest) g.backend })
unfolding handle_line handle_v_line equal
line_v l seen c rest g doc =
    rw ((doc.starts_with_iff (v_cont (c ∷ rest)) (codes "vCont;")).1 (c ∷ rest, refl)) refl

report_stop-backend :
    (l : Library) (seen : ℕ → DebugeeState) (g : Gdb)
    → (r : Remote) × (report_stop l seen g ≡ ok (true, record g { remote = r }))
unfolding report_stop
report_stop-backend l seen g = elim (Bool-cases (is_stopped (seen (wait_for_stop seen 10 0)))) [
  | inl yes_stopped ↦ ((response l (codes "S05") g.remote).1, rw yes_stopped refl)
  | inr goes_on ↦ (g.remote, rw goes_on refl)
]

int1-added :
    {c : ℕ} (command : DebugCommandId) (next : DebugeeState) (b : DebuggerBackend)
    → Asks c command next
    → b.attached ≡ true
    → AllIgnored b.cmds
    → int1 (suc (length b.cmds)) (add_command command b)
      ≡ some (record b { cmds = []; state = next })
unfolding add_command push
int1-added command next b asks attached ignored =
    int1-returns (add_command command b) b.cmds [] command next attached refl ignored
      (Asks-resumed asks)

-- For `vCont;` followed by `s`, `S`, `c` or `C` and anything else, with a debugger attached and no
-- command in the queue that lets the program go on: `handle_line` returns true, whatever states it sees
-- meanwhile and whatever the connection does. It has put the command into the back end's
-- queue and changed nothing else but the connection; and `int1`, when it comes to the queue, lets
-- the program go on, stepping after `s` and running after `c`, and leaves the queue empty.
pub handle_line-Asks :
    (l : Library) (seen : ℕ → DebugeeState) (c : ℕ) (rest : List ℕ) (command : DebugCommandId)
    (next : DebugeeState) (g : Gdb)
    → IsDocumented l
    → Asks c command next
    → g.backend.attached ≡ true
    → AllIgnored g.backend.cmds
    → (g' : Gdb) × (handle_line l seen (codes "vCont;" ++ c ∷ rest) g ≡ ok (true, g'))
      × (g' ≡ record g { backend = add_command command g.backend; remote = g'.remote })
      × (int1 (suc (length g.backend.cmds)) g'.backend
          ≡ some (record g.backend { cmds = []; state = next }))
handle_line-Asks l seen c rest command next g doc asks attached ignored =
    let g1 = record g { backend = add_command command g.backend } in
    let (r, reported) = report_stop-backend l seen g1 in
    (
      record g1 { remote = r },
      line_v l seen c rest g doc
          ∙ ap (λ b. report_stop l seen (record g { backend = b }))
              (command_backend-Asks rest g.backend asks)
          ∙ reported,
      refl,
      int1-added command next g.backend asks attached ignored,
    )
