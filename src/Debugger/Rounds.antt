-- ===== src/Debugger/Rounds.antt =====
-- debugger/debugger.cpp, `int1`: when it lets the CPU go on.
use door86c.Common.{
  ℕ, suc, ◌≡◌, refl, arith, Bool, true, false, Option, none, some, List, [], ◌∷◌, ◌++◌, length,
  if◌then◌else◌, Bool-cases, inl, inr, sym, subst, ap,
}
use door86c.Machine.{Cpu}
use door86c.Machine.Exec.{ok}
use door86c.Debugger.{
  DebugCommandId, DebugResponse, DebugeeState, stopped, DebuggerBackend, pop, add_command,
  add_response, is_running, resumed, obey, serve, int1_round, int1, attach, detach,
}

-- The states that `int1` can be in at the head of its loop, if it was entered at `b`: its own rounds
-- in which it did not return, each as one step, and between them what the clients do, who put in
-- commands and responses, take responses out, detach and attach.
pub data Reaches (b : DebuggerBackend) : DebuggerBackend → Type 0 where
  entered : Reaches b b
  next_round : {r r' : DebuggerBackend} → Reaches b r → int1_round r ≡ (false, r') → Reaches b r'
  commanded :
      {r : DebuggerBackend} → Reaches b r → (c : DebugCommandId) → Reaches b (add_command c r)
  responded :
      {r : DebuggerBackend} → Reaches b r → (a : DebugResponse) → Reaches b (add_response a r)
  reported :
      {r : DebuggerBackend} (a : DebugResponse) (rest : List DebugResponse)
      → Reaches b r
      → pop r.responses ≡ some (a, rest)
      → Reaches b (record r { responses = rest })
  detached : {r : DebuggerBackend} → Reaches b r → Reaches b (record r { attached = false })
  attached_again : {r : DebuggerBackend} → Reaches b r → Reaches b (record r { attached = true })

-- What one round does, if the program is held.
data Outcome (b : DebuggerBackend) : Bool × DebuggerBackend → Type 0 where
  left : b.attached ≡ false → Outcome b (true, b)
  waits : b.attached ≡ true → b.cmds ≡ [] → Outcome b (false, record b { state = stopped })
  ignores :
      (c : DebugCommandId) (cs : List DebugCommandId)
      → b.cmds ≡ c ∷ cs
      → resumed c ≡ none
      → Outcome b (false, record b { cmds = cs })
  resumes :
      (c : DebugCommandId) (cs : List DebugCommandId) (next : DebugeeState)
      → b.cmds ≡ c ∷ cs
      → resumed c ≡ some next
      → Outcome b (true, record b { cmds = cs; state = next })

obey-Outcome :
    (b : DebuggerBackend) (c : DebugCommandId) (cs : List DebugCommandId) (o : Option DebugeeState)
    → b.cmds ≡ c ∷ cs
    → resumed c ≡ o
    → Outcome b (obey o (record b { cmds = cs }))
unfolding obey
obey-Outcome b c cs none e r = ignores c cs e r
obey-Outcome b c cs (some next) e r = resumes c cs next e r

serve-Outcome :
    (b : DebuggerBackend) (q : List DebugCommandId)
    → is_running b.state ≡ false
    → b.attached ≡ true
    → b.cmds ≡ q
    → Outcome b (serve (pop q) b)
unfolding serve pop
serve-Outcome b [] held attached e = rw held (waits attached e)
serve-Outcome b (c ∷ cs) held attached e = obey-Outcome b c cs (resumed c) e refl

int1_round-Outcome : (b : DebuggerBackend) → is_running b.state ≡ false → Outcome b (int1_round b)
unfolding int1_round
int1_round-Outcome b held = elim (Bool-cases b.attached) [
  | inl attached ↦
      subst (λ t. Outcome b (if t then serve (pop b.cmds) b else (true, b))) (sym attached)
        (serve-Outcome b b.cmds held attached refl)
  | inr gone ↦
      subst (λ t. Outcome b (if t then serve (pop b.cmds) b else (true, b))) (sym gone) (left gone)
]

round-held :
    (b r : DebuggerBackend) (o : Bool × DebuggerBackend)
    → is_running b.state ≡ false
    → Outcome b o
    → o ≡ (false, r)
    → is_running r.state ≡ false
round-held b r o held (left gone) e = cc
round-held b r o held (waits attached none_there) e = ground arith
round-held b r o held (ignores c cs q other) e = ground arith
round-held b r o held (resumes c cs next q known) e = cc

Reaches-held :
    (b r : DebuggerBackend) → is_running b.state ≡ false → Reaches b r → is_running r.state ≡ false
unfolding add_command add_response
Reaches-held b r held entered = held
Reaches-held b r held (next_round {r = r1} before e) =
    round-held r1 r (int1_round r1) (Reaches-held b r1 held before)
      (int1_round-Outcome r1 (Reaches-held b r1 held before)) e
Reaches-held b r held (commanded {r = r1} before c) = Reaches-held b r1 held before
Reaches-held b r held (responded {r = r1} before a) = Reaches-held b r1 held before
Reaches-held b r held (reported {r = r1} a rest before e) = Reaches-held b r1 held before
Reaches-held b r held (detached {r = r1} before) = Reaches-held b r1 held before
Reaches-held b r held (attached_again {r = r1} before) = Reaches-held b r1 held before

-- The oldest command in the queue is one that lets the program go on: it is taken, and the state
-- is the one that it sets.
pub record Commanded (r r' : DebuggerBackend) : Type 0 where
  pub command : DebugCommandId
  pub next : DebugeeState
  pub taken : r.cmds ≡ command ∷ r'.cmds
  pub resumes_with : resumed command ≡ some next
  pub state_is : r'.state ≡ next

outcome-Commanded :
    (b r : DebuggerBackend) (o : Bool × DebuggerBackend)
    → Outcome b o
    → o ≡ (true, r)
    → r.attached ≡ true
    → Commanded b r
outcome-Commanded b r o (left gone) e attached = absurd (ground (arith, gone, attached, e))
outcome-Commanded b r o (waits present none_there) e attached = cc
outcome-Commanded b r o (ignores c cs q other) e attached = cc
outcome-Commanded b r o (resumes c cs next q known) e attached =
    let r_is : record b { cmds = cs; state = next } ≡ r = cc in
    subst (λ t. Commanded b t) r_is
      (record { command = c; next = next; taken = q; resumes_with = known; state_is = refl })

-- If the program is held when `int1` is entered, and the clients meanwhile put commands and
-- responses into the queues, take responses out, detach and attach, in any order between its
-- rounds: when `int1` returns with a debugger attached, it has just taken a command from the front
-- of the queue that lets the program go on, and the state is the one of that command.
pub int1-Commanded :
    (b r r' : DebuggerBackend)
    → is_running b.state ≡ false
    → Reaches b r
    → int1_round r ≡ (true, r')
    → r'.attached ≡ true
    → Commanded r r'
int1-Commanded b r r' held reached e attached =
    outcome-Commanded r r' (int1_round r) (int1_round-Outcome r (Reaches-held b r held reached)) e
      attached

abbrev pub AllIgnored : List DebugCommandId → Type 0
AllIgnored [] = Unit {0}
AllIgnored (c ∷ cs) = (resumed c ≡ none) × AllIgnored cs

int1_round-ignores :
    (b : DebuggerBackend) (c : DebugCommandId) (cs : List DebugCommandId)
    → b.attached ≡ true
    → b.cmds ≡ c ∷ cs
    → resumed c ≡ none
    → int1_round b ≡ (false, record b { cmds = cs })
unfolding int1_round pop serve obey
int1_round-ignores b c cs attached e unknown = rw (attached, e, unknown) refl

int1_round-resumes :
    (b : DebuggerBackend) (c : DebugCommandId) (cs : List DebugCommandId) (next : DebugeeState)
    → b.attached ≡ true
    → b.cmds ≡ c ∷ cs
    → resumed c ≡ some next
    → int1_round b ≡ (true, record b { cmds = cs; state = next })
unfolding int1_round pop serve obey
int1_round-resumes b c cs next attached e goes_on = rw (attached, e, goes_on) refl

-- With the debugger attached, and commands in the queue that do not let the program go on before
-- one that does: `int1` returns after one round for each of them. What stands behind that command
-- stays in the queue.
pub int1-returns :
    (b : DebuggerBackend) (before after : List DebugCommandId) (c : DebugCommandId)
    (next : DebugeeState)
    → b.attached ≡ true
    → b.cmds ≡ before ++ c ∷ after
    → AllIgnored before
    → resumed c ≡ some next
    → int1 (suc (length before)) b ≡ some (record b { cmds = after; state = next })
unfolding int1
int1-returns b [] after c next attached e ignored goes_on =
    rw (int1_round-resumes b c after next attached e goes_on) refl
int1-returns b (d ∷ before) after c next attached e (unknown, ignored) goes_on =
    rw (int1_round-ignores b d (before ++ c ∷ after) attached e unknown) (
      int1-returns (record b { cmds = before ++ c ∷ after }) before after c next attached refl
        ignored goes_on)

-- With no debugger attached and no function registered for the interrupts 1 and 3: attaching one and
-- detaching it again restores the CPU, the registered functions of every interrupt included.
pub attach-detach :
    (s : Cpu)
    → s.debugger_attached ≡ false
    → s.int_handlers 0x1 ≡ none
    → s.int_handlers 0x3 ≡ none
    → (t u : Cpu) × (attach s ≡ ok tt t)
      × (t.debugger_attached ≡ true)
      × (detach t ≡ ok tt u)
      × ((num : ℕ) → u.int_handlers num ≡ s.int_handlers num)
      × (record u { int_handlers = s.int_handlers } ≡ s)
unfolding attach detach
attach-detach s alone free1 free3 = (
  _,
  _,
  refl,
  refl,
  refl,
  λ num. ground arith,
  ap (λ (t : Bool). record s { debugger_attached = t }) (sym alone),
)
