-- ===== src/Debugger.antt =====
-- debugger/debugger.h, debugger/debugger.cpp and debugger/blocking_queue.h: the back end through
-- which debugger clients hold the CPU. The CPU's thread is in `int1` before each instruction while
-- a debugger is attached; the clients' threads put commands into the queue meanwhile.
pub mod Rounds
pub mod Gdb
pub mod Lame
use door86c.Common.{
  ℕ, zero, suc, Bool, true, false, Option, none, some, List, [], ◌∷◌, ◌++◌, ◌==◌, if◌then◌else◌,
}
use door86c.Machine.{Cpu, debugger_int1, debugger_int3}
use door86c.Machine.Exec.{Step, ok, ◌>>=◌, ◌>>◌}
use door86c.Dos.Services.{try_emplace}

pub data DebugCommandId : Type 0 where
  cont step step_in step_out list_breakpoints list_watchpoints show_registers show_memory :
      DebugCommandId

pub data DebugResponseId : Type 0 where
  stop start terminate : DebugResponseId

pub data DebugeeState : Type 0 where
  running stepping stopped : DebugeeState

pub record DebugResponse : Type 0 where
  pub id : DebugResponseId
  pub state : DebugeeState
  pub thread_id : ℕ
  pub exit_code : ℕ

-- The two queues, oldest entry first, the state, and the CPU's `debugger_attached`.
pub record DebuggerBackend : Type 0 where
  pub cmds : List DebugCommandId
  pub responses : List DebugResponse
  pub state : DebugeeState
  pub attached : Bool

unfoldable pub make_backend : DebuggerBackend
make_backend = record { cmds = []; responses = []; state = stepping; attached = false }

-- `push` adds behind, `pop` takes from the front; `none` is the wait for an entry.
unfoldable pub push {ℓ} : {A : Type ℓ} → A → List A → List A
push a queue = queue ++ a ∷ []

unfoldable pub pop {ℓ} : {A : Type ℓ} → List A → Option (A × List A)
pop [] = none
pop (a ∷ queue) = some (a, queue)

unfoldable pub add_command : DebugCommandId → DebuggerBackend → DebuggerBackend
unfolding push
add_command c b = record b { cmds = push c b.cmds }

unfoldable pub add_response : DebugResponse → DebuggerBackend → DebuggerBackend
unfolding push
add_response r b = record b { responses = push r b.responses }

abbrev pub is_running : DebugeeState → Bool
is_running running = true
is_running stepping = false
is_running stopped = false

-- A command that lets the program go on, with the state that it sets.
unfoldable pub resumed : DebugCommandId → Option DebugeeState
resumed cont = some running
resumed step = some stepping
resumed step_in = none
resumed step_out = none
resumed list_breakpoints = none
resumed list_watchpoints = none
resumed show_registers = none
resumed show_memory = none

-- The `switch` on a command: does `int1` return?
unfoldable pub obey : Option DebugeeState → DebuggerBackend → Bool × DebuggerBackend
obey none b = (false, b)
obey (some next) b = (true, record b { state = next })

-- The body for a queue's contents.
unfoldable pub serve :
    Option (DebugCommandId × List DebugCommandId) → DebuggerBackend → Bool × DebuggerBackend
unfolding obey resumed
serve none b = if is_running b.state then (true, b) else (false, record b { state = stopped })
serve (some (c, rest)) b = obey (resumed c) (record b { cmds = rest })

-- One round of the loop of `int1`: whether it returns, and the state after it.
unfoldable pub int1_round : DebuggerBackend → Bool × DebuggerBackend
unfolding serve pop
int1_round b = if b.attached then serve (pop b.cmds) b else (true, b)

abbrev continue :
    (DebuggerBackend → Option DebuggerBackend) → Bool × DebuggerBackend → Option DebuggerBackend
continue again (true, b) = some b
continue again (false, b) = again b

-- `int1` with nobody else at work, for so many rounds at most. `int3` is the same.
unfoldable pub int1 : ℕ → DebuggerBackend → Option DebuggerBackend
unfolding int1_round
int1 zero b = none
int1 (suc rounds) b = continue (int1 rounds) (int1_round b)

abbrev pub erase : ℕ → Step
erase num s = ok tt (record s { int_handlers = λ n. if n == num then none else s.int_handlers n })

abbrev pub store_attached : Bool → Step
store_attached b s = ok tt (record s { debugger_attached = b })

unfoldable pub attach : Step
attach = do try_emplace 0x1 debugger_int1; try_emplace 0x3 debugger_int3; store_attached true

unfoldable pub detach : Step
detach = do erase 0x01; erase 0x03; store_attached false
