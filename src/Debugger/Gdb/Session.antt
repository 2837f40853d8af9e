-- ===== src/Debugger/Gdb/Session.antt =====
-- debugger/gdb_debugger.cpp: the constructor and the destructor of `GdbDebugger`, and its loop `Run`.
use door86c.Common.{ℕ, List, [], ◌∷◌, if◌then◌else◌}
use door86c.Machine.{Cpu}
use door86c.Machine.Exec.{Outcome, fault, Step}
use door86c.Machine.Exec
use door86c.Debugger.{DebuggerBackend, DebugResponse, DebugeeState, attach, detach}
use door86c.Debugger.Gdb.Library.{Library, Result, ok, ◌>>=◌}
use door86c.Debugger.Gdb.Remote.{Remote}
use door86c.Debugger.Gdb.Request.{request}
use door86c.Debugger.Gdb.Client.{Gdb, handle_response, handle_line}

-- The CPU behind the attached back end, and the client on it.
abbrev attached_to : DebuggerBackend → Remote → Outcome (Unit {0}) → Outcome Gdb
attached_to b r (Exec.ok u s) =
    Exec.ok
      (record {
        backend = record b { attached = s.debugger_attached };
        cpu = s;
        remote = r;
        default_thread_id = 0;
      })
      s
attached_to b r (fault e) = fault e

unfoldable pub make_gdb : DebuggerBackend → Remote → Cpu → Outcome Gdb
unfolding attach
make_gdb b r s = attached_to b r (attach s)

unfoldable pub end_gdb : Gdb → Outcome (Unit {0})
unfolding detach
end_gdb g = detach g.cpu

-- What `select` gives.
pub data Selected : Type 0 where
  failed timed_out readable : Selected

-- What the surroundings bring to one round of the loop: what `select` gives, the states that the back
-- end is seen in, and what stands behind the array of `request`.
pub record Turn : Type 0 where
  pub selected : Selected
  pub seen : ℕ → DebugeeState
  pub beyond : List ℕ

module _ (l : Library) where
  -- The loop over the responses in the back end's queue.
  unfoldable pub drain : List DebugResponse → Gdb → Result Gdb
  drain [] g = ok (record g { backend = record g.backend { responses = [] } })
  drain (r ∷ rs) g =
      handle_response l r.id r (record g { backend = record g.backend { responses = rs } }) >>= λ o.
      drain rs o.1

  unfoldable pub serve_line : (Gdb → Result Gdb) → Turn → List ℕ → Gdb → Result Gdb
  serve_line again t [] g = ok g
  serve_line again t (c ∷ cs) g =
      handle_line l t.seen (c ∷ cs) g >>= λ o. (drain o.1.backend.responses o.1 >>= again)

  unfoldable pub serve_turn : (Gdb → Result Gdb) → Turn → Selected → Gdb → Result Gdb
  unfolding serve_line
  serve_turn again t failed g = ok g
  serve_turn again t timed_out g = again g
  serve_turn again t readable g =
      request t.beyond g.remote >>= λ q. serve_line again t q.0 (record g { remote = q.1 })

  -- `Run`, for as many rounds as are given.
  unfoldable pub run : List Turn → Gdb → Result Gdb
  unfolding serve_turn
  run [] g = ok g
  run (t ∷ ts) g = if g.remote.is_open then serve_turn (run ts) t t.selected g else ok g
