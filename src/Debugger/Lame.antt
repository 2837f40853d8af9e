-- ===== src/Debugger/Lame.antt =====
-- debugger/lame_debugger.h and debugger/lame_debugger.cpp: the client that reads lines.
use door86c.Common.{ℕ, List, [], ◌∷◌, if◌then◌else◌, codes, equal}
use door86c.Debugger.{DebuggerBackend, step, cont, add_command}

-- StringTrim, SplitOnce and StringLowerCase of wwiv/core.
pub record Library : Type 0 where
  pub string_trim : List ℕ → List ℕ
  pub split_once : List ℕ → List ℕ → List ℕ × List ℕ
  pub lower_case : List ℕ → List ℕ

unfoldable pub command_backend : List ℕ → DebuggerBackend → DebuggerBackend
unfolding equal add_command
command_backend cmd b =
    if equal cmd (codes "step")
    then add_command step b
    else if equal cmd (codes "cont")
    then add_command cont b
    else b

-- What `select` gives, with the line that is read then.
pub data Turn : Type 0 where
  failed timed_out : Turn
  readable : List ℕ → Turn

module _ (l : Library) where
  unfoldable pub handle_line : List ℕ → DebuggerBackend → DebuggerBackend
  unfolding command_backend
  handle_line [] b = b
  handle_line (c ∷ cs) b =
      let (cmd, rest) = l.split_once (l.string_trim (c ∷ cs)) (codes " ") in
      command_backend (l.lower_case (l.string_trim cmd)) b

  -- `Run` on a connection that stays open, for as many rounds as are given.
  unfoldable pub run : List Turn → DebuggerBackend → DebuggerBackend
  unfolding handle_line
  run [] b = b
  run (failed ∷ ts) b = b
  run (timed_out ∷ ts) b = run ts b
  run (readable [] ∷ ts) b = b
  run (readable (c ∷ cs) ∷ ts) b = run ts (handle_line (c ∷ cs) b)
