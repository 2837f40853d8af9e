-- ===== src/Debugger/Gdb/EndToEnd.antt =====
-- debugger/gdb_debugger.cpp, `Run`: a request for the registers from its packet to its answer.
use door86c.Common.{ℕ, ◌≡◌, refl, ap, ◌∙◌, Bool, false, some, List, [], ◌∷◌, ◌++◌, codes, contains}
use door86c.Machine.Fits.{CoreFits}
use door86c.Debugger.{DebugeeState}
use door86c.Debugger.Gdb.Library.{Library, IsDocumented, Result, ok, ◌>>=◌}
use door86c.Debugger.Gdb.Remote.{Arrival, arrived, frame}
use door86c.Debugger.Gdb.Request.{starts_digit}
use door86c.Debugger.Gdb.Client.{Gdb}
use door86c.Debugger.Gdb.Packets.{arrivals, connected}
use door86c.Debugger.Gdb.Values.{read_words}
use door86c.Debugger.Gdb.Registers.{registers_of, handle_line-registers}
use door86c.Debugger.Gdb.Session.{readable, drain, run}
use door86c.Debugger.Gdb.Reports.{reports, acks, frames, drain-frames, run-frame}

no_turns : (l : Library) (g : Gdb) → run l [] g ≡ ok g
unfolding run
no_turns l g = refl

-- With registers that fit their types, on an open connection: a packet whose text begins with `g`
-- and has no `#` comes in behind characters other than `$`, and after it an acknowledgement for the
-- answer and one for each report on the responses in the queue; behind the array of the checksum's
-- digits nothing goes on as a digit. Then one round of `Run` sends an acknowledgement, one packet
-- from whose text the registers are read in GDB's order, and the reports, in this order. It
-- empties the queue of responses and changes nothing else.
pub run-registers :
    (l : Library) (seen : ℕ → DebugeeState) (beyond noise sent more : List ℕ) (rest : List Arrival)
    (g : Gdb)
    → IsDocumented l
    → CoreFits g.cpu.core
    → starts_digit beyond ≡ false
    → contains noise b'$' ≡ false
    → contains (b'g' ∷ more) b'#' ≡ false
    → (text : List ℕ) × (read_words text ≡ some (registers_of g.cpu.core))
      × (run l (record { selected = readable; seen = seen; beyond = beyond } ∷ []) (record g {
        remote =
            connected
              (arrivals noise
                ++ (arrivals (frame l (b'g' ∷ more))
                    ++ (arrived b'+' ∷ acks (reports l g.backend.responses) rest)))
              sent;
      })
          ≡ ok (record g {
            backend = record g.backend { responses = [] };
            remote =
                connected rest (
                  ((sent ++ codes "+") ++ frame l text)
                  ++ frames l (reports l g.backend.responses));
          }))
run-registers l seen beyond noise sent more rest g doc fit ends quiet plain =
    let reported = acks (reports l g.backend.responses) rest in
    let (text, answer, read) =
      handle_line-registers l seen more (sent ++ codes "+") reported g doc fit in
    (
      text,
      read,
      run-frame l seen beyond [] noise sent more b'g' (arrived b'+' ∷ reported) g doc ends quiet
            plain
          ∙ ap
              (λ (o : Result (Bool × Gdb)).
                o >>= λ o'. (drain l o'.1.backend.responses o'.1 >>= run l []))
              answer
          ∙ ap (λ (o : Result Gdb). o >>= run l [])
              (drain-frames l g.backend.responses ((sent ++ codes "+") ++ frame l text) rest g)
          ∙ no_turns l _,
    )
