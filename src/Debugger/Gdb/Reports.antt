-- ===== src/Debugger/Gdb/Reports.antt =====
-- debugger/gdb_debugger.cpp, `Run`: the reports of the back end's responses, and a whole round.
use mathlib.Core.List.{append-nil, append_assoc}
use door86c.Common.{
  ℕ, ◌≡◌, refl, sym, ap, ◌∙◌, Bool, true, false, List, [], ◌∷◌, ◌++◌, codes, contains,
}
use door86c.Debugger.{DebugeeState, DebugResponse, DebugResponseId, start, stop, terminate}
use door86c.Debugger.Gdb.Library.{Library, IsDocumented, Result, ok, ◌>>=◌}
use door86c.Debugger.Gdb.Remote.{Arrival, arrived, Remote, frame}
use door86c.Debugger.Gdb.Request.{starts_digit}
use door86c.Debugger.Gdb.Client.{Gdb, handle_response, handle_line}
use door86c.Debugger.Gdb.Packets.{arrivals, connected, request-frame}
use door86c.Debugger.Gdb.Replies.{respond-acked}
use door86c.Debugger.Gdb.Session.{Turn, readable, drain, serve_line, serve_turn, run}

-- The report on a response, if there is one: `S` and the thread, or `W` and the exit code.
abbrev pub report : Library → DebugResponseId → DebugResponse → List (List ℕ)
report l stop r = (b'S' ∷ l.hex02 r.thread_id) ∷ []
report l terminate r = (b'W' ∷ l.hex02 r.exit_code) ∷ []
report l start r = []

abbrev pub reports : Library → List DebugResponse → List (List ℕ)
reports l [] = []
reports l (r ∷ rs) = report l r.id r ++ reports l rs

-- An acknowledgement for each text, and what comes behind them.
abbrev pub acks : List (List ℕ) → List Arrival → List Arrival
acks [] rest = rest
acks (t ∷ ts) rest = arrived b'+' ∷ acks ts rest

abbrev pub frames : Library → List (List ℕ) → List ℕ
frames l [] = []
frames l (t ∷ ts) = frame l t ++ frames l ts

acks-append :
    (xs ys : List (List ℕ)) (rest : List Arrival) → acks (xs ++ ys) rest ≡ acks xs (acks ys rest)
acks-append [] ys rest = refl
acks-append (x ∷ xs) ys rest = ap (λ t. arrived b'+' ∷ t) (acks-append xs ys rest)

frames-append :
    (l : Library) (xs ys : List (List ℕ)) → frames l (xs ++ ys) ≡ frames l xs ++ frames l ys
frames-append l [] ys = refl
frames-append l (x ∷ xs) ys =
    ap (λ t. frame l x ++ t) (frames-append l xs ys)
    ∙ sym (append_assoc (frame l x) (frames l xs) (frames l ys))

one_frame :
    (l : Library) (b : Bool) (text sent : List ℕ) (rest : List Arrival) (g : Gdb)
    → ◌≡◌ {A = Result (Bool × Gdb)}
        (ok (b, record g { remote = connected rest (sent ++ frame l text) }))
        (ok (b, record g { remote = connected rest (sent ++ frames l (text ∷ [])) }))
one_frame l b text sent rest g =
    ap (λ (t : List ℕ). ok (b, record g { remote = connected rest (sent ++ t) }))
      (sym (append-nil (frame l text)))

handle_response-report :
    (l : Library) (id : DebugResponseId) (r : DebugResponse) (sent : List ℕ) (rest : List Arrival)
    (g : Gdb)
    → (b : Bool) × (handle_response l id r
          (record g { remote = connected (acks (report l id r) rest) sent })
        ≡ ok (b, record g { remote = connected rest (sent ++ frames l (report l id r)) }))
unfolding handle_response
handle_response-report l stop r sent rest g = (
  true,
  respond-acked l (b'S' ∷ l.hex02 r.thread_id) sent rest g ∙ one_frame l true _ sent rest g,
)
handle_response-report l terminate r sent rest g = (
  true,
  respond-acked l (b'W' ∷ l.hex02 r.exit_code) sent rest g ∙ one_frame l true _ sent rest g,
)
handle_response-report l start r sent rest g = (
  false,
  ap (λ (t : List ℕ). ok (false, record g { remote = connected rest t })) (sym (append-nil sent)),
)

-- On an open connection on which an acknowledgement comes in for each report: the responses in the
-- queue are taken in their order, one packet goes out for each stop (`S` and the thread) and for each
-- end of the program (`W` and its exit code), none for a start, and the queue is empty.
pub drain-frames :
    (l : Library) (rs : List DebugResponse) (sent : List ℕ) (rest : List Arrival) (g : Gdb)
    → drain l rs (record g { remote = connected (acks (reports l rs) rest) sent })
      ≡ ok (record g {
        backend = record g.backend { responses = [] };
        remote = connected rest (sent ++ frames l (reports l rs));
      })
unfolding drain
drain-frames l [] sent rest g =
    ap
      (λ (t : List ℕ).
        ok (record g { backend = record g.backend { responses = [] }; remote = connected rest t }))
      (sym (append-nil sent))
drain-frames l (r ∷ rs) sent rest g =
    let g1 = record g { backend = record g.backend { responses = rs } } in
    ap (λ t. drain l (r ∷ rs) (record g { remote = connected t sent }))
      (acks-append (report l r.id r) (reports l rs) rest)
    ∙ ap (λ (o : Result (Bool × Gdb)). o >>= λ o'. drain l rs o'.1)
        (handle_response-report l r.id r sent (acks (reports l rs) rest) g1).1
    ∙ drain-frames l rs (sent ++ frames l (report l r.id r)) rest g1
    ∙ ap
        (λ (t : List ℕ).
          ok
            (record g { backend = record g.backend { responses = [] }; remote = connected rest t }))
        (append_assoc sent (frames l (report l r.id r)) (frames l (reports l rs))
          ∙ ap (λ t. sent ++ t) (sym (frames-append l (report l r.id r) (reports l rs))))

-- The turn of a packet's arrival, under the conditions of `request-frame`, with a text that is not
-- empty: its text, acknowledged, goes to `handle_line`; then the responses that are in the queue go
-- out, and the loop goes on.
pub run-frame :
    (l : Library) (seen : ℕ → DebugeeState) (beyond : List ℕ) (ts : List Turn)
    (noise sent cs : List ℕ) (c : ℕ) (rest : List Arrival) (g : Gdb)
    → IsDocumented l
    → starts_digit beyond ≡ false
    → contains noise b'$' ≡ false
    → contains (c ∷ cs) b'#' ≡ false
    → run l (record { selected = readable; seen = seen; beyond = beyond } ∷ ts) (record g {
      remote = connected (arrivals noise ++ (arrivals (frame l (c ∷ cs)) ++ rest)) sent;
    })
      ≡ (handle_line l seen (c ∷ cs) (record g { remote = connected rest (sent ++ codes "+") })
          >>= λ o. (drain l o.1.backend.responses o.1 >>= run l ts))
unfolding run serve_turn serve_line
run-frame l seen beyond ts noise sent cs c rest g doc ends quiet plain =
    ap
      (λ (q : Result (List ℕ × Remote)). q >>= λ q'.
        serve_line l (run l ts) (record { selected = readable; seen = seen; beyond = beyond }) q'.0
          (record g { remote = q'.1 }))
      (request-frame l beyond noise sent (c ∷ cs) rest doc ends quiet plain)
