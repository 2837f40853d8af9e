-- ===== src/Debugger/Gdb/Replies.antt =====
-- debugger/gdb_debugger.cpp: `GdbRemote::response` against the replies that come in.
use mathlib.Core.List.{append_assoc, append-nil}
use door86c.Common.{
  ℕ, zero, suc, ◌-◌, ◌<◌, ◌≤◌, ◌≡◌, refl, ap, ◌∙◌, arith, true, false, List, [], ◌∷◌, ◌++◌, ltb,
  if◌then◌else◌, Bool-cases, inl, inr,
}
use door86c.Debugger.Gdb.Library.{Library, ok}
use door86c.Debugger.Gdb.Remote.{
  Arrival, arrived, Remote, send, next_reply, wait_ack_or_nak, frame, send_line, response,
}
use door86c.Debugger.Gdb.Client.{Gdb, answered, respond}
use door86c.Debugger.Gdb.Packets.{connected}

-- So many `-`, and what comes behind them.
abbrev pub refusals : ℕ → List Arrival → List Arrival
refusals zero rest = rest
refusals (suc k) rest = arrived b'-' ∷ refusals k rest

-- A text so many times.
abbrev pub copies : ℕ → List ℕ → List ℕ
copies zero text = []
copies (suc k) text = text ++ copies k text

ltb→lt : (a b : ℕ) → ltb a b ≡ true → a < b
ltb→lt a b h = ground arith

ltb-false→le : (a b : ℕ) → ltb a b ≡ false → b ≤ a
ltb-false→le a b h = ground arith

send_line-acked :
    (count k : ℕ) (line sent : List ℕ) (rest : List Arrival)
    → k < count
    → send_line count line (connected (refusals k (arrived b'+' ∷ rest)) sent)
      ≡ (true, connected rest (sent ++ copies (suc k) line))
unfolding send_line send wait_ack_or_nak next_reply
send_line-acked zero k line sent rest h = absurd (omega arith)
send_line-acked (suc count) zero line sent rest h = rw append-nil refl
send_line-acked (suc count) (suc k) line sent rest h =
    send_line-acked count k line (sent ++ line) rest (omega arith)
    ∙ ap (λ (t : List ℕ). (true, connected rest t)) (append_assoc sent line (copies (suc k) line))

refusals-split :
    (j k : ℕ) (rest : List Arrival) → j ≤ k → refusals k rest ≡ refusals j (refusals (k - j) rest)
refusals-split zero k rest h = let all : k - 0 ≡ k = omega arith in rw all refl
refusals-split (suc j) zero rest h = absurd (omega arith)
refusals-split (suc j) (suc k) rest h =
    let fewer : suc k - suc j ≡ k - j = omega arith in
    rw fewer (ap (λ t. arrived b'-' ∷ t) (refusals-split j k rest (omega arith)))

send_line-refused :
    (count : ℕ) (line sent : List ℕ) (rest : List Arrival)
    → send_line count line (connected (refusals count rest) sent)
      ≡ (false, connected rest (sent ++ copies count line))
unfolding send_line send wait_ack_or_nak next_reply
send_line-refused zero line sent rest = rw append-nil refl
send_line-refused (suc count) line sent rest =
    send_line-refused count line (sent ++ line) rest
    ∙ ap (λ (t : List ℕ). (false, connected rest t)) (append_assoc sent line (copies count line))

response-send_line :
    (l : Library) (text : List ℕ) (r : Remote) → response l text r ≡ send_line 10 (frame l text) r
unfolding response
response-send_line l text r = refl

-- On an open connection, with `k` refusals before an acknowledgement: if `k` is less than ten, the
-- packet is sent `k + 1` times and `response` returns true behind the acknowledgement; otherwise it
-- is sent ten times, `response` returns false, and the replies behind the tenth are still to be read.
pub response_lem :
    (l : Library) (k : ℕ) (text sent : List ℕ) (rest : List Arrival)
    → response l text (connected (refusals k (arrived b'+' ∷ rest)) sent) ≡ (
        if ltb k 10 then (true, connected rest (sent ++ copies (suc k) (frame l text))) else (
          false,
          connected (refusals (k - 10) (arrived b'+' ∷ rest)) (sent ++ copies 10 (frame l text)),
        ))
response_lem l k text sent rest = elim (Bool-cases (ltb k 10)) [
  | inl few ↦ rw few (
      response-send_line l text (connected (refusals k (arrived b'+' ∷ rest)) sent)
      ∙ send_line-acked 10 k (frame l text) sent rest (ltb→lt k 10 few))
  | inr many ↦ rw many (
      response-send_line l text (connected (refusals k (arrived b'+' ∷ rest)) sent)
      ∙ ap (λ t. send_line 10 (frame l text) (connected t sent))
          (refusals-split 10 k (arrived b'+' ∷ rest) (ltb-false→le k 10 many))
      ∙ send_line-refused 10 (frame l text) sent (refusals (k - 10) (arrived b'+' ∷ rest)))
]

-- Acknowledged at once.
pub response-acked :
    (l : Library) (text sent : List ℕ) (rest : List Arrival)
    → response l text (connected (arrived b'+' ∷ rest) sent)
      ≡ (true, connected rest (sent ++ frame l text))
response-acked l text sent rest =
    response-send_line l text (connected (arrived b'+' ∷ rest) sent)
    ∙ send_line-acked 10 0 (frame l text) sent rest (omega arith)
    ∙ ap (λ t. (true, connected rest (sent ++ t))) (append-nil (frame l text))

pub respond-acked :
    (l : Library) (text sent : List ℕ) (rest : List Arrival) (g : Gdb)
    → respond l text (record g { remote = connected (arrived b'+' ∷ rest) sent })
      ≡ ok (true, record g { remote = connected rest (sent ++ frame l text) })
respond-acked l text sent rest g =
    ap (answered (record g { remote = connected (arrived b'+' ∷ rest) sent }))
      (response-acked l text sent rest)
