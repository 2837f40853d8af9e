-- ===== src/Debugger/Gdb/Remote.antt =====
-- debugger/gdb_debugger.h and debugger/gdb_debugger.cpp, `GdbRemote`: packets over a socket.
use door86c.Common.{
  ℕ, zero, suc, ◌+◌, Bool, true, false, Option, none, some, List, [], ◌∷◌, ◌++◌, ◌==◌,
  if◌then◌else◌, u32, u8, bit_and, codes, contains,
}
use door86c.Debugger.Gdb.Library.{Library}

-- What comes in: a byte, or a pause, behind which nothing has come yet when the bytes before it are
-- read. At the end of the list the connection is closed.
pub data Arrival : Type 0 where
  arrived : ℕ → Arrival
  pause : Arrival

-- The socket; `is_open` is `sock_ != INVALID_SOCKET`. All of what is sent goes out.
pub record Remote : Type 0 where
  pub is_open : Bool
  pub incoming : List Arrival
  pub sent : List ℕ

unfoldable pub send : List ℕ → Remote → Remote
send bytes r = if r.is_open then record r { sent = r.sent ++ bytes } else r

unfoldable pub ack : Remote → Remote
unfolding send
ack r = send (codes "+") r

unfoldable pub nak : Remote → Remote
unfolding send
nak r = send (codes "-") r

-- The loop of `wait_ack_or_nak`; `none` at the end of the input.
unfoldable pub next_reply : List Arrival → Option (Bool × List Arrival)
next_reply [] = none
next_reply (pause ∷ xs) = next_reply xs
next_reply (arrived ch ∷ xs) =
    let later = next_reply xs in
    if ch == b'-' then some (false, xs) else if ch == b'+' then some (true, xs) else later

abbrev replied : Option (Bool × List Arrival) → Remote → Bool × Remote
replied none r = (false, record r { is_open = false; incoming = [] })
replied (some (reply, rest)) r = (reply, record r { incoming = rest })

unfoldable pub wait_ack_or_nak : Remote → Bool × Remote
unfolding next_reply
wait_ack_or_nak r = if r.is_open then replied (next_reply r.incoming) r else (false, r)

-- The sum of the bytes, an `unsigned`.
unfoldable pub sum_bytes : ℕ → List ℕ → ℕ
sum_bytes sum [] = sum
sum_bytes sum (ch ∷ cs) = sum_bytes (u32 (sum + u8 ch)) cs

unfoldable pub checksum : List ℕ → ℕ
unfolding sum_bytes
checksum s = bit_and (sum_bytes 0 s) 0xff

-- A text as a packet.
unfoldable pub frame : Library → List ℕ → List ℕ
unfolding checksum
frame l resp = b'$' ∷ resp ++ b'#' ∷ l.hex02 (checksum resp)

abbrev unless_acked : (Remote → Bool × Remote) → Bool × Remote → Bool × Remote
unless_acked again (true, r) = (true, r)
unless_acked again (false, r) = again r

-- The loop of `response`, with so many rounds left.
unfoldable pub send_line : ℕ → List ℕ → Remote → Bool × Remote
unfolding send wait_ack_or_nak
send_line zero line r = (false, r)
send_line (suc count) line r = unless_acked (send_line count line) (wait_ack_or_nak (send line r))

unfoldable pub response : Library → List ℕ → Remote → Bool × Remote
unfolding frame send_line
response l resp r = send_line 10 (frame l resp) r

unfoldable pub skip_to : List ℕ → List Arrival → ℕ × List Arrival
unfolding contains
skip_to expected [] = (0, [])
skip_to expected (pause ∷ xs) = skip_to expected xs
skip_to expected (arrived ch ∷ xs) =
    let later = skip_to expected xs in if contains expected ch then (ch, xs) else later

abbrev skipped : ℕ × List Arrival → Remote → ℕ × Remote
skipped (ch, rest) r = (ch, record r { incoming = rest })

unfoldable pub wait_for_char : List ℕ → Remote → ℕ × Remote
unfolding skip_to
wait_for_char expected r = if r.is_open then skipped (skip_to expected r.incoming) r else (0, r)
