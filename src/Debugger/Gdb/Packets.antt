-- ===== src/Debugger/Gdb/Packets.antt =====
-- debugger/gdb_debugger.cpp: what `GdbRemote::request` makes of packets.
use mathlib.Core.List.{append_assoc, append-nil}
use door86c.Common.{
  ℕ, ◌/◌, ◌%◌, ◌<◌, ◌≡◌, ◌≢◌, refl, sym, ap, ◌∙◌, arith, true, false, Option, none, some, List, [],
  ◌∷◌, ◌++◌, ◌==◌, ==_iff, codes, contains,
}
use door86c.Debugger.Gdb.Library.{hex_digit, Library, IsDocumented, Result, ok, thrown}
use door86c.Debugger.Gdb.Remote.{
  Arrival, arrived, Remote, send, ack, checksum, frame, skip_to, wait_for_char,
}
use door86c.Debugger.Gdb.Request.{starts_digit, judge, collect, requested, started, request}
use door86c.Debugger.Gdb.Checksums.{
  validate_checksum-hex, checksum-lt, checksum-append, checksum-total,
}

abbrev pub arrivals : List ℕ → List Arrival
arrivals [] = []
arrivals (c ∷ cs) = arrived c ∷ arrivals cs

pub arrivals-append : (xs ys : List ℕ) → arrivals (xs ++ ys) ≡ arrivals xs ++ arrivals ys
arrivals-append [] ys = refl
arrivals-append (x ∷ xs) ys = ap (λ t. arrived x ∷ t) (arrivals-append xs ys)

skip_to-noise :
    (noise : List ℕ) (rest : List Arrival)
    → contains noise b'$' ≡ false
    → skip_to (b'$' ∷ []) (arrivals noise ++ (arrived b'$' ∷ rest)) ≡ (b'$', rest)
unfolding skip_to contains
skip_to-noise [] rest quiet = refl
skip_to-noise (c ∷ cs) rest quiet = ground (arith, skip_to-noise cs rest)

collect-text :
    (beyond line text : List ℕ) (rest : List Arrival)
    → contains text b'#' ≡ false
    → collect false beyond line (arrivals text ++ rest) ≡ collect false beyond (line ++ text) rest
unfolding collect contains
collect-text beyond line [] rest plain = rw append-nil refl
collect-text beyond line (c ∷ cs) rest plain =
    let here : (c == b'#') ≡ false = ground arith in
    rw here (
      collect-text beyond (line ++ c ∷ []) cs rest (ground arith)
      ∙ ap (λ t. collect false beyond t rest) (append_assoc line (c ∷ []) cs))

-- Behind the text: the mark and the two digits of a number.
collect-checksum :
    (beyond line : List ℕ) (n : ℕ) (rest : List Arrival)
    → n < 256
    → starts_digit beyond ≡ false
    → collect false beyond line
        (arrived b'#' ∷ arrived (hex_digit (n / 16)) ∷ arrived (hex_digit (n % 16)) ∷ rest)
      ≡ judge (ok (checksum line == n)) (some line, rest) (collect false beyond line rest)
unfolding collect
collect-checksum beyond line n rest h stop = rw (validate_checksum-hex line n beyond h stop) refl

-- A packet with the number `n` where its checksum stands.
abbrev pub packet : ℕ → List ℕ → List ℕ
packet n text = b'$' ∷ text ++ b'#' ∷ hex_digit (n / 16) ∷ hex_digit (n % 16) ∷ []

pub frame-packet :
    (l : Library) (text : List ℕ) → IsDocumented l → frame l text ≡ packet (checksum text) text
unfolding frame
frame-packet l text doc = rw (doc.hex02_byte (checksum text) (checksum-lt text)) refl

collect-packet :
    (beyond line text : List ℕ) (n : ℕ) (rest : List Arrival)
    → n < 256
    → starts_digit beyond ≡ false
    → contains text b'#' ≡ false
    → collect false beyond line
        (arrivals (text ++ b'#' ∷ hex_digit (n / 16) ∷ hex_digit (n % 16) ∷ []) ++ rest)
      ≡ judge
          (ok (checksum (line ++ text) == n))
          (some (line ++ text), rest)
          (collect false beyond (line ++ text) rest)
collect-packet beyond line text n rest h stop plain =
    rw
      (
        arrivals-append text (b'#' ∷ hex_digit (n / 16) ∷ hex_digit (n % 16) ∷ []),
        append_assoc (arrivals text)
            (arrived b'#' ∷ arrived (hex_digit (n / 16)) ∷ arrived (hex_digit (n % 16)) ∷ []) rest,
      )
      (collect-text beyond line text _ plain ∙ collect-checksum beyond (line ++ text) n rest h stop)

-- An open connection with what is still to come in and what has been sent.
abbrev pub connected : List Arrival → List ℕ → Remote
connected incoming sent = record { is_open = true; incoming = incoming; sent = sent }

request-started :
    (beyond noise sent : List ℕ) (rest : List Arrival)
    → contains noise b'$' ≡ false
    → request beyond (connected (arrivals noise ++ (arrived b'$' ∷ rest)) sent)
      ≡ requested (connected rest sent) (collect false beyond [] rest)
unfolding request wait_for_char started
request-started beyond noise sent rest quiet = rw (skip_to-noise noise rest quiet) refl

requested-incoming :
    (xs ys : List Arrival) (sent : List ℕ) (o : Result (Option (List ℕ) × List Arrival))
    → requested (connected xs sent) o ≡ requested (connected ys sent) o
unfolding requested ack send
requested-incoming xs ys sent (ok (none, rest)) = refl
requested-incoming xs ys sent (ok (some line, rest)) = refl
requested-incoming xs ys sent (thrown e) = refl

request-packet :
    (beyond noise sent text : List ℕ) (n : ℕ) (rest : List Arrival)
    → n < 256
    → starts_digit beyond ≡ false
    → contains noise b'$' ≡ false
    → contains text b'#' ≡ false
    → request beyond (connected (arrivals noise ++ (arrivals (packet n text) ++ rest)) sent)
      ≡ requested
          (connected rest sent)
          (judge (ok (checksum text == n)) (some text, rest) (collect false beyond text rest))
request-packet beyond noise sent text n rest h stop quiet plain =
    request-started beyond noise sent
      (arrivals (text ++ b'#' ∷ hex_digit (n / 16) ∷ hex_digit (n % 16) ∷ []) ++ rest) quiet
    ∙ requested-incoming
        (arrivals (text ++ b'#' ∷ hex_digit (n / 16) ∷ hex_digit (n % 16) ∷ []) ++ rest) rest sent
        (collect false beyond []
          (arrivals (text ++ b'#' ∷ hex_digit (n / 16) ∷ hex_digit (n % 16) ∷ []) ++ rest))
    ∙ ap (requested (connected rest sent)) (collect-packet beyond [] text n rest h stop plain)

-- With no `$` before the packet, no `#` in its text, and behind the array of the checksum's digits
-- nothing that goes on as a digit: a packet as `response` sends it is read as its text, whatever
-- follows it, and acknowledged.
pub request-frame :
    (l : Library) (beyond noise sent text : List ℕ) (rest : List Arrival)
    → IsDocumented l
    → starts_digit beyond ≡ false
    → contains noise b'$' ≡ false
    → contains text b'#' ≡ false
    → request beyond (connected (arrivals noise ++ (arrivals (frame l text) ++ rest)) sent)
      ≡ ok (text, connected rest (sent ++ codes "+"))
unfolding requested judge ack send
request-frame l beyond noise sent text rest doc stop quiet plain =
    rw
      (
        frame-packet l text doc,
        request-packet beyond noise sent text (checksum text) rest (checksum-lt text) stop quiet
            plain,
        (==_iff (checksum text) (checksum text)).1 refl,
      )
      refl

spoiled-checksum :
    (text : List ℕ)
    → checksum text ≢ 220
    → (checksum (text ++ b'$' ∷ text) == checksum text) ≡ false
spoiled-checksum text h = ground (
  arith,
  checksum-append text (b'$' ∷ text),
  checksum-total text,
  checksum-total (b'$' ∷ text),
  checksum-lt text,
)

collect-spoiled :
    (beyond text : List ℕ)
    → starts_digit beyond ≡ false
    → contains text b'#' ≡ false
    → checksum text ≢ 220
    → collect false beyond text (arrivals (packet (checksum text) text)) ≡ ok (none, [])
unfolding contains judge collect
collect-spoiled beyond text stop plain odd =
    ap (collect false beyond text) (sym (append-nil (arrivals (packet (checksum text) text))))
    ∙ collect-packet beyond text (b'$' ∷ text) (checksum text) [] (checksum-lt text) stop plain
    ∙ rw (spoiled-checksum text odd) refl

not_in_nil : contains [] b'$' ≡ false
unfolding contains
not_in_nil = refl

-- With no `#` in a text whose checksum is not 220, and behind the array of the checksum's digits
-- nothing that goes on as a digit: if the text comes with a wrong checksum and then once more with
-- the right one, `request` gives up at the end of the input with the empty line; it has
-- acknowledged nothing and has not asked for the packet again.
pub request-spoiled :
    (l : Library) (beyond sent text : List ℕ) (wrong : ℕ)
    → IsDocumented l
    → starts_digit beyond ≡ false
    → contains text b'#' ≡ false
    → wrong < 256
    → wrong ≢ checksum text
    → checksum text ≢ 220
    → request beyond (connected (arrivals (packet wrong text) ++ arrivals (frame l text)) sent)
      ≡ ok ([], connected [] sent)
unfolding requested judge
request-spoiled l beyond sent text wrong doc stop plain small differs odd =
    let first : (checksum text == wrong) ≡ false = ground arith in
    rw (frame-packet l text doc) (
      request-packet beyond [] sent text wrong (arrivals (packet (checksum text) text)) small stop
        not_in_nil plain
      ∙ rw (first, collect-spoiled beyond text stop plain odd) refl)
