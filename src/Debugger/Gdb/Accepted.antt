-- ===== src/Debugger/Gdb/Accepted.antt =====
-- debugger/gdb_debugger.cpp: what `GdbRemote::request` accepts, of whatever comes in.
use mathlib.Core.List.{append_assoc}
use door86c.Common.{
  ℕ, ◌≡◌, ◌≢◌, refl, sym, ap, ◌∙◌, Bool, true, false, Option, none, some, List, [], ◌∷◌, ◌++◌, ◌==◌,
  Bool-cases, inl, inr, ◌⊎◌, codes, contains,
}
use door86c.Debugger.Gdb.Library.{Result, ok, thrown}
use door86c.Debugger.Gdb.Remote.{Arrival, arrived, pause, Remote, send, ack, skip_to, wait_for_char}
use door86c.Debugger.Gdb.Request.{
  validate_checksum, up_to_zero, judge, collect, requested, started, request,
}
use door86c.Debugger.Gdb.Packets.{connected}

-- The two digits that a line was accepted with, and where they stood.
pub record Closed (beyond line : List ℕ) (xs rest : List Arrival) : Type 0 where
  pub before : List Arrival
  pub high : ℕ
  pub low : ℕ
  pub read_from : xs ≡ before ++ (arrived high ∷ arrived low ∷ rest)
  pub valid : validate_checksum line (up_to_zero (high ∷ low ∷ beyond)) ≡ ok true

judged :
    {A : Type 0} (o : Result Bool) (a b : A) (more : Result A)
    → judge o a more ≡ ok b
    → ((o ≡ ok true) × (a ≡ b)) ⊎ ((o ≡ ok false) × (more ≡ ok b))
unfolding judge
judged (ok true) a b more e = inl (refl, cc)
judged (ok false) a b more e = inr (refl, e)
judged (thrown x) a b more e = cc

later :
    {beyond line : List ℕ} {xs rest : List Arrival} (x : Arrival)
    → Closed beyond line xs rest
    → Closed beyond line (x ∷ xs) rest
later x c = record {
  before = x ∷ c.before;
  high = c.high;
  low = c.low;
  read_from = ap (λ t. x ∷ t) c.read_from;
  valid = c.valid;
}

closed_here :
    (beyond line text : List ℕ) (a b : ℕ) (xs rest : List Arrival)
    → validate_checksum line (up_to_zero (a ∷ b ∷ beyond)) ≡ ok true
    → line ≡ text
    → xs ≡ rest
    → Closed beyond text (arrived a ∷ arrived b ∷ xs) rest
closed_here beyond line text a b xs rest valid same_line same_rest = record {
  before = [];
  high = a;
  low = b;
  read_from = ap (λ t. arrived a ∷ arrived b ∷ t) same_rest;
  valid = ap (λ t. validate_checksum t (up_to_zero (a ∷ b ∷ beyond))) (sym same_line) ∙ valid;
}

collect-Closed :
    (closing : Bool) (beyond line : List ℕ) (xs : List Arrival) (text : List ℕ)
    (rest : List Arrival)
    → collect closing beyond line xs ≡ ok (some text, rest)
    → Closed beyond text xs rest
unfolding collect
collect-Closed false beyond line [] text rest e = cc
collect-Closed true beyond line [] text rest e = cc
collect-Closed false beyond line (pause ∷ xs) text rest e =
    later pause (collect-Closed false beyond line xs text rest e)
collect-Closed true beyond line (pause ∷ xs) text rest e =
    later pause (collect-Closed true beyond line xs text rest e)
collect-Closed false beyond line (arrived c ∷ xs) text rest e = elim (Bool-cases (c == b'#')) [
  | inl mark ↦ later (arrived c) (collect-Closed true beyond line xs text rest (rw mark at e))
  | inr other ↦
      later (arrived c) (collect-Closed false beyond (line ++ c ∷ []) xs text rest (rw other at e))
]
collect-Closed true beyond line (arrived a ∷ []) text rest e = cc
collect-Closed true beyond line (arrived a ∷ pause ∷ xs) text rest e = cc
collect-Closed true beyond line (arrived a ∷ arrived b ∷ xs) text rest e =
    elim (judged (validate_checksum line (up_to_zero (a ∷ b ∷ beyond))) (some line, xs)
      (some text, rest) (collect false beyond line xs) e) [
        | inl (valid, taken) ↦ closed_here beyond line text a b xs rest valid (cc) (cc)
        | inr (invalid, more) ↦
            later (arrived a)
              (later (arrived b) (collect-Closed false beyond line xs text rest more))
      ]

behind :
    {beyond line : List ℕ} {xs ys rest : List Arrival} (before : List Arrival)
    → xs ≡ before ++ ys
    → Closed beyond line ys rest
    → Closed beyond line xs rest
behind before e c = record {
  before = before ++ c.before;
  high = c.high;
  low = c.low;
  read_from = e ∙ ap (λ t. before ++ t) c.read_from ∙ sym (append_assoc before c.before _);
  valid = c.valid;
}

skip_to-suffix :
    (expected : List ℕ) (xs : List Arrival)
    → (before : List Arrival) × (xs ≡ before ++ (skip_to expected xs).1)
unfolding skip_to
skip_to-suffix expected [] = ([], refl)
skip_to-suffix expected (pause ∷ xs) =
    let (before, e) = skip_to-suffix expected xs in (pause ∷ before, ap (λ t. pause ∷ t) e)
skip_to-suffix expected (arrived c ∷ xs) = elim (Bool-cases (contains expected c)) [
  | inl found ↦ (arrived c ∷ [], rw found refl)
  | inr other ↦
      let (before, e) = skip_to-suffix expected xs in
      (arrived c ∷ before, rw other (ap (λ t. arrived c ∷ t) e))
]

-- A line and what is left: the checksum of the line was behind it, only that far has been read, and
-- one `+` has been sent.
pub record Accepted (beyond line : List ℕ) (xs : List Arrival) (sent : List ℕ) (r : Remote)
    : Type 0 where
  pub rest : List Arrival
  pub closed : Closed beyond line xs rest
  pub left : r ≡ connected rest (sent ++ codes "+")

requested-Accepted :
    (beyond sent line : List ℕ) (xs ys before : List Arrival) (r : Remote)
    (o : Result (Option (List ℕ) × List Arrival))
    → xs ≡ before ++ ys
    → collect false beyond [] ys ≡ o
    → requested (connected ys sent) o ≡ ok (line, r)
    → line ≢ []
    → Accepted beyond line xs sent r
unfolding requested ack send
requested-Accepted beyond sent line xs ys before r (ok (none, rest)) suffix c e some_line =
    absurd (some_line (cc))
requested-Accepted beyond sent line xs ys before r (ok (some text, rest)) suffix c e some_line =
    let same : text ≡ line = cc in
    record {
      rest = rest;
      closed =
          behind before suffix
            (collect-Closed false beyond [] ys line rest (c ∙ ap (λ t. ok (some t, rest)) same));
      left = cc;
    }
requested-Accepted beyond sent line xs ys before r (thrown x) suffix c e some_line = cc

empty_line :
    (line : List ℕ) (r s : Remote)
    → ◌≡◌ {A = Result (List ℕ × Remote)} (ok ([], s)) (ok (line, r))
    → line ≡ []
empty_line line r s e = cc

started-Accepted :
    (beyond sent line : List ℕ) (xs ys before : List Arrival) (r : Remote) (ch : ℕ)
    → xs ≡ before ++ ys
    → started beyond (ch, connected ys sent) ≡ ok (line, r)
    → line ≢ []
    → Accepted beyond line xs sent r
unfolding started
started-Accepted beyond sent line xs ys before r ch suffix e some_line =
    elim (Bool-cases (ch == b'$')) [
      | inl mark ↦
          requested-Accepted beyond sent line xs ys before r (collect false beyond [] ys) suffix
            refl (rw mark at e) some_line
      | inr other ↦ absurd (some_line (empty_line line r (connected ys sent) (rw other at e)))
    ]

-- Whatever comes in on an open connection: if `request` gives a line that is not empty, the two
-- characters read last, with what stands in memory behind them, passed for the checksum of that
-- line; it has sent one `+` and nothing else, and all that came behind them is still to be read.
pub request-Accepted :
    (beyond sent line : List ℕ) (xs : List Arrival) (r : Remote)
    → request beyond (connected xs sent) ≡ ok (line, r)
    → line ≢ []
    → Accepted beyond line xs sent r
unfolding request wait_for_char
request-Accepted beyond sent line xs r e some_line =
    let (before, suffix) = skip_to-suffix (b'$' ∷ []) xs in
    started-Accepted beyond sent line xs (skip_to (b'$' ∷ []) xs).1 before r
      (skip_to (b'$' ∷ []) xs).0 suffix e some_line
