-- ===== src/Debugger/Gdb/Request.antt =====
-- debugger/gdb_debugger.cpp: `validate_checksum` and `GdbRemote::request`.
use door86c.Common.{
  ℕ, ◌+◌, ◌-◌, ◌*◌, ◌^◌, ◌%◌, Bool, true, false, ◌&&◌, ◌||◌, Option, none, some, List, [], ◌∷◌,
  ◌++◌, ltb, leb, ◌==◌, if◌then◌else◌,
}
use door86c.Debugger.Gdb.Library.{
  Result, ok, thrown, invalid_argument, out_of_range, length_error, undefined,
}
use door86c.Debugger.Gdb.Remote.{Arrival, arrived, pause, Remote, ack, checksum, wait_for_char}

-- The value of a hexadecimal digit.
unfoldable pub digit_value : ℕ → Option ℕ
digit_value c =
    if leb b'0' c && leb c b'9'
    then some (c - b'0')
    else if leb b'A' c && leb c b'F'
    then some (c - 55)
    else if leb b'a' c && leb c b'f'
    then some (c - 87)
    else none

abbrev next_digit : (ℕ → ℕ) → ℕ → Option ℕ → ℕ
next_digit go_on n none = n
next_digit go_on n (some d) = go_on (n * 16 + d)

unfoldable pub read_digits : ℕ → List ℕ → ℕ
unfolding digit_value
read_digits n [] = n
read_digits n (c ∷ cs) = next_digit (λ m. read_digits m cs) n (digit_value c)

abbrev is_some : Option ℕ → Bool
is_some none = false
is_some (some d) = true

unfoldable pub starts_digit : List ℕ → Bool
unfolding digit_value
starts_digit [] = false
starts_digit (c ∷ cs) = is_some (digit_value c)

unfoldable pub is_space : ℕ → Bool
is_space c = c == 32 || (leb 9 c && leb c 13)

unfoldable pub skip_spaces : List ℕ → List ℕ
unfolding is_space
skip_spaces [] = []
skip_spaces (c ∷ cs) = if is_space c then skip_spaces cs else c ∷ cs

-- Behind `0x`, if a digit stands there.
unfoldable pub skip_prefix : List ℕ → List ℕ
unfolding starts_digit
skip_prefix [] = []
skip_prefix (z ∷ []) = z ∷ []
skip_prefix (z ∷ x ∷ cs) =
    if z == b'0' && (x == b'x' || x == b'X') && starts_digit cs then cs else z ∷ x ∷ cs

-- The number at the head of a text without its sign.
unfoldable pub read_number : Bool → List ℕ → Result ℕ
unfolding starts_digit read_digits
read_number negative cs =
    if starts_digit cs
    then (let n = read_digits 0 cs in
        if ltb n (2 ^ 64)
        then ok (if negative then (2 ^ 64 - n) % 2 ^ 64 else n)
        else thrown out_of_range)
    else thrown invalid_argument

unfoldable pub read_signed : List ℕ → Result ℕ
unfolding read_number skip_prefix
read_signed [] = thrown invalid_argument
read_signed (c ∷ cs) =
    if c == b'-'
    then read_number true (skip_prefix cs)
    else if c == b'+'
    then read_number false (skip_prefix cs)
    else read_number false (skip_prefix (c ∷ cs))

-- `std::stoul` at base 16, on a host whose `unsigned long` has 64 bits.
unfoldable pub stoul : List ℕ → Result ℕ
unfolding read_signed skip_spaces
stoul s = read_signed (skip_spaces s)

-- The `try` block, for what `stoul` gives.
unfoldable pub compare_checksum : ℕ → Result ℕ → Result Bool
compare_checksum cur (ok chk) = ok (cur == chk)
compare_checksum cur (thrown invalid_argument) = ok false
compare_checksum cur (thrown out_of_range) = thrown out_of_range
compare_checksum cur (thrown length_error) = thrown length_error
compare_checksum cur (thrown undefined) = thrown undefined

unfoldable pub validate_checksum : List ℕ → List ℕ → Result Bool
unfolding stoul compare_checksum checksum
validate_checksum s cs = compare_checksum (checksum s) (stoul cs)

-- `char cs[2]` as a `std::string`: it has no 0 of its own, so it goes on with the bytes that follow
-- it in memory, up to the first 0.
unfoldable pub up_to_zero : List ℕ → List ℕ
up_to_zero [] = []
up_to_zero (c ∷ cs) = if c == 0 then [] else c ∷ up_to_zero cs

-- The loop of `request`, whose two `recv` are told apart by `closing`; `none` is a return of `{}`.
unfoldable pub judge {ℓ} : {A : Type ℓ} → Result Bool → A → Result A → Result A
judge (ok true) accepted more = ok accepted
judge (ok false) accepted more = more
judge (thrown e) accepted more = thrown e

unfoldable pub collect :
    Bool → List ℕ → List ℕ → List Arrival → Result (Option (List ℕ) × List Arrival)
unfolding judge validate_checksum up_to_zero
collect closing beyond line [] = ok (none, [])
collect closing beyond line (pause ∷ xs) = collect closing beyond line xs
collect false beyond line (arrived ch ∷ xs) =
    let checked = collect true beyond line xs in
    let more = collect false beyond (line ++ ch ∷ []) xs in if ch == b'#' then checked else more
collect true beyond line (arrived a ∷ []) = ok (none, [])
collect true beyond line (arrived a ∷ pause ∷ xs) = ok (none, pause ∷ xs)
collect true beyond line (arrived a ∷ arrived b ∷ xs) =
    judge (validate_checksum line (up_to_zero (a ∷ b ∷ beyond))) (some line, xs)
      (collect false beyond line xs)

unfoldable pub requested :
    Remote → Result (Option (List ℕ) × List Arrival) → Result (List ℕ × Remote)
unfolding ack
requested r (ok (none, rest)) = ok ([], record r { incoming = rest })
requested r (ok (some line, rest)) = ok (line, ack (record r { incoming = rest }))
requested r (thrown e) = thrown e

unfoldable pub started : List ℕ → ℕ × Remote → Result (List ℕ × Remote)
unfolding requested collect
started beyond (ch, r) =
    if ch == b'$' then requested r (collect false beyond [] r.incoming) else ok ([], r)

-- `beyond` is what stands in memory behind the array `cs`.
unfoldable pub request : List ℕ → Remote → Result (List ℕ × Remote)
unfolding started wait_for_char
request beyond r = started beyond (wait_for_char (b'$' ∷ []) r)
