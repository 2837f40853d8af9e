-- ===== src/Debugger/Gdb/Checksums.antt =====
-- debugger/gdb_debugger.cpp: the checksum of a packet, printed and read again.
use door86c.Common.{
  ℕ, ◌+◌, ◌*◌, ◌/◌, ◌%◌, ◌<◌, ◌≡◌, refl, ◌∙◌, ap, arith, false, some, List, [], ◌∷◌, ◌++◌, ◌==◌, u8,
  u32,
}
use door86c.Common.Bits.{bit_and_mask}
use door86c.Debugger.Gdb.Library.{hex_digit, ok}
use door86c.Debugger.Gdb.Remote.{sum_bytes, checksum}
use door86c.Debugger.Gdb.Request.{
  digit_value, read_digits, starts_digit, is_space, skip_spaces, skip_prefix, read_number,
  read_signed, stoul, compare_checksum, validate_checksum, up_to_zero,
}

pub digit_value-hex_digit : (d : ℕ) → d < 16 → digit_value (hex_digit d) ≡ some d
unfolding digit_value
digit_value-hex_digit d h = ground arith

hex_digit_plain :
    (d : ℕ)
    → d < 16
    → (is_space (hex_digit d) ≡ false)
      × ((hex_digit d == b'-') ≡ false)
      × ((hex_digit d == b'+') ≡ false)
      × ((hex_digit d == b'x') ≡ false)
      × ((hex_digit d == b'X') ≡ false)
      × ((hex_digit d == 0) ≡ false)
unfolding is_space
hex_digit_plain d h =
    (ground arith, ground arith, ground arith, ground arith, ground arith, ground arith)

read_digits-stop : (n : ℕ) (rest : List ℕ) → starts_digit rest ≡ false → read_digits n rest ≡ n
unfolding read_digits starts_digit
read_digits-stop n [] h = refl
read_digits-stop n (c ∷ cs) h = ground arith

skip_spaces-plain : (c : ℕ) (cs : List ℕ) → is_space c ≡ false → skip_spaces (c ∷ cs) ≡ c ∷ cs
unfolding skip_spaces
skip_spaces-plain c cs h = rw h refl

read_signed-plain :
    (c : ℕ) (cs : List ℕ)
    → (c == b'-') ≡ false
    → (c == b'+') ≡ false
    → read_signed (c ∷ cs) ≡ read_number false (skip_prefix (c ∷ cs))
unfolding read_signed
read_signed-plain c cs minus plus = ground arith

skip_prefix-plain :
    (z x : ℕ) (cs : List ℕ)
    → (x == b'x') ≡ false
    → (x == b'X') ≡ false
    → skip_prefix (z ∷ x ∷ cs) ≡ z ∷ x ∷ cs
unfolding skip_prefix
skip_prefix-plain z x cs small capital = ground arith

read_number-two :
    (c1 c2 a b : ℕ) (rest : List ℕ)
    → digit_value c1 ≡ some a
    → digit_value c2 ≡ some b
    → a < 16
    → b < 16
    → starts_digit rest ≡ false
    → read_number false (c1 ∷ c2 ∷ rest) ≡ ok (a * 16 + b)
unfolding read_number read_digits starts_digit
read_number-two c1 c2 a b rest e1 e2 ha hb stop =
    ground (arith, e1, e2, read_digits-stop ((0 * 16 + a) * 16 + b) rest stop)

-- Two digits, and behind them something that is no digit.
stoul-hex :
    (a b : ℕ) (rest : List ℕ)
    → a < 16
    → b < 16
    → starts_digit rest ≡ false
    → stoul (hex_digit a ∷ hex_digit b ∷ rest) ≡ ok (a * 16 + b)
unfolding stoul
stoul-hex a b rest ha hb stop =
    let (space, minus, plus, x, capital, nul) = hex_digit_plain a ha in
    let (space', minus', plus', x', capital', nul') = hex_digit_plain b hb in
    ap read_signed (skip_spaces-plain (hex_digit a) (hex_digit b ∷ rest) space)
    ∙ read_signed-plain (hex_digit a) (hex_digit b ∷ rest) minus plus
    ∙ ap (read_number false) (skip_prefix-plain (hex_digit a) (hex_digit b) rest x' capital')
    ∙ read_number-two (hex_digit a) (hex_digit b) a b rest (digit_value-hex_digit a ha)
        (digit_value-hex_digit b hb) ha hb stop

pub checksum-lt : (s : List ℕ) → checksum s < 256
unfolding checksum
checksum-lt s = omega (arith, bit_and_mask 8 (sum_bytes 0 s))

up_to_zero-stop :
    (beyond : List ℕ) → starts_digit beyond ≡ false → starts_digit (up_to_zero beyond) ≡ false
unfolding up_to_zero starts_digit
up_to_zero-stop [] h = refl
up_to_zero-stop (c ∷ cs) h = ground arith

up_to_zero-hex :
    (a b : ℕ) (beyond : List ℕ)
    → a < 16
    → b < 16
    → up_to_zero (hex_digit a ∷ hex_digit b ∷ beyond)
      ≡ hex_digit a ∷ hex_digit b ∷ up_to_zero beyond
unfolding up_to_zero
up_to_zero-hex a b beyond ha hb = ground arith

-- Two printed digits are accepted exactly if they are the checksum.
pub validate_checksum-hex :
    (s : List ℕ) (n : ℕ) (beyond : List ℕ)
    → n < 256
    → starts_digit beyond ≡ false
    → validate_checksum s (up_to_zero (hex_digit (n / 16) ∷ hex_digit (n % 16) ∷ beyond))
      ≡ ok (checksum s == n)
unfolding validate_checksum compare_checksum
validate_checksum-hex s n beyond h stop =
    let digits : n / 16 * 16 + n % 16 ≡ n = omega arith in
    rw
      (
        up_to_zero-hex (n / 16) (n % 16) beyond (omega arith) (omega arith),
        stoul-hex (n / 16) (n % 16) (up_to_zero beyond) (omega arith) (omega arith)
            (up_to_zero-stop beyond stop),
        digits,
      )
      refl

-- The sum of the bytes with no wrap.
abbrev pub total : List ℕ → ℕ
total [] = 0
total (c ∷ cs) = u8 c + total cs

total-append : (xs ys : List ℕ) → total (xs ++ ys) ≡ total xs + total ys
total-append [] ys = omega arith
total-append (x ∷ xs) ys = omega (arith, total-append xs ys)

sum_bytes-total : (n : ℕ) (cs : List ℕ) → sum_bytes n cs % 256 ≡ (n + total cs) % 256
unfolding sum_bytes
sum_bytes-total n [] = omega arith
sum_bytes-total n (c ∷ cs) = omega (arith, sum_bytes-total (u32 (n + u8 c)) cs)

pub checksum-total : (s : List ℕ) → checksum s ≡ total s % 256
unfolding checksum
checksum-total s = omega (arith, bit_and_mask 8 (sum_bytes 0 s), sum_bytes-total 0 s)

pub checksum-append : (xs ys : List ℕ) → checksum (xs ++ ys) ≡ (checksum xs + checksum ys) % 256
checksum-append xs ys =
    omega
      (arith, total-append xs ys, checksum-total xs, checksum-total ys, checksum-total (xs ++ ys))
