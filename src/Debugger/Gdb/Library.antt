-- ===== src/Debugger/Gdb/Library.antt =====
-- What the GDB client uses of libraries outside of the repository, and the errors that leave it.
use door86c.Common.{
  ℕ, ◌+◌, ◌-◌, ◌/◌, ◌%◌, ◌<◌, ◌≡◌, ◌↔◌, Bool, true, List, [], ◌∷◌, ◌++◌, ltb, if◌then◌else◌,
}

-- The digits 0 to 9 and A to F.
abbrev pub hex_digit : ℕ → ℕ
hex_digit d = if ltb d 10 then b'0' + d else b'A' + (d - 10)

-- `{:02X}` of fmt::format, and of wwiv/core starts_with, SplitString, and to_number at base 16 as a
-- `uint32_t` and as an `int`, whose 32 bits are given.
pub record Library : Type 0 where
  pub hex02 : ℕ → List ℕ
  pub starts_with : List ℕ → List ℕ → Bool
  pub split_string : List ℕ → List ℕ → List (List ℕ)
  pub to_u32 : List ℕ → ℕ
  pub to_int : List ℕ → ℕ

-- What is documented of them: `{:02X}` prints a byte as two digits, and `starts_with` looks for a prefix.
pub record IsDocumented (l : Library) : Type 0 where
  pub hex02_byte : (n : ℕ) → n < 256 → l.hex02 n ≡ hex_digit (n / 16) ∷ hex_digit (n % 16) ∷ []
  pub starts_with_iff :
      (s p : List ℕ) → (l.starts_with s p ≡ true) ↔ ((rest : List ℕ) × (s ≡ p ++ rest))

-- An exception of the standard library, or behaviour that C++ leaves undefined.
pub data Thrown : Type 0 where
  invalid_argument out_of_range length_error undefined : Thrown

pub data Result {ℓ} (A : Type ℓ) : Type ℓ where
  ok : A → Result A
  thrown : Thrown → Result A

infixl 5 ◌>>=◌
abbrev pub ◌>>=◌ {ℓ κ} : {A : Type ℓ} {B : Type κ} → Result A → (A → Result B) → Result B
ok a >>= f = f a
thrown e >>= f = thrown e
