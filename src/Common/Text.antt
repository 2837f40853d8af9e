-- ===== src/Common/Text.antt =====
-- Texts as lists of byte codes, the way the C++ code walks a `std::string`.
use Prim.Native.Char.{code}
use Prim.Native.String.{String}
use Prim.Native.Nat.{ℕ}
use mathlib.Core.Bool.{Bool, true, false, ◌&&◌, ◌||◌}
use mathlib.Core.List.{List, [], ◌∷◌}
use door86c.Common.Tests.{◌==◌}

-- The codes of a literal.
abbrev pub codes : String → List ℕ
codes String.[] = []
codes (String.◌∷◌ c s) = code c ∷ codes s

-- `==` of two strings.
unfoldable pub equal : List ℕ → List ℕ → Bool
equal [] [] = true
equal [] (d ∷ ds) = false
equal (c ∷ cs) [] = false
equal (c ∷ cs) (d ∷ ds) = c == d && equal cs ds

-- Is a character one of these?
unfoldable pub contains : List ℕ → ℕ → Bool
contains [] c = false
contains (d ∷ ds) c = d == c || contains ds c
