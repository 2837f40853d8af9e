-- ===== src/Memory/Laws.antt =====
-- Reads after writes, and what the two block operations change.
use door86c.Common.{ℕ, ◌+◌, ◌/◌, ◌%◌, ◌^◌, ◌≤◌, ◌<◌, ◌≡◌, ◌⊎◌, refl, none, some, arith}
use door86c.Memory.{Memory, Width, byte, word, abs_memory, get, set, update}

-- How many bytes a value takes, and the values that fit.
abbrev pub bytes_of : Width → ℕ
bytes_of byte = 1
bytes_of word = 2

abbrev pub limit : Width → ℕ
limit byte = 2 ^ 8
limit word = 2 ^ 16

-- Memory after a write.
abbrev pub stored : Width → Memory → ℕ → ℕ → Memory
stored byte m loc v = record m { cells = update m.cells loc v }
stored word m loc v = record m { cells = update (update m.cells loc (v % 256)) (loc + 1) (v / 256) }

-- An access succeeds exactly if its last byte lies in memory, a write changes no size, what was
-- written is read back, and every byte outside of the place written stays.
pub set-get :
    (w : Width) (m : Memory) (seg off v : ℕ)
    → v < limit w
    → abs_memory seg off + bytes_of w ≤ m.size
    → (m' : Memory) × (set w m seg off v ≡ some m')
      × (get w m' seg off ≡ some v)
      × (m'.size ≡ m.size)
      × ((i : ℕ)
          → (i < abs_memory seg off) ⊎ (abs_memory seg off + bytes_of w ≤ i)
          → m'.cells i ≡ m.cells i)
unfolding set get
set-get byte m seg off v hv inside =
    (stored byte m (abs_memory seg off) v, ground arith, ground arith, refl, λ i out. ground arith)
set-get word m seg off v hv inside =
    (stored word m (abs_memory seg off) v, ground arith, ground arith, refl, λ i out. ground arith)

-- Outside of memory no access succeeds.
pub access-none :
    (w : Width) (m : Memory) (seg off v : ℕ)
    → m.size < abs_memory seg off + bytes_of w
    → (get w m seg off ≡ none) × (set w m seg off v ≡ none)
unfolding set get
access-none byte m seg off v h = (ground arith, ground arith)
access-none word m seg off v h = (ground arith, ground arith)
