-- ===== src/Dos/Psp.antt =====
-- dos/psp.h and dos/psp.cpp: the program segment prefix, 256 bytes in memory. The offsets are those
-- of the packed structure `psp_t`.
pub mod Commandline
use door86c.Common.{
  drop, ℕ, zero, suc, ◌+◌, ◌-◌, ◌*◌, ◌%◌, ◌/◌, ◌^◌, Bool, true, false, not, List, [], ◌∷◌, ◌++◌,
  length, u8, leb, ltb, ◌==◌, if◌then◌else◌,
}
use door86c.Machine.Exec.{Step, ok, ◌>>=◌, ◌>>◌}
use door86c.Dos.Exe.{store_bytes}

abbrev pub word_bytes : ℕ → List ℕ
word_bytes w = w % 256 ∷ w / 256 ∷ []

abbrev pub zeros : ℕ → List ℕ
zeros zero = []
zeros (suc n) = 0 ∷ zeros n

-- `initialize` of a PSP at an address.
unfoldable pub initialize : ℕ → Step
unfolding store_bytes
initialize psp = do
  store_bytes psp (zeros 256)
  store_bytes psp (0xcd ∷ 0x2a ∷ [])
  store_bytes (psp + 2) (word_bytes 0x9fff)
  store_bytes (psp + 64) (word_bytes 0x05)
  store_bytes (psp + 22) (word_bytes 0xfffe)

-- `psp->environ_seg = seg`
unfoldable pub set_environ_seg : ℕ → ℕ → Step
unfolding store_bytes
set_environ_seg psp seg = store_bytes (psp + 44) (word_bytes seg)

-- Does the list end in 0x0d?
abbrev pub ends_in_cr : List ℕ → Bool
ends_in_cr [] = false
ends_in_cr (c ∷ []) = c == 0x0d
ends_in_cr (c ∷ d ∷ cs) = ends_in_cr (d ∷ cs)

-- The arguments as the PSP holds them: closed by 0x0d, and the last 126 bytes of that.
unfoldable pub trimmed_args : List ℕ → List ℕ
trimmed_args args =
    let closed = if ends_in_cr args then args else args ++ 0x0d ∷ [] in
    if ltb 126 (length closed) then drop (length closed - 126) closed else closed

-- What `strcpy` copies: up to the first 0, and a 0.
unfoldable pub c_string : List ℕ → List ℕ
c_string [] = 0 ∷ []
c_string (c ∷ cs) = if c == 0 then 0 ∷ [] else c ∷ c_string cs

unfoldable pub set_commandline : ℕ → List ℕ → Step
unfolding store_bytes trimmed_args c_string
set_commandline psp args = do
  store_bytes (psp + 128) (u8 (length (trimmed_args args)) ∷ [])
  store_bytes (psp + 129) (c_string (trimmed_args args))
