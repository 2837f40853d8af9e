-- ===== src/Dos/Mcb.antt =====
-- dos/mcb.h and dos/dos.cpp, `DosMemoryManager::write_mcb`: a block's control block in memory, of
-- the 24 bytes of `mcb_t`; and cpu/memory.h, `ptr_zero`.
use door86c.Common.{ℕ, zero, suc, ◌+◌, ◌*◌, List, [], ◌∷◌, ◌==◌, leb, if◌then◌else◌, length, codes}
use door86c.Memory.{abs_memory}
use door86c.Machine.Exec.{Step, fault, fatal, ◌>>◌}
use door86c.Dos.MemoryManager.{MemoryBlock}
use door86c.Dos.Exe.{store_bytes}
use door86c.Dos.Psp.{word_bytes, zeros}

-- `ptr_zero<T>` for a `T` of so many bytes: it ends the program if they are not inside of the memory.
unfoldable pub ptr_zero : ℕ → ℕ → ℕ → Step
unfolding store_bytes abs_memory
ptr_zero bytes seg off s =
    if leb (abs_memory seg off + bytes) s.memory.size
    then store_bytes (abs_memory seg off) (zeros bytes) s
    else fault fatal

-- `strncpy` of `n` characters: zeros behind the end of the text.
unfoldable pub strncpy : ℕ → List ℕ → List ℕ
strncpy zero cs = []
strncpy (suc n) [] = 0 ∷ strncpy n []
strncpy (suc n) (c ∷ cs) = if c == 0 then zeros (suc n) else c ∷ strncpy n cs

abbrev pub blanks : ℕ → List ℕ
blanks zero = []
blanks (suc n) = b' ' ∷ blanks n

-- `std::min<int>(b.prog_name.size(), 8)`
abbrev pub at_most_eight : ℕ → ℕ
at_most_eight n = if leb n 8 then n else 8

unfoldable pub write_mcb : MemoryBlock → Step
unfolding ptr_zero store_bytes strncpy
write_mcb b = do
  let at = b.start * 0x10
  ptr_zero 24 b.start 0
  store_bytes at (b'M' ∷ [])
  store_bytes (at + 3) (word_bytes b.size)
  store_bytes (at + 1) (word_bytes b.owner)
  store_bytes (at + 16) (blanks 8)
  store_bytes (at + 16) (strncpy (at_most_eight (length (codes b.prog_name))) (codes b.prog_name))
