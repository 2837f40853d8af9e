-- ===== src/Debugger/Gdb/Hex.antt =====
-- debugger/gdb_debugger.cpp, `to_intel_format_*`: numbers as the hexadecimal text of their bytes, the
-- lowest byte first.
use door86c.Common.{ℕ, ◌+◌, ◌*◌, ◌/◌, ◌^◌, List, ◌++◌, u8, u16, u32, bit_and, codes}
use door86c.Debugger.Gdb.Library.{Library}

module _ (l : Library) where
  unfoldable pub to_intel_format_hex16 : ℕ → List ℕ
  to_intel_format_hex16 d =
      l.hex02 (bit_and d 0xff) ++ (l.hex02 (bit_and d 0xff00 / 2 ^ 8) ++ codes "0000")

  -- The four bytes of a 32-bit number.
  unfoldable pub four_bytes : ℕ → List ℕ
  four_bytes d =
      let b0 = u8 (bit_and d 0x000000ff) in
      let b1 = u8 (bit_and d 0x0000ff00 / 2 ^ 8) in
      let b2 = u8 (bit_and d 0x00ff0000 / 2 ^ 16) in
      let b3 = u8 (bit_and d 0xff000000 / 2 ^ 24) in
      l.hex02 b0 ++ (l.hex02 b1 ++ (l.hex02 b2 ++ l.hex02 b3))

  -- Its parameter is a `uint16_t`.
  unfoldable pub to_intel_format_hex32 : ℕ → List ℕ
  unfolding four_bytes
  to_intel_format_hex32 d = four_bytes (u16 d)

  unfoldable pub to_intel_format_seg_off : ℕ → ℕ → List ℕ
  unfolding four_bytes
  to_intel_format_seg_off seg off = four_bytes (u32 (seg * 0x10 + off))
