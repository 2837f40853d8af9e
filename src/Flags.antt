-- ===== src/Flags.antt =====
-- cpu/x86/regs.h, flags_t: the 16-bit flags register and its masks.
pub mod Laws
pub mod Popcount
use door86c.Common.{
  ℕ, zero, suc, ◌+◌, ◌-◌, ◌*◌, ◌/◌, ◌%◌, ◌^◌, bit_and, bit_or, Bool, true, false, nonzero,
  if◌then◌else◌, ◌==◌,
}

-- The nine named flags: CF, PF, AF, ZF, SF, TF, IF, DF, OF.
pub data Flag : Type 0 where
  carry parity adjust zero_flag sign trap interrupt direction overflow : Flag

unfoldable pub mask : Flag → ℕ
mask carry = 0x0001
mask parity = 0x0004
mask adjust = 0x0010
mask zero_flag = 0x0040
mask sign = 0x0080
mask trap = 0x0100
mask interrupt = 0x0200
mask direction = 0x0400
mask overflow = 0x0800

-- `cflag()` and its eight companions.
unfoldable pub read : Flag → ℕ → Bool
unfolding mask
read f value = nonzero (bit_and value (mask f))

-- `cflag(bool)` and its eight companions. `~CF` is an `int`; the result is cut to 16 bits.
unfoldable pub write : Flag → Bool → ℕ → ℕ
unfolding mask
write f b value = if b then bit_or value (mask f) else bit_and value (0xffff - mask f)

unfoldable pub reset : ℕ
reset = 0xf002

abbrev set : ℕ → ℕ → ℕ
set flg value = bit_or value flg

-- `value_ &= !flg`: a logical not, so that any flag mask leaves nothing.
unfoldable pub clear : ℕ → ℕ → ℕ
clear flg value = bit_and value (if flg == 0 then 1 else 0)

abbrev test : ℕ → ℕ → Bool
test flg value = nonzero (bit_and value flg)

-- cpu/memory_bits.h: how many bits are set, by Kernighan's loop. The fuel bounds the rounds.
unfoldable pub kern_popcount : ℕ → ℕ → ℕ → ℕ
kern_popcount zero n c = c
kern_popcount (suc fuel) n c =
    let rest = kern_popcount fuel (bit_and n (n - 1)) (c + 1) in if nonzero n then rest else c
