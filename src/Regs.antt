-- ===== src/Regs.antt =====
-- cpu/x86/regs.h: the general registers, which share storage in the union of `regs16` and
-- `regs8`, and the segment registers. The union is eight 16-bit words; on the little-endian
-- hosts that the program is built for, `al` is the low byte of `ax` and `ah` the high one.
-- A register number that no case names is `none`: the code logs FATAL there.
pub mod Laws
use door86c.Common.{ℕ, ◌+◌, ◌*◌, ◌/◌, ◌%◌, Option, none, some, ◌==◌, if◌then◌else◌}

pub record Regs : Type 0 where
  pub ax : ℕ
  pub cx : ℕ
  pub dx : ℕ
  pub bx : ℕ
  pub sp : ℕ
  pub bp : ℕ
  pub si : ℕ
  pub di : ℕ

unfoldable pub get16 : Regs → ℕ → Option ℕ
get16 r n =
    if n == 0
    then some r.ax
    else if n == 1
    then some r.cx
    else if n == 2
    then some r.dx
    else if n == 3
    then some r.bx
    else if n == 4
    then some r.sp
    else if n == 5
    then some r.bp
    else if n == 6
    then some r.si
    else if n == 7
    then some r.di
    else none

unfoldable pub set16 : Regs → ℕ → ℕ → Option Regs
set16 r n v =
    if n == 0
    then some (record r { ax = v })
    else if n == 1
    then some (record r { cx = v })
    else if n == 2
    then some (record r { dx = v })
    else if n == 3
    then some (record r { bx = v })
    else if n == 4
    then some (record r { sp = v })
    else if n == 5
    then some (record r { bp = v })
    else if n == 6
    then some (record r { si = v })
    else if n == 7
    then some (record r { di = v })
    else none

-- The two bytes of a word, and a word with one of them replaced.
abbrev pub low : ℕ → ℕ
low w = w % 256

abbrev pub high : ℕ → ℕ
high w = w / 256

abbrev pub with_low : ℕ → ℕ → ℕ
with_low w v = w / 256 * 256 + v

abbrev pub with_high : ℕ → ℕ → ℕ
with_high w v = v * 256 + w % 256

unfoldable pub get8 : Regs → ℕ → Option ℕ
get8 r n =
    if n == 0
    then some (low r.ax)
    else if n == 1
    then some (low r.cx)
    else if n == 2
    then some (low r.dx)
    else if n == 3
    then some (low r.bx)
    else if n == 4
    then some (high r.ax)
    else if n == 5
    then some (high r.cx)
    else if n == 6
    then some (high r.dx)
    else if n == 7
    then some (high r.bx)
    else none

unfoldable pub set8 : Regs → ℕ → ℕ → Option Regs
set8 r n v =
    if n == 0
    then some (record r { ax = with_low r.ax v })
    else if n == 1
    then some (record r { cx = with_low r.cx v })
    else if n == 2
    then some (record r { dx = with_low r.dx v })
    else if n == 3
    then some (record r { bx = with_low r.bx v })
    else if n == 4
    then some (record r { ax = with_high r.ax v })
    else if n == 5
    then some (record r { cx = with_high r.cx v })
    else if n == 6
    then some (record r { dx = with_high r.dx v })
    else if n == 7
    then some (record r { bx = with_high r.bx v })
    else none

pub record Sregs : Type 0 where
  pub cs : ℕ
  pub es : ℕ
  pub ds : ℕ
  pub fs : ℕ
  pub gs : ℕ
  pub ss : ℕ

unfoldable pub get_sreg : Sregs → ℕ → Option ℕ
get_sreg s n =
    if n == 0
    then some s.es
    else if n == 1
    then some s.cs
    else if n == 2
    then some s.ss
    else if n == 3
    then some s.ds
    else if n == 4
    then some s.fs
    else if n == 5
    then some s.gs
    else none

unfoldable pub set_sreg : Sregs → ℕ → ℕ → Option Sregs
set_sreg s n v =
    if n == 0
    then some (record s { es = v })
    else if n == 1
    then some (record s { cs = v })
    else if n == 2
    then some (record s { ss = v })
    else if n == 3
    then some (record s { ds = v })
    else if n == 4
    then some (record s { fs = v })
    else if n == 5
    then some (record s { gs = v })
    else none
