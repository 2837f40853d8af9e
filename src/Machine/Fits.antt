-- ===== src/Machine/Fits.antt =====
-- What the C++ types promise of the registers: each of them is a 16-bit word.
use door86c.Common.{ℕ, ◌<◌, ◌^◌}
use door86c.Regs.{Regs, Sregs}
use door86c.Machine.{Core}

-- A 16-bit word.
abbrev pub IsWord : ℕ → Type 0
IsWord v = v < 2 ^ 16

pub record RegsFit (r : Regs) : Type 0 where
  pub ax_fits : IsWord r.ax
  pub cx_fits : IsWord r.cx
  pub dx_fits : IsWord r.dx
  pub bx_fits : IsWord r.bx
  pub sp_fits : IsWord r.sp
  pub bp_fits : IsWord r.bp
  pub si_fits : IsWord r.si
  pub di_fits : IsWord r.di

pub record SregsFit (s : Sregs) : Type 0 where
  pub cs_fits : IsWord s.cs
  pub es_fits : IsWord s.es
  pub ds_fits : IsWord s.ds
  pub fs_fits : IsWord s.fs
  pub gs_fits : IsWord s.gs
  pub ss_fits : IsWord s.ss

pub record CoreFits (c : Core) : Type 0 where
  pub regs_fit : RegsFit c.regs
  pub sregs_fit : SregsFit c.sregs
  pub flags_fit : IsWord c.flags
  pub ip_fits : IsWord c.ip
