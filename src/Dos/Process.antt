-- ===== src/Dos/Process.antt =====
-- dos/dos.cpp, Dos::initialize_process: a COM or EXE file becomes the process. The file's path is
-- left out: `file` and `read_file` are what stands there.
pub mod Starts
use door86c.Common.{ℕ, ◌+◌, ◌*◌, Bool, true, false, Option, none, some, List, u16, if◌then◌else◌}
use door86c.Machine.{Cpu}
use door86c.Machine.Exec.{Exec, Step, ok, pure, ◌>>=◌, ◌>>◌, reads, put_regs, put_sregs, put_ip}
use door86c.Dos.MemoryManager.{allocate}
use door86c.Dos.Services.{put_world}
use door86c.Dos.Exe.{Exe, is_exe, read_exe_header, memory_needed, load_image, load_exe}
use door86c.Dos.Psp.{initialize, set_environ_seg}

-- `mem_mgr.allocate(segs)`
unfoldable pub lease : ℕ → Exec (Option ℕ)
unfolding allocate
lease segs s =
    let (m, o) = allocate s.world.mem_mgr (u16 segs) in
    (do put_world (λ w. record w { mem_mgr = m }); pure o) s

-- `EXIT_FAILURE`, as a `bool`.
abbrev pub exit_failure : Bool
exit_failure = true

-- 128: twice the environment's 28 bytes rounded up.
abbrev pub env_needed : ℕ
env_needed = 128

-- Registers of a started EXE: the image is 16 paragraphs behind the PSP.
unfoldable pub start_exe : Exe → ℕ → Step
start_exe exe psp_seg = do
  put_sregs (λ s. record s {
    ds = psp_seg;
    es = psp_seg;
    cs = u16 (exe.hdr.cs + (psp_seg + 0x10));
    ss = u16 (exe.hdr.ss + (psp_seg + 0x10));
  })
  put_regs (λ r. record r { sp = exe.hdr.sp })
  put_ip (λ _. exe.hdr.ip)

unfoldable pub start_com : ℕ → Step
start_com seg = do
  put_sregs (λ s. record s { ds = seg; es = seg; cs = seg; ss = seg })
  put_regs (λ r. record r { sp = 0xfffe })
  put_ip (λ _. 0x100)

-- The PSP at DS:0.
unfoldable pub make_psp : ℕ → Exec Bool
unfolding initialize set_environ_seg
make_psp eseg = do
  c ← reads (λ c. c)
  let psp = c.sregs.ds * 0x10
  put_world (λ w. record w { psp = some psp })
  initialize psp
  set_environ_seg psp eseg
  pure true

module _ (file : Option (List ℕ)) (read_file : ℕ → Option (List ℕ)) where
  -- A lease that fails ends the function at once, with `EXIT_FAILURE`.
  abbrev with_lease : Option ℕ → (ℕ → Exec Bool) → Exec Bool
  with_lease none next = pure exit_failure
  with_lease (some seg) next = next seg

  abbrev load_known : ℕ → Option Exe → Exec Bool
  load_known eseg none = pure exit_failure
  load_known eseg (some exe) = do
    oseg ← lease (memory_needed exe + 1)
    with_lease oseg
        (λ psp_seg. load_exe read_file exe psp_seg >> start_exe exe psp_seg >> make_psp eseg)

  unfoldable pub initialize_exe : ℕ → Exec Bool
  unfolding read_exe_header memory_needed load_exe start_exe make_psp
  initialize_exe eseg = load_known eseg (read_exe_header file)

  unfoldable pub initialize_com : ℕ → Exec Bool
  unfolding load_image start_com make_psp
  initialize_com eseg = do
    oseg ← lease 0x3fff
    with_lease oseg (λ seg. do
      loaded ← load_image read_file (u16 (seg + 0x10)) 0
      if loaded then (do start_com seg; make_psp eseg) else pure false)

  -- With the old PSP, if there is one: then nothing happens.
  unfoldable pub unless_process : Option ℕ → Exec Bool
  unfolding is_exe initialize_exe initialize_com
  unless_process (some psp) = pure false
  unless_process none = do
    eseg ← lease env_needed
    with_lease eseg (λ e. if is_exe file then initialize_exe e else initialize_com e)

  unfoldable pub initialize_process : Exec Bool
  unfolding unless_process
  initialize_process s = unless_process s.world.psp s
