-- ===== src/Program/Main.antt =====
-- door86/door86.cpp: from the start of the program to its exit code.
use door86c.Common.{
  ℕ, suc, ◌+◌, ◌*◌, ◌^◌, ◌<◌, ◌≤◌, ◌≡◌, refl, arith, true, false, Option, none, some, List, ◌∷◌,
  length, inl, ◌∙◌, sym, subst, ap,
}
use door86c.Memory.{abs8, abs_memory}
use door86c.Machine.{Cpu, Core, Handler}
use door86c.Machine.Exec.{Step, ok, ◌>>=◌}
use door86c.Dos.Exe.{is_exe}
use door86c.Dos.Process.Starts.{ComStarted, initialize_process-ComStarted}
use door86c.Dos.Start.{Started, Kept, make_bios-make_dos}
use door86c.Dos.Vectors.{get_word-kept}
use door86c.Decoder.Stages.{Gives}
use door86c.Execute.Interrupt.Laws.{Vector}
use door86c.Execute.Run.{fetch_at}
use door86c.Execute.Run.Int.{int_bytes}
use door86c.Program.{main_run, main}
use door86c.Program.Exit.{run-exit}

-- A new CPU.
pub record Fresh (s : Cpu) : Type 0 where
  pub unhandled : (num : ℕ) → s.int_handlers num ≡ none
  pub zeros : (k : ℕ) → k < 0x400 → s.memory.cells k ≡ 0
  pub size_is : s.memory.size ≡ 2 ^ 20
  pub running_is : s.running ≡ true
  pub alone : s.debugger_attached ≡ false
  pub no_process : s.world.psp ≡ none
  pub flags_fit : s.core.flags < 2 ^ 16

-- An entry of the interrupt table below a PSP at 0x8800 survives the start of a COM program.
kept-Vector :
    (s t : Cpu) (bytes : List ℕ) (num off seg : ℕ)
    → ComStarted bytes s t
    → num < 0x100
    → Vector s num off seg
    → Vector t num off seg
unfolding abs_memory
kept-Vector s t bytes num off seg c h v = record {
  off_is =
      get_word-kept s.memory t.memory 0 (num * 4) off c.size_same
        (c.others_same _ (inl (omega arith))) (c.others_same _ (inl (omega arith))) v.off_is;
  seg_is =
      get_word-kept s.memory t.memory 0 (num * 4 + 2) seg c.size_same
        (c.others_same _ (inl (omega arith))) (c.others_same _ (inl (omega arith))) v.seg_is;
}

first_bytes :
    (s t : Cpu) (num : ℕ) (rest : List ℕ)
    → ComStarted (0xcd ∷ num ∷ rest) s t
    → 0x8902 ≤ t.memory.size
    → Gives (fetch_at t.memory 0x8900) 0 (int_bytes num)
unfolding abs8
first_bytes s t num rest c h = (
  ground (arith, c.image_there 0 (omega arith)),
  (ground (arith, c.image_there 1 (omega arith)), tt),
)

-- What `main` does with a started COM program whose first instruction ends it.
com_exit :
    (debugger : ℕ → Step) (rounds fuel : ℕ) (rest : List ℕ) (s b : Cpu)
    → Fresh s
    → (c : Cpu) → Started b
    → Kept s b
    → ComStarted (0xcd ∷ 0x21 ∷ rest) b c
    → (t : Cpu) × (main_run debugger (suc rounds) (2 + fuel) c ≡ ok 0 t) × (t.running ≡ false)
unfolding main_run abs_memory
com_exit debugger rounds fuel rest s b fresh c started kept begun =
    let u : Cpu = record c { core = record c.core { regs = record c.core.regs { ax = 2 } } } in
    let core_is = begun.core_is in
    let cs_is : c.core.sregs.cs ≡ 0x0880 = ap (λ (k : Core). k.sregs.cs) core_is in
    let ss_is : c.core.sregs.ss ≡ 0x0880 = ap (λ (k : Core). k.sregs.ss) core_is in
    let sp_is : c.core.regs.sp ≡ 0xfffe = ap (λ (k : Core). k.regs.sp) core_is in
    let ip_is : c.core.ip ≡ 0x0100 = ap (λ (k : Core). k.ip) core_is in
    let flags_same : c.core.flags ≡ b.core.flags = ap (λ (k : Core). k.flags) core_is in
    let flags_kept = ap (λ (k : Cpu). k.core.flags) kept.rest_same in
    let at_image : c.core.sregs.cs * 0x10 + c.core.ip ≡ 0x8900 = omega (arith, cs_is, ip_is) in
    let size_is : c.memory.size ≡ 2 ^ 20 = begun.size_same ∙ kept.size_same ∙ fresh.size_is in
    let v =
      kept-Vector b c (0xcd ∷ 0x21 ∷ rest) 0x21 0x21 0 begun (omega arith)
        (started.vectors 0x21 (omega arith)) in
    let (t, e, ended) =
      run-exit debugger rounds fuel u
        (begun.running_same ∙ ap (λ (k : Cpu). k.running) kept.rest_same ∙ fresh.running_is)
        (begun.attached_same ∙ ap (λ (k : Cpu). k.debugger_attached) kept.rest_same ∙ fresh.alone)
        (subst (λ a. Gives (fetch_at c.memory a) 0 (int_bytes 0x21)) (sym at_image)
          (first_bytes b c 0x21 rest begun (omega (arith, size_is))))
        (record {
          room = omega (arith, sp_is);
          sp_fits = omega (arith, sp_is);
          inside = omega (arith, ss_is, sp_is, size_is);
        })
        (record {
          ip_fits = omega (arith, ip_is);
          cs_fits = omega (arith, cs_is);
          flags_fit = omega (arith, flags_same, flags_kept, fresh.flags_fit);
        })
        (record { off_is = v.off_is; seg_is = v.seg_is })
        (ap (λ (f : ℕ → Option Handler). f 0x21) begun.handlers_same ∙ started.int21_is)
        (inl refl) in
    (t, rw (◌>>=◌, e) refl, ended.not_running)

-- A running CPU with 2^20 bytes of memory, the first KB of them zero, FLAGS a word, and no registered
-- function, process or debugger; and a file that is not an EXE, begins with INT 21h and fits into
-- memory behind 0880:0100: the program starts it as a COM file with AX = 2, so that the interrupt is
-- DOS's "terminate". The CPU stops within two rounds, and the exit code is 0.
pub main-exit :
    (debugger : ℕ → Step) (file : Option (List ℕ)) (read_file : ℕ → Option (List ℕ)) (rest : List ℕ)
    (rounds fuel : ℕ) (s : Cpu)
    → Fresh s
    → is_exe file ≡ false
    → read_file 0 ≡ some (0xcd ∷ 0x21 ∷ rest)
    → 0x8902 + length rest ≤ 2 ^ 20
    → (t : Cpu) × (main file read_file debugger (suc rounds) (2 + fuel) s ≡ ok 0 t)
      × (t.running ≡ false)
unfolding main
main-exit debugger file read_file rest rounds fuel s fresh not_exe e inside =
    let (b, boots, started, kept) =
      make_bios-make_dos s fresh.unhandled (omega (arith, fresh.size_is)) fresh.zeros in
    let (c, begins, begun) =
      initialize_process-ComStarted file read_file (0xcd ∷ 0x21 ∷ rest) b
        (ap (λ (k : Cpu). k.world.psp) kept.rest_same ∙ fresh.no_process) started.mem_mgr_is not_exe
        e (omega (arith, inside, kept.size_same, fresh.size_is)) in
    let (t, runs, stopped) = com_exit debugger rounds fuel rest s b fresh c started kept begun in
    (t, rw (boots, ◌>>=◌, begins) runs, stopped)
