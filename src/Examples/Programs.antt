-- ===== src/Examples/Programs.antt =====
-- Programs loaded, held by a debugger, and run to their end.
use door86c.Common.{
  ◌≡◌, refl, arith, true, false, some, none, inl, inr, List, ℕ, [], ◌∷◌, ◌==◌, if◌then◌else◌,
}
use door86c.Memory.{Memory, Width, byte, abs_memory, abs8, abs16}
use door86c.Memory
use door86c.Machine.{Cpu}
use door86c.Machine.Exec.{ok}
use door86c.Dos.MemoryManager.{make_manager}
use door86c.Dos.Exe.{ExeHeader, ExeReloc, is_exe, relocate_all, read_exe_header}
use door86c.Dos.Exe.Header.{file_of, read_exe_header-file_of}
use door86c.Dos.Exe.Relocated.{Relocated, relocate_all-Relocated}
use door86c.Dos.Psp.{set_commandline, trimmed_args}
use door86c.Dos.Psp.Commandline.{Holdable, closed_args, Commandline, set_commandline-Commandline}
use door86c.Dos.Process.{initialize_process}
use door86c.Dos.Process.Starts.{ComStarted, initialize_process-ComStarted}
use door86c.Debugger.{
  DebuggerBackend, cont, step_in, running, stopped, stepping, add_command, push, int1_round, serve,
  obey, resumed, int1,
}
use door86c.Debugger
use door86c.Debugger.Rounds.{
  entered, next_round, commanded, Commanded, int1-Commanded, int1-returns,
}
use door86c.Execute.Interrupt.Laws.{Room, Words, Vector}
use door86c.Execute.Run.{run}
use door86c.Program.{handle, main}
use door86c.Program.Exit.{Ended, run-exit}
use door86c.Program.Main.{Fresh, main-exit}
use door86c.Examples.Data.{machine, booted, registers}
use door86c.Examples.Services.{no_debugger}

-- INT 21h at CS:IP, with AX = 4C00h.
abbrev ending : Cpu
ending = record booted {
  core = record booted.core { regs = record registers { ax = 0x4c00 } };
  memory = record {
    size = 0x100000;
    cells = λ i.
        if i == 0x84 then 0x21 else if i == 0x7100 then 0xcd else if i == 0x7101 then 0x21 else 0;
  };
}

ending-Room : Room 6 ending
unfolding abs_memory
ending-Room = record { room = omega arith; sp_fits = omega arith; inside = omega arith }

ending-Words : Words ending
ending-Words = record { ip_fits = omega arith; cs_fits = omega arith; flags_fit = omega arith }

ending-Vector : Vector ending 0x21 0x21 0
unfolding Memory.get abs16 abs_memory
ending-Vector = record { off_is = refl; seg_is = refl }

run-exit_example : (t : Cpu) × (run (handle no_debugger) 1 2 ending ≡ ok true t) × Ended ending t
unfolding abs8
run-exit_example =
    run-exit no_debugger 0 0 ending refl refl (refl, (refl, tt)) ending-Room ending-Words
      ending-Vector refl (inr refl)

-- The two bytes of INT 21h, as a file.
abbrev end_file : List ℕ
end_file = 0xcd ∷ 0x21 ∷ []

machine-Fresh : Fresh machine
machine-Fresh = record {
  unhandled = λ num. refl;
  zeros = λ k h. refl;
  size_is = refl;
  running_is = refl;
  alone = refl;
  no_process = refl;
  flags_fit = omega arith;
}

end_file_not_exe : is_exe (some end_file) ≡ false
unfolding is_exe
end_file_not_exe = refl

main-exit_example :
    (t : Cpu) × (main (some end_file) (λ offset. some end_file) no_debugger 1 2 machine ≡ ok 0 t)
    × (t.running ≡ false)
main-exit_example =
    main-exit no_debugger (some end_file) (λ offset. some end_file) [] 0 0 machine machine-Fresh
      end_file_not_exe refl (omega arith)

-- The machine with the memory manager that the program makes.
abbrev managing : Cpu
managing = record machine { world = record machine.world { mem_mgr = make_manager 0x0800 0x9fc0 } }

initialize_process-ComStarted_example :
    (t : Cpu) × (initialize_process (some end_file) (λ offset. some end_file) managing ≡ ok true t)
    × ComStarted end_file managing t
initialize_process-ComStarted_example =
    initialize_process-ComStarted (some end_file) (λ offset. some end_file) end_file managing refl
      refl end_file_not_exe refl (omega arith)

abbrev two_relocs : List ExeReloc
two_relocs = record { offset = 4; segment = 0 } ∷ record { offset = 0; segment = 1 } ∷ []

relocate_all-Relocated_example :
    (m : Memory) × (relocate_all 0x0900 two_relocs machine ≡ ok tt (record machine { memory = m }))
    × Relocated 0x0900 two_relocs machine.memory m
relocate_all-Relocated_example =
    relocate_all-Relocated 0x0900 two_relocs machine
      (omega arith, (inl (omega arith), tt), (omega arith, tt, tt))

abbrev hello_header : ExeHeader
hello_header = record {
  signature = 0x5a4d;
  bytes_in_last_block = 0x40;
  blocks_in_file = 2;
  num_relocs = 2;
  header_paragraphs = 3;
  min_extra_paragraphs = 0;
  max_extra_paragraphs = 0xffff;
  ss = 0x10;
  sp = 0x200;
  checksum = 0;
  ip = 0;
  cs = 0;
  reloc_table_offset = 30;
  overlay_number = 0;
}

read_exe_header-file_of_example :
    read_exe_header (some (file_of hello_header (0 ∷ 0 ∷ []) two_relocs (0x90 ∷ [])))
    ≡ some (record { hdr = hello_header; relos = two_relocs; binary_size = 0x240 })
read_exe_header-file_of_example =
    read_exe_header-file_of hello_header (0 ∷ 0 ∷ []) (0x90 ∷ []) two_relocs (ground arith)
      (ground arith) refl refl refl (omega arith)

set_commandline-Commandline_example :
    (m : Memory) × (set_commandline 0x8800 (0x2f ∷ 0x3f ∷ []) machine
      ≡ ok tt (record machine { memory = m }))
    × Holdable (closed_args (0x2f ∷ 0x3f ∷ [])) (trimmed_args (0x2f ∷ 0x3f ∷ []))
    × Commandline 0x8800 (0x2f ∷ 0x3f ∷ []) machine.memory m
set_commandline-Commandline_example =
    set_commandline-Commandline 0x8800 (0x2f ∷ 0x3f ∷ []) machine (omega arith)

-- A client attached to a held program has asked for registers; it goes on after `cont`.
abbrev held : DebuggerBackend
held = record { cmds = step_in ∷ []; responses = []; state = stepping; attached = true }

abbrev waiting : DebuggerBackend
waiting = record { cmds = []; responses = []; state = stepping; attached = true }

abbrev resumed_backend : DebuggerBackend
resumed_backend = record { cmds = []; responses = []; state = running; attached = true }

held_round : int1_round held ≡ (false, waiting)
unfolding int1_round serve obey resumed Debugger.pop
held_round = refl

last_round : int1_round (add_command cont waiting) ≡ (true, resumed_backend)
unfolding int1_round serve obey resumed Debugger.pop add_command push
last_round = refl

int1-Commanded_example : Commanded (add_command cont waiting) resumed_backend
int1-Commanded_example =
    int1-Commanded held (add_command cont waiting) resumed_backend refl
      (commanded (next_round entered held_round) cont) last_round refl

ignored_first : resumed step_in ≡ none
unfolding resumed
ignored_first = refl

cont_resumes : resumed cont ≡ some running
unfolding resumed
cont_resumes = refl

abbrev queued : DebuggerBackend
queued = record {
  cmds = step_in ∷ cont ∷ step_in ∷ [];
  responses = [];
  state = stepping;
  attached = true;
}

int1-returns_example : int1 2 queued ≡ some (record queued { cmds = step_in ∷ []; state = running })
int1-returns_example =
    int1-returns queued (step_in ∷ []) (step_in ∷ []) cont running refl refl (ignored_first, tt)
      cont_resumes
