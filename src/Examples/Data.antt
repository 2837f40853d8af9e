-- ===== src/Examples/Data.antt =====
-- The data of the examples.
use door86c.Common.{
  ℕ, ◌%◌, ◌/◌, ◌&&◌, ltb, ◌==◌, if◌then◌else◌, true, false, some, none, List, [], ◌∷◌,
}
use door86c.Regs.{Regs}
use door86c.Machine.{Cpu, Handler, dos_int21}
use door86c.Machine.Exec.{Step, ok}
use door86c.Dos.MemoryManager.{first}

abbrev pub registers : Regs
registers = record { ax = 0x1234; cx = 3; dx = 0; bx = 0x8000; sp = 0xfffe; bp = 0; si = 0; di = 0 }

abbrev pub machine : Cpu
machine = record {
  core = record {
    regs = registers;
    sregs = record { cs = 0x0700; es = 0x0700; ds = 0x0700; fs = 0; gs = 0; ss = 0x0700 };
    flags = 0xf202;
    ip = 0x0100;
  };
  memory = record { size = 0x100000; cells = λ i. 0 };
  running = true;
  debugger_attached = false;
  int_handlers = λ num. none;
  world = record {
    output = [];
    error_output = [];
    input = [];
    mem_mgr = record { start_seg = 0x1000; end_seg = 0x9000; fit = first; blocks = [] };
    psp = none;
  };
}

-- The same machine with the interrupt table that the program starts with: entry `num` is 0000:num.
-- One function is registered, for 0x21.
abbrev pub booted : Cpu
booted = record machine {
  memory = record { size = 0x100000; cells = λ i. if ltb i 0x400 && i % 4 == 0 then i / 4 else 0 };
  int_handlers = λ num. if num == 0x21 then some dos_int21 else none;
}

-- A registered function that does nothing.
abbrev pub idle : Handler → ℕ → Step
idle h num s = ok tt s

-- MOV AX, 0xCAFE
abbrev pub mov_cafe : List ℕ
mov_cafe = 0xb8 ∷ 0xfe ∷ 0xca ∷ []

abbrev pub iret_bytes : List ℕ
iret_bytes = 0xcf ∷ []
