-- ===== src/Lib.antt =====
-- door86c is an emulator of an 8086 that runs DOS programs. This library models its processor, its
-- DOS and BIOS, the loader, its debugger with both clients, how `main` puts them together, and the
-- disassembler beside it.
--
-- The parts, and the files that model them:
--   Memory       cpu/memory.h, cpu/memory.cpp. The array of bytes is a function with a size; an
--                access outside of it gives `none`. Words are little-endian, as on the hosts.
--   Regs, Flags  cpu/x86/regs.h, and kern_popcount of cpu/memory_bits.h. A byte register is a half of
--                a word register, as in the C++ union; a flag is a bit of the flags word.
--   Machine      cpu/x86/cpu_core.h and the state of cpu/x86/cpu.h. Machine.Exec is the monad of steps:
--                a step takes a Cpu to a value and a Cpu, or stops at a fault.
--                Machine.Fits has the bounds of the C++ types of the core.
--   Decoder      cpu/x86/decoder.h and decoder.cpp: the opcode table (Decoder.Opcodes00, 40, 80, C0),
--                its correction and lookup (Decoder.Table) and Decoder::decode, stage by stage. The
--                byte stream is a function from offsets to bytes, whose end gives `none`. Decoder.Print
--                has DebugString and what it prints with; Decoder.Printable is on it.
--   Rmm          cpu/x86/rmm.h: operands and the operators on them, each with its flags.
--   Execute      cpu/x86/cpu.cpp and rmm.cpp. Execute.Operands has effective addresses and the
--                operands of an instruction; Stack has push and pop; Arith (0x00 to 0x4f), Transfer
--                (0x5, 0x6, 0x9, 0xB), Control (0x7, 0xE and the ports), Groups (0x8, 0xF and their
--                subcodes), Strings (0xA), Shifts (0xC0, 0xC1, 0xD), Interrupt (0xC and
--                call_interrupt) have the handlers execute_0x0 to execute_0xF under their own names;
--                Run has execute with its repeat loop, rep, and the main loop run. Execute.Run.Int
--                and Execute.Run.Alu are on whole instructions from their bytes on.
--   Dos          dos/. Dos.MemoryManager has DosMemoryManager, under the same operation names (`free`
--                is free_block); Dos.Services the constructor of Dos, int20 and int21 with its
--                functions; Dos.Exe and Dos.Psp the files of these names; Dos.Process
--                Dos::initialize_process; Dos.Mcb is on dos/mcb.h and write_mcb. Dos.Start, Console
--                and Vectors are on the services.
--   Bios         bios/bios.cpp: int10 and the constructor.
--   Debugger     debugger/debugger.h, debugger.cpp and blocking_queue.h: DebuggerBackend, whose
--                `int1` holds the CPU; Debugger.Rounds has its rounds with the clients' steps between.
--                Debugger.Gdb is on debugger/gdb_debugger.h and gdb_debugger.cpp: Hex, Remote and Request
--                (GdbRemote), Client (the commands of GdbDebugger) and Session (its constructor and
--                Run); the other files below it prove. Debugger.Lame is on lame_debugger.cpp.
--   Program      door86/door86.cpp: the registered functions together (handle) and main.
--   Dis          dis/dis.cpp: the listings of a file's code, as instructions and as bytes.
--   Rotate       cpu/rotate.h.
--   Common       Boolean tests, lists and bit operations that the parts share.
--   Examples     concrete machines, instructions and blocks.
--
-- The main loop fetches at CS:IP from memory, decodes, adds the length to IP and executes. Handlers
-- reach registers and memory through operands (Rmm), the stack through push and pop, and interrupts
-- through call_interrupt, which goes to the vector in memory or to a registered function. Execute
-- takes what the registered functions do as the parameter `handle`; Program.handle is the one of the
-- program, with the debugger's function still a parameter. What a file holds is a parameter of the
-- loader: its bytes for the C library's calls, and `read_file` for the class File of the core library.
-- What the debugger's clients use of fmt and of wwiv/core is the record Library, with what is
-- documented of it in IsDocumented. A client works on its own copies of the back end and the CPU:
-- what the CPU's thread does meanwhile comes in as the states that are seen.
--
-- Bounds: numbers are natural numbers, and every wrap of the C++ types is written out; `unsigned
-- long` has 64 bits. A shift is defined if C++17 defines it; a shift that it does not define, an
-- `int` that overflows and an access outside of memory are faults, and so is a line logged at
-- FATAL, which ends the program. Loops run on fuel: the bit count needs a round for each bit that
-- is set, a repeat prefix at most 2^16 rounds; the theorems on them say that this is enough. DOS's
-- display_string has 2^16 rounds, after which its offset is back where it began. A listing of the
-- disassembler has a round for each byte and one more, and `response` the ten that the code has.
-- The main loop and the debugger's have no bound, and their fuel is only how long one looks.
--
-- Not modelled: logging and what is read only for it (as the options of qSupported), the wait for a
-- debugger and the threads and listening sockets of its clients, the command lines of both
-- programs, and the disassembler's printing of a header.
pub mod Common
pub mod Rotate
pub mod Memory
pub mod Regs
pub mod Flags
pub mod Machine
pub mod Decoder
pub mod Rmm
pub mod Execute
pub mod Dos
pub mod Bios
pub mod Debugger
pub mod Program
pub mod Dis
pub mod Examples
