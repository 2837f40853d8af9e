-- ===== src/Machine/Exec.antt =====
-- Steps of the CPU: functions of its state that return a value or stop at a fault.
pub mod Laws
use door86c.Common.{ℕ, Option, none, some}
use door86c.Regs.{Regs, Sregs}
use door86c.Memory.{Memory, Width}
use door86c.Memory
use door86c.Machine.{Core, Cpu}

-- `fatal` is a line logged at FATAL, which ends the program. The next three are what C++ leaves
-- undefined: an access outside of the memory array, a shift out of range, an `int` that overflows.
-- `out_of_fuel` is none of the program's: a loop was given too few rounds.
pub data Fault : Type 0 where
  fatal out_of_bounds bad_shift int_overflow out_of_fuel : Fault

pub data Outcome {ℓ} (A : Type ℓ) : Type ℓ where
  ok : A → Cpu → Outcome A
  fault : Fault → Outcome A

abbrev pub Exec {ℓ} : Type ℓ → Type ℓ
Exec A = Cpu → Outcome A

abbrev pub pure {ℓ} : {A : Type ℓ} → A → Exec A
pure a s = ok a s

abbrev pub stop {ℓ} : {A : Type ℓ} → Fault → Exec A
stop e s = fault e

infixl 5 ◌>>=◌ ◌>>◌
abbrev pub ◌>>=◌ {ℓ κ} : {A : Type ℓ} {B : Type κ} → Exec A → (A → Exec B) → Exec B
◌>>=◌ m f s = elim (m s) [ ok a s' ↦ f a s' | fault e ↦ fault e ]

abbrev pub ◌>>◌ {ℓ κ} : {A : Type ℓ} {B : Type κ} → Exec A → Exec B → Exec B
m >> k = m >>= λ _. k

abbrev pub Step : Type 0
Step = Exec (Unit {0})

-- A lookup that may fail, as a step.
abbrev pub lift {ℓ} : {A : Type ℓ} → Fault → Option A → Exec A
lift e none s = fault e
lift e (some a) s = ok a s

abbrev pub reads {ℓ} : {A : Type ℓ} → (Core → A) → Exec A
reads f s = ok (f s.core) s

abbrev pub set_core : Core → Cpu → Cpu
set_core c s = record s { core = c }

abbrev pub set_regs : Regs → Cpu → Cpu
set_regs r s = record s { core = record s.core { regs = r } }

abbrev pub set_sregs : Sregs → Cpu → Cpu
set_sregs r s = record s { core = record s.core { sregs = r } }

abbrev pub set_flags : ℕ → Cpu → Cpu
set_flags v s = record s { core = record s.core { flags = v } }

abbrev pub set_ip : ℕ → Cpu → Cpu
set_ip v s = record s { core = record s.core { ip = v } }

-- The updates as steps.
abbrev pub put_regs : (Regs → Regs) → Step
put_regs f s = ok tt (set_regs (f s.core.regs) s)

abbrev pub put_sregs : (Sregs → Sregs) → Step
put_sregs f s = ok tt (set_sregs (f s.core.sregs) s)

abbrev pub put_flags : (ℕ → ℕ) → Step
put_flags f s = ok tt (set_flags (f s.core.flags) s)

abbrev pub put_ip : (ℕ → ℕ) → Step
put_ip f s = ok tt (set_ip (f s.core.ip) s)

abbrev pub try_regs : Option Regs → Step
try_regs none s = fault fatal
try_regs (some r) s = ok tt (set_regs r s)

abbrev pub try_sregs : Option Sregs → Step
try_sregs none s = fault fatal
try_sregs (some r) s = ok tt (set_sregs r s)

abbrev pub try_memory : Option Memory → Step
try_memory none s = fault out_of_bounds
try_memory (some m) s = ok tt (record s { memory = m })

-- `memory.get<T>` and `memory.set<T>`.
unfoldable pub memory_get : Width → ℕ → ℕ → Exec ℕ
unfolding Memory.get
memory_get w seg off s = lift out_of_bounds (Memory.get w s.memory seg off) s

unfoldable pub memory_set : Width → ℕ → ℕ → ℕ → Step
unfolding Memory.set
memory_set w seg off v s = try_memory (Memory.set w s.memory seg off v) s
