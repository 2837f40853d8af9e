-- ===== src/Machine/Exec/Laws.antt =====
-- An access to memory as a step.
use door86c.Common.{ℕ, ◌≡◌, refl, some}
use door86c.Memory.{Memory, Width}
use door86c.Memory
use door86c.Machine.{Cpu}
use door86c.Machine.Exec.{ok, memory_get, memory_set}

pub memory_set_lem :
    (w : Width) (s : Cpu) (seg off v : ℕ) (m : Memory)
    → Memory.set w s.memory seg off v ≡ some m
    → memory_set w seg off v s ≡ ok tt (record s { memory = m })
unfolding memory_set
memory_set_lem w s seg off v m e = rw e refl

pub memory_get_lem :
    (w : Width) (s : Cpu) (seg off v : ℕ)
    → Memory.get w s.memory seg off ≡ some v
    → memory_get w seg off s ≡ ok v s
unfolding memory_get
memory_get_lem w s seg off v e = rw e refl
