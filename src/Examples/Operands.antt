-- ===== src/Examples/Operands.antt =====
-- Operands, flags, registers and memory at work.
use door86c.Common.{ℕ, ◌+◌, ◌≤◌, ◌≡◌, refl, arith, true, false, ◌==◌, if◌then◌else◌}
use door86c.Memory.{abs_memory, abs8, word, byte}
use door86c.Regs.{get16, get8}
use door86c.Machine.{Cpu}
use door86c.Machine.Exec.{ok, set_flags, set_ip}
use door86c.Rmm.{reg, mem, get, set, add_assign, sub_assign, cmp, neg}
use door86c.Rmm.Access.{Stored, set-Stored}
use door86c.Rmm.Update.{Updated, add_assign-Updated, sub_assign-Updated, neg-Updated}
use door86c.Execute.Control.{jump_condition}
use door86c.Execute.Control.Laws.{jump_condition-cmp}
use door86c.Execute.Run.{run}
use door86c.Execute.Run.Alu.{sub, run-alu}
use door86c.Examples.Data.{machine, idle}

ax_is : get word (reg 0) machine ≡ ok 0x1234 machine
unfolding get get16
ax_is = refl

bh_is : get byte (reg 7) machine ≡ ok 0x80 machine
unfolding get get8
bh_is = refl

add_assign-Updated_example :
    (s' : Cpu) × (add_assign word (reg 0) 0xf000 machine ≡ ok tt s')
    × Updated word (reg 0) 0x0234 true true machine s'
add_assign-Updated_example =
    add_assign-Updated word (reg 0) 0x1234 0xf000 machine ax_is (omega arith) (omega arith)
      (omega arith)

sub_assign-Updated_example :
    (s' : Cpu) × (sub_assign byte (reg 7) 0x81 machine ≡ ok tt s')
    × Updated byte (reg 7) 0xff true true machine s'
sub_assign-Updated_example =
    sub_assign-Updated byte (reg 7) 0x80 0x81 machine bh_is (omega arith) (omega arith)
      (omega arith)

neg-Updated_example :
    (s' : Cpu) × (neg word (reg 0) machine ≡ ok tt s')
    × Updated word (reg 0) 0xedcc false true machine s'
neg-Updated_example = neg-Updated word (reg 0) 0x1234 machine ax_is (omega arith) (omega arith)

jump_condition-cmp_example :
    (f : ℕ) × (cmp byte (reg 7) 0x90 machine ≡ ok tt (set_flags f machine))
    × (jump_condition 0x2 f ≡ true)
    × (jump_condition 0x4 f ≡ false)
    × (jump_condition 0x6 f ≡ true)
    × (jump_condition 0xC f ≡ false)
jump_condition-cmp_example =
    jump_condition-cmp byte (reg 7) 0x80 0x90 machine bh_is (omega arith) (omega arith)

place_inside : abs_memory 0x0700 0x0200 + 2 ≤ 0x100000
unfolding abs_memory
place_inside = omega arith

set-Stored_example :
    (s' : Cpu) × (set word (mem 0x0700 0x0200) 0xcafe machine ≡ ok tt s')
    × Stored word (mem 0x0700 0x0200) 0xcafe machine s'
set-Stored_example = set-Stored word (mem 0x0700 0x0200) 0xcafe machine (omega arith) place_inside

-- SUB AX, CX at CS:IP.
abbrev subtracting : Cpu
subtracting = record machine {
  memory = record {
    size = 0x100000;
    cells = λ i. if i == 0x7100 then 0x29 else if i == 0x7101 then 0xc8 else 0;
  };
}

ax_here : get word (reg 0) subtracting ≡ ok 0x1234 subtracting
unfolding get get16
ax_here = refl

cx_here : get word (reg 1) subtracting ≡ ok 3 subtracting
unfolding get get16
cx_here = refl

run-alu_example :
    (t : Cpu) × (run idle 1 2 subtracting ≡ run idle 1 1 t)
    × Updated word (reg 0) 0x1231 false false (set_ip 0x102 subtracting) t
unfolding abs8
run-alu_example =
    run-alu 0 1 (omega arith) (omega arith) idle 0 sub word 1 0x1234 3 subtracting refl refl
      (refl, (refl, tt)) ax_here cx_here (omega arith) (omega arith)
