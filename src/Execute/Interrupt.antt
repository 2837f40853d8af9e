-- ===== src/Execute/Interrupt.antt =====
-- cpu/x86/cpu.cpp, call_interrupt and execute_0xC: interrupts, returns, and the far pointers.
-- What the registered functions do is the parameter `handle`.
pub mod Laws
pub mod Calls
use door86c.Common.{
  ℕ, ◌+◌, ◌*◌, ◌%◌, ◌^◌, Bool, true, false, ◌&&◌, ◌||◌, Option, none, some, List, [], ◌∷◌, nonzero,
  not, leb, ◌==◌, u16, if◌then◌else◌,
}
use door86c.Memory.{Width, byte, word}
use door86c.Regs.{set16}
use door86c.Decoder.{Instruction}
use door86c.Machine.{Cpu, Handler}
use door86c.Machine.Exec.{
  Exec, Step, ok, fault, pure, ◌>>=◌, ◌>>◌, reads, put_regs, put_sregs, put_flags, put_ip, try_regs,
  memory_get,
}
use door86c.Rmm.{Place, set}
use door86c.Execute.Operands.{skip, switch, low_nibble, rmm, segment_value}
use door86c.Execute.Stack.{push, pop}
use door86c.Execute.Shifts.{execute_0xC0, execute_0xC1}

unfoldable pub halt : Step
halt s = ok tt (record s { running = false })

-- `core.ip = pop(); core.sregs.cs = pop();`
unfoldable pub ret_far : Step
ret_far = do ip ← pop; put_ip (λ _. ip); cs ← pop; put_sregs (λ s. record s { cs = cs })

-- The same and `core.flags.value_ = pop();`
unfoldable pub iret : Step
unfolding ret_far
iret = do ret_far; flags ← pop; put_flags (λ _. flags)

-- An interrupt that nothing handles: some numbers stop the machine.
abbrev pub is_exit : ℕ → Bool
is_exit num = (leb 0x86 num && leb num 0xF0) || num == 0x3

unfoldable pub fail_safe : ℕ → Step
unfolding halt
fail_safe num = if is_exit num then halt else skip

-- The entry of the interrupt table, pushed flags, CS and IP.
unfoldable pub enter_interrupt : ℕ → Exec (ℕ × ℕ)
enter_interrupt num = do
  off ← memory_get word 0 (num * 4)
  seg ← memory_get word 0 (num * 4 + 2)
  c ← reads (λ c. c)
  push c.flags
  push c.sregs.cs
  push c.ip
  pure (off, seg)

module _ (handle : Handler → ℕ → Step) where
  -- The registered function, if there is one, else the fail-safe; then back to where it was.
  unfoldable pub handled_by : Option Handler → ℕ → Step
  unfolding fail_safe
  handled_by (some h) num = do handle h num; iret
  handled_by none num = do fail_safe num; iret

  unfoldable pub implicit_handler : ℕ → Step
  unfolding handled_by
  implicit_handler num s = handled_by (s.int_handlers num) num s

  unfoldable pub call_interrupt : ℕ → Step
  unfolding enter_interrupt
  call_interrupt num = do
    (off, seg) ← enter_interrupt num
    if nonzero seg || not (off == num)
        then (do put_sregs (λ s. record s { cs = seg }); put_ip (λ _. off))
        else implicit_handler num

unfoldable pub ret_near : Step
ret_near = do ip ← pop; put_ip (λ _. ip)

unfoldable pub ret_near_clear : ℕ → Step
unfolding ret_near
ret_near_clear n = do ret_near; put_regs (λ r. record r { sp = u16 (r.sp + n) })

unfoldable pub ret_far_clear : ℕ → Step
unfolding ret_far
ret_far_clear n = do ret_far; put_regs (λ r. record r { sp = u16 (r.sp + n) })

-- LES and LDS. LES reads both words first; what it reads does not depend on that.
unfoldable pub load_pointer : (ℕ → Step) → Instruction → Step
unfolding set16
load_pointer put_segment i = do
  seg ← segment_value i
  off ← memory_get word seg i.disp16
  r ← reads (λ c. c.regs)
  try_regs (set16 r i.mdrm.reg off)
  v ← memory_get word seg (u16 (i.disp16 + 2))
  put_segment v

abbrev pub mov_rm_disp : Width → ℕ → Instruction → Step
mov_rm_disp w v i = do rm ← rmm i; set w rm v

unfoldable pub execute_0xC : (Handler → ℕ → Step) → Instruction → Step
execute_0xC handle i =
    switch (low_nibble i)
      (execute_0xC0 i i.mdrm.reg
        ∷ execute_0xC1 i i.mdrm.reg
        ∷ ret_near_clear i.imm16
        ∷ ret_near
        ∷ load_pointer (λ v. put_sregs (λ s. record s { es = v })) i
        ∷ load_pointer (λ v. put_sregs (λ s. record s { ds = v })) i
        ∷ mov_rm_disp byte i.disp8 i
        ∷ mov_rm_disp word i.disp16 i
        ∷ skip
        ∷ skip
        ∷ ret_far_clear i.disp16
        ∷ ret_far
        ∷ call_interrupt handle 0x03
        ∷ call_interrupt handle i.imm8
        ∷ skip
        ∷ iret
        ∷ [])
      skip
