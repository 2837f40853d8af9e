-- ===== src/Examples/Blocks.antt =====
-- The memory manager at work.
use door86c.Common.{arith, List, [], ◌∷◌}
use door86c.Dos.MemoryManager.{
  DosMemoryManager, free, used, last, make_manager, allocate, free_block,
}
use door86c.Dos.MemoryManager.Leases.{Leased, allocate-Leased}
use door86c.Dos.MemoryManager.Freeing.{Freed, free_block-Freed}
use door86c.Dos.MemoryManager.Tiling.{
  Call, allocating, freeing, choosing, after_calls, Sound, after_calls-make_manager,
}

abbrev used_then_free : DosMemoryManager
used_then_free = record {
  start_seg = 0x1000;
  end_seg = 0x9000;
  fit = last;
  blocks =
      record { avail = used; start = 0x1000; size = 0x200; owner = 0; prog_name = "" }
      ∷ record { avail = free; start = 0x1200; size = 0x7e00; owner = 0; prog_name = "" }
      ∷ [];
}

allocate-Leased_example : Leased 0x400 used_then_free (allocate used_then_free 0x400)
allocate-Leased_example = allocate-Leased used_then_free 0x400

free_block-Freed_example : Freed 0x1000 used_then_free (free_block used_then_free 0x1000)
free_block-Freed_example = free_block-Freed used_then_free 0x1000

abbrev session : List Call
session =
    allocating 0x400 ∷ allocating 0x20 ∷ choosing last ∷ allocating 0x300 ∷ freeing 0x1000 ∷ []

after_calls-make_manager_example :
    Sound 0x1000 0x9000 (after_calls (make_manager 0x1000 0x9000) session)
after_calls-make_manager_example =
    after_calls-make_manager 0x1000 0x9000 session (omega arith) (omega arith)
