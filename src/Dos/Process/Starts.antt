-- ===== src/Dos/Process/Starts.antt =====
-- dos/dos.cpp, Dos::initialize_process: where a COM program begins, and what happens without memory.
use door86c.Common.{
  ℕ, ◌+◌, ◌*◌, ◌^◌, ◌≤◌, ◌<◌, ◌≡◌, ◌⊎◌, refl, arith, true, false, Option, none, some, List, [], ◌∷◌,
  length, get_elem?, inl, inr, ◌∙◌, u16, ap, subst, sym,
}
use door86c.Memory.{Memory, moved}
use door86c.Memory.Blocks.{moved-Loaded}
use door86c.Machine.{Cpu}
use door86c.Machine.Exec.{ok, ◌>>=◌}
use door86c.Dos.MemoryManager.{DosMemoryManager, make_manager, allocate}
use door86c.Dos.Exe.{is_exe, load_bytes, load_image}
use door86c.Dos.Psp.{zeros, word_bytes, initialize, set_environ_seg}
use door86c.Dos.Psp.Commandline.{store_bytes_lem}
use door86c.Dos.Process.{
  lease, env_needed, start_com, make_psp, initialize_com, unless_process, initialize_process,
}

-- A write into the 256 bytes of a PSP leaves the rest of memory as it is.
psp_outside :
    (psp o : ℕ) (bytes : List ℕ) (m : Memory) (i : ℕ)
    → o + length bytes ≤ 256
    → (i < psp) ⊎ (psp + 256 ≤ i)
    → (moved m (psp + o) bytes).cells i ≡ m.cells i
psp_outside psp o bytes m i h (inl before) =
    (moved-Loaded m (psp + o) bytes).others_kept i (inl (omega arith))
psp_outside psp o bytes m i h (inr behind) =
    (moved-Loaded m (psp + o) bytes).others_kept i (inr (omega arith))

-- The PSP as it is after `make_psp`, and the rest of memory.
pub record PspMade (psp eseg : ℕ) (m m' : Memory) : Type 0 where
  pub size_same : m'.size ≡ m.size
  pub outside_same : (i : ℕ) → (i < psp) ⊎ (psp + 256 ≤ i) → m'.cells i ≡ m.cells i
  pub environ_seg_is : m'.cells (psp + 44) + m'.cells (psp + 44 + 1) * 256 ≡ eseg

make_psp-PspMade :
    (s : Cpu) (eseg : ℕ)
    → s.core.sregs.ds * 0x10 + 256 ≤ s.memory.size
    → eseg < 2 ^ 16
    → (m : Memory) × (make_psp eseg s
        ≡ ok true (record s {
          memory = m;
          world = record s.world { psp = some (s.core.sregs.ds * 0x10) };
        }))
      × PspMade (s.core.sregs.ds * 0x10) eseg s.memory m
unfolding make_psp initialize set_environ_seg
make_psp-PspMade s eseg inside fits =
    let psp = s.core.sregs.ds * 0x10 in
    let w = record s.world { psp = some psp } in
    let m0 = s.memory in
    let m1 = moved m0 psp (zeros 256) in
    let m2 = moved m1 psp (0xcd ∷ 0x2a ∷ []) in
    let m3 = moved m2 (psp + 2) (word_bytes 0x9fff) in
    let m4 = moved m3 (psp + 64) (word_bytes 0x05) in
    let m5 = moved m4 (psp + 22) (word_bytes 0xfffe) in
    let m6 = moved m5 (psp + 44) (word_bytes eseg) in
    let at = λ (m : Memory). record s { memory = m; world = w } in
    let start : psp + 0 ≡ psp = omega arith in
    let last = moved-Loaded m5 (psp + 44) (word_bytes eseg) in
    (
      m6,
      rw
          (
            ◌>>=◌,
            store_bytes_lem psp (zeros 256) (at m0) inside,
            store_bytes_lem psp (0xcd ∷ 0x2a ∷ []) (at m1) (omega arith),
            store_bytes_lem (psp + 2) (word_bytes 0x9fff) (at m2) (omega arith),
            store_bytes_lem (psp + 64) (word_bytes 0x05) (at m3) (omega arith),
            store_bytes_lem (psp + 22) (word_bytes 0xfffe) (at m4) (omega arith),
            store_bytes_lem (psp + 44) (word_bytes eseg) (at m5) (omega arith),
          )
          refl,
      record {
        size_same = refl;
        outside_same = λ i out.
            psp_outside psp 44 (word_bytes eseg) m5 i (omega arith) out
            ∙ psp_outside psp 22 (word_bytes 0xfffe) m4 i (omega arith) out
            ∙ psp_outside psp 64 (word_bytes 0x05) m3 i (omega arith) out
            ∙ psp_outside psp 2 (word_bytes 0x9fff) m2 i (omega arith) out
            ∙ subst (λ a. (moved m1 a (0xcd ∷ 0x2a ∷ [])).cells i ≡ m1.cells i) start
                (psp_outside psp 0 (0xcd ∷ 0x2a ∷ []) m1 i (omega arith) out)
            ∙ subst (λ a. (moved m0 a (zeros 256)).cells i ≡ m0.cells i) start
                (psp_outside psp 0 (zeros 256) m0 i (omega arith) out);
        environ_seg_is =
            ground (arith, last.image_there 0 (omega arith), last.image_there 1 (omega arith));
      },
    )

lease-granted :
    (segs start : ℕ) (m m' : DosMemoryManager) (s : Cpu)
    → s.world.mem_mgr ≡ m
    → allocate m (u16 segs) ≡ (m', some start)
    → lease segs s ≡ ok (some start) (record s { world = record s.world { mem_mgr = m' } })
unfolding lease
lease-granted segs start m m' s e granted = rw (e, granted) refl

load_image_lem :
    (read_file : ℕ → Option (List ℕ)) (base offset : ℕ) (bytes : List ℕ) (s : Cpu)
    → read_file offset ≡ some bytes
    → base * 0x10 + length bytes ≤ s.memory.size
    → load_image read_file base offset s
      ≡ ok true (record s { memory = moved s.memory (base * 0x10) bytes })
unfolding load_image load_bytes
load_image_lem read_file base offset bytes s e inside =
    rw (e, ◌>>=◌, store_bytes_lem (base * 0x10) bytes s inside) refl

-- The manager after the two leases of a COM program.
abbrev first_lease : DosMemoryManager
first_lease = (allocate (make_manager 0x0800 0x9fc0) env_needed).0

abbrev second_lease : DosMemoryManager
second_lease = (allocate first_lease 0x3fff).0

env_leased : allocate (make_manager 0x0800 0x9fc0) (u16 env_needed) ≡ (first_lease, some 0x0800)
unfolding allocate make_manager
env_leased = refl

com_leased : allocate first_lease (u16 0x3fff) ≡ (second_lease, some 0x0880)
unfolding allocate make_manager
com_leased = refl

-- A started COM program.
pub record ComStarted (bytes : List ℕ) (s t : Cpu) : Type 0 where
  pub core_is : t.core ≡ record s.core {
    regs = record s.core.regs { sp = 0xfffe };
    sregs = record s.core.sregs { ds = 0x0880; es = 0x0880; cs = 0x0880; ss = 0x0880 };
    ip = 0x0100;
  }
  pub image_there :
      (i : ℕ) → i < length bytes → get_elem? bytes i ≡ some (t.memory.cells (0x8900 + i))
  pub environ_seg_is : t.memory.cells 0x882c + t.memory.cells 0x882d * 256 ≡ 0x0800
  pub others_same :
      (i : ℕ) → (i < 0x8800) ⊎ (0x8900 + length bytes ≤ i) → t.memory.cells i ≡ s.memory.cells i
  pub psp_is : t.world.psp ≡ some 0x8800
  pub size_same : t.memory.size ≡ s.memory.size
  pub running_same : t.running ≡ s.running
  pub attached_same : t.debugger_attached ≡ s.debugger_attached
  pub handlers_same : t.int_handlers ≡ s.int_handlers

-- With the memory manager as the program makes it, no process yet, and a file that is not an EXE and
-- whose bytes fit behind 0880:0100: `initialize_process` returns true. All four segment registers
-- are then 0880h, SP is FFFEh and IP 100h; the file's bytes stand from 0880:0100 on, so that CS:IP is
-- the first of them; the PSP's environment segment is 0800h, and memory outside of the PSP and the
-- image, the other registers and the rest of the CPU are as before.
pub initialize_process-ComStarted :
    (file : Option (List ℕ)) (read_file : ℕ → Option (List ℕ)) (bytes : List ℕ) (s : Cpu)
    → s.world.psp ≡ none
    → s.world.mem_mgr ≡ make_manager 0x0800 0x9fc0
    → is_exe file ≡ false
    → read_file 0 ≡ some bytes
    → 0x8900 + length bytes ≤ s.memory.size
    → (t : Cpu) × (initialize_process file read_file s ≡ ok true t) × ComStarted bytes s t
unfolding initialize_process unless_process initialize_com start_com
initialize_process-ComStarted file read_file bytes s fresh mgr not_exe e inside =
    let s1 = record s { world = record s.world { mem_mgr = first_lease } } in
    let s2 = record s { world = record s.world { mem_mgr = second_lease } } in
    let image = moved s.memory 0x8900 bytes in
    let s3 : Cpu = record s2 {
      core = record s.core {
        regs = record s.core.regs { sp = 0xfffe };
        sregs = record s.core.sregs { ds = 0x0880; es = 0x0880; cs = 0x0880; ss = 0x0880 };
        ip = 0x0100;
      };
      memory = image;
    } in
    let (m, made, p) = make_psp-PspMade s3 0x0800 (omega arith) (omega arith) in
    let loaded = moved-Loaded s.memory 0x8900 bytes in
    let t = record s3 { memory = m; world = record s3.world { psp = some 0x8800 } } in
    (
      t,
      subst (λ o. unless_process file read_file o s ≡ ok true t) (sym fresh)
          (rw
            (
              ◌>>=◌,
              lease-granted env_needed 0x0800 (make_manager 0x0800 0x9fc0) first_lease s mgr
                  env_leased,
              not_exe,
              lease-granted 0x3fff 0x0880 first_lease second_lease s1 refl com_leased,
              load_image_lem read_file 0x0890 0 bytes s2 e inside,
            )
            made),
      record {
        core_is = refl;
        image_there = λ i h.
            loaded.image_there i h
            ∙ ap some (sym (p.outside_same (0x8900 + i) (inr (omega arith))));
        environ_seg_is = p.environ_seg_is;
        others_same = λ i out. elim out [
          | inl before ↦ p.outside_same i (inl before) ∙ loaded.others_kept i (inl (omega arith))
          | inr behind ↦ p.outside_same i (inr (omega arith)) ∙ loaded.others_kept i (inr behind)
        ];
        psp_is = refl;
        size_same = p.size_same;
        running_same = refl;
        attached_same = refl;
        handlers_same = refl;
      },
    )
