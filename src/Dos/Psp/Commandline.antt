-- ===== src/Dos/Psp/Commandline.antt =====
-- dos/psp.cpp, PSP::set_commandline: what it writes stays inside of the 256 bytes of the PSP.
use door86c.Common.{
  drop, ℕ, zero, suc, ◌+◌, ◌-◌, ◌≤◌, ◌<◌, ◌≡◌, ◌⊎◌, refl, arith, true, some, List, [], ◌∷◌, ◌++◌,
  ltb, u8, if◌then◌else◌, length, get_elem?, inl, inr, ◌∙◌, Bool-cases,
}
use door86c.Memory.{Memory, moved}
use door86c.Memory.Blocks.{moved-Loaded}
use door86c.Machine.{Cpu}
use door86c.Machine.Exec.{ok, ◌>>=◌}
use door86c.Dos.Exe.{store_bytes}
use door86c.Dos.Psp.{ends_in_cr, trimmed_args, c_string, set_commandline}

pub store_bytes_lem :
    (start : ℕ) (bytes : List ℕ) (s : Cpu)
    → start + length bytes ≤ s.memory.size
    → store_bytes start bytes s ≡ ok tt (record s { memory = moved s.memory start bytes })
unfolding store_bytes
store_bytes_lem start bytes s inside = ground arith

ends_in_cr-append : (args : List ℕ) → ends_in_cr (args ++ 0x0d ∷ []) ≡ true
ends_in_cr-append [] = refl
ends_in_cr-append (c ∷ []) = refl
ends_in_cr-append (c ∷ d ∷ cs) = ends_in_cr-append (d ∷ cs)

-- Less than all of the list taken away, its end stays.
ends_in_cr-drop :
    (n : ℕ) (args : List ℕ) → n < length args → ends_in_cr (drop n args) ≡ ends_in_cr args
ends_in_cr-drop zero args h = refl
ends_in_cr-drop (suc n) [] h = absurd (omega arith)
ends_in_cr-drop (suc n) (c ∷ []) h = absurd (omega arith)
ends_in_cr-drop (suc n) (c ∷ d ∷ cs) h = ends_in_cr-drop n (d ∷ cs) (omega arith)

length-drop : (n : ℕ) (args : List ℕ) → n ≤ length args → length (drop n args) + n ≡ length args
length-drop zero args h = omega arith
length-drop (suc n) [] h = absurd (omega arith)
length-drop (suc n) (c ∷ cs) h = omega (arith, length-drop n cs (omega arith))

c_string-length : (cs : List ℕ) → length (c_string cs) ≤ length cs + 1
unfolding c_string
c_string-length [] = omega arith
c_string-length (c ∷ cs) = ground (arith, c_string-length cs)

-- A list that the PSP can hold.
pub record Holdable (closed kept : List ℕ) : Type 0 where
  pub at_most : length kept ≤ 126
  pub closed_by_cr : ends_in_cr kept ≡ true
  pub is_end : kept ≡ drop (length closed - length kept) closed

drop-none : (n : ℕ) (cs : List ℕ) → n ≡ 0 → drop n cs ≡ cs
drop-none zero cs e = refl
drop-none (suc n) cs e = absurd (omega arith)

trim-Holdable :
    (closed : List ℕ)
    → ends_in_cr closed ≡ true
    → Holdable closed
        (if ltb 126 (length closed) then drop (length closed - 126) closed else closed)
trim-Holdable closed e = elim (Bool-cases (ltb 126 (length closed))) [
  | inl longer ↦
      let n = length closed - 126 in
      let len : length (drop n closed) ≡ 126 =
        ground (arith, longer, length-drop n closed (omega arith)) in
      let h : 126 < length closed = ground (arith, longer) in
      rw longer (record {
        at_most = omega (arith, len);
        closed_by_cr = ends_in_cr-drop n closed (omega arith) ∙ e;
        is_end = rw len refl;
      })
  | inr short ↦
      let h : length closed ≤ 126 = ground (arith, short) in
      rw short (record {
        at_most = h;
        closed_by_cr = e;
        is_end = rw (drop-none (length closed - length closed) closed (omega arith)) refl;
      })
]

abbrev pub closed_args : List ℕ → List ℕ
closed_args args = if ends_in_cr args then args else args ++ 0x0d ∷ []

closed_args-ends : (args : List ℕ) → ends_in_cr (closed_args args) ≡ true
closed_args-ends args = elim (Bool-cases (ends_in_cr args)) [
  | inl closed ↦ rw closed closed
  | inr unclosed ↦ rw unclosed (ends_in_cr-append args)
]

trimmed_args-Holdable : (args : List ℕ) → Holdable (closed_args args) (trimmed_args args)
unfolding trimmed_args
trimmed_args-Holdable args = trim-Holdable (closed_args args) (closed_args-ends args)

one_stored : (m : Memory) (start n : ℕ) → n < 256 → (moved m start (u8 n ∷ [])).cells start ≡ n
one_stored m start n h =
    let none_before : start - start ≡ 0 = omega arith in rw none_before (ground arith)

-- The command line in the PSP: its length, the text as `strcpy` copies it, and no other change.
pub record Commandline (psp : ℕ) (args : List ℕ) (m m' : Memory) : Type 0 where
  pub size_same : m'.size ≡ m.size
  pub length_there : m'.cells (psp + 128) ≡ length (trimmed_args args)
  pub text_there :
      (i : ℕ)
      → i < length (c_string (trimmed_args args))
      → get_elem? (c_string (trimmed_args args)) i ≡ some (m'.cells (psp + 129 + i))
  pub outside_same : (i : ℕ) → (i < psp + 128) ⊎ (psp + 256 ≤ i) → m'.cells i ≡ m.cells i

-- With the PSP's 256 bytes in memory, and arguments of any length: what is kept of them is the end
-- of the arguments closed by 0x0d, at most 126 bytes that end in 0x0d; `set_commandline` writes
-- their number and their text, and nothing before the length byte or behind the PSP.
pub set_commandline-Commandline :
    (psp : ℕ) (args : List ℕ) (s : Cpu)
    → psp + 256 ≤ s.memory.size
    → (m : Memory) × (set_commandline psp args s ≡ ok tt (record s { memory = m }))
      × Holdable (closed_args args) (trimmed_args args)
      × Commandline psp args s.memory m
unfolding set_commandline
set_commandline-Commandline psp args s inside =
    let kept = trimmed_args args in
    let h = trimmed_args-Holdable args in
    let text = c_string kept in
    let text_fits = c_string-length kept in
    let m1 = moved s.memory (psp + 128) (u8 (length kept) ∷ []) in
    let first = moved-Loaded s.memory (psp + 128) (u8 (length kept) ∷ []) in
    let second = moved-Loaded m1 (psp + 129) text in
    (
      moved m1 (psp + 129) text,
      rw
          (
            store_bytes_lem (psp + 128) (u8 (length kept) ∷ []) s (omega arith),
            ◌>>=◌,
            store_bytes_lem (psp + 129) text (record s { memory = m1 })
                (omega (arith, h.at_most, text_fits)),
          )
          refl,
      h,
      record {
        size_same = refl;
        length_there =
            second.others_kept (psp + 128) (inl (omega arith))
            ∙ one_stored s.memory (psp + 128) (length kept) (omega (arith, h.at_most));
        text_there = second.image_there;
        outside_same = λ i out. elim out [
          | inl before ↦ second.others_kept i (inl (omega arith)) ∙ first.others_kept i (inl before)
          | inr behind ↦
              second.others_kept i (inr (omega (arith, h.at_most, text_fits)))
              ∙ first.others_kept i (inr (omega arith))
        ];
      },
    )
