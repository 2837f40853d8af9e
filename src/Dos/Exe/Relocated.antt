-- ===== src/Dos/Exe/Relocated.antt =====
-- dos/exe.cpp, Exe::load_image: what the relocation changes.
use door86c.Common.{
  ℕ, ◌+◌, ◌*◌, ◌/◌, ◌%◌, ◌<◌, ◌≤◌, ◌≡◌, ◌⊎◌, refl, arith, List, [], ◌∷◌, u16, inl, inr, ◌∙◌, ◌==◌,
  if◌then◌else◌,
}
use door86c.Memory.{Memory, abs16, set_abs16}
use door86c.Machine.{Cpu}
use door86c.Machine.Exec.{ok, ◌>>=◌}
use door86c.Dos.Exe.{ExeReloc, relocate, relocate_all}

abbrev pub address : ℕ → ExeReloc → ℕ
address image_seg relo = relo.segment * 0x10 + image_seg * 0x10 + relo.offset

abbrev pub Apart : ℕ → ℕ → Type 0
Apart a b = (a + 2 ≤ b) ⊎ (b + 2 ≤ a)

abbrev pub AllApart : ℕ → ℕ → List ExeReloc → Type 0
AllApart image_seg a [] = Unit {0}
AllApart image_seg a (relo ∷ relos) = Apart a (address image_seg relo) × AllApart image_seg a relos

-- Every entry names a word in memory, which holds `w`, and no two of the words overlap.
abbrev pub Relocatable : ℕ → Memory → List ExeReloc → Type 0
Relocatable image_seg m [] = Unit {0}
Relocatable image_seg m (relo ∷ relos) =
    (address image_seg relo + 2 ≤ m.size)
    × AllApart image_seg (address image_seg relo) relos
    × Relocatable image_seg m relos

abbrev pub word_at : Memory → ℕ → ℕ
word_at m a = m.cells a + m.cells (a + 1) * 256

-- The word of each entry has the image's segment added to it.
abbrev pub Shifted : ℕ → Memory → Memory → List ExeReloc → Type 0
Shifted image_seg m m' [] = Unit {0}
Shifted image_seg m m' (relo ∷ relos) =
    (word_at m' (address image_seg relo) ≡ u16 (word_at m (address image_seg relo) + image_seg))
    × Shifted image_seg m m' relos

-- A cell of no entry's word.
abbrev pub Elsewhere : ℕ → ℕ → List ExeReloc → Type 0
Elsewhere image_seg i [] = Unit {0}
Elsewhere image_seg i (relo ∷ relos) =
    ((i < address image_seg relo) ⊎ (address image_seg relo + 2 ≤ i)) × Elsewhere image_seg i relos

pub record Relocated (image_seg : ℕ) (relos : List ExeReloc) (m m' : Memory) : Type 0 where
  pub size_same : m'.size ≡ m.size
  pub shifted : Shifted image_seg m m' relos
  pub others_same : (i : ℕ) → Elsewhere image_seg i relos → m'.cells i ≡ m.cells i

abbrev shifted_memory : ℕ → ℕ → Memory → Memory
shifted_memory image_seg a m =
    let v = u16 (word_at m a + image_seg) in
    record m { cells = λ i. if i == a + 1 then v / 256 else if i == a then v % 256 else m.cells i }

relocate_lem :
    (image_seg : ℕ) (relo : ExeReloc) (s : Cpu)
    → address image_seg relo + 2 ≤ s.memory.size
    → relocate image_seg relo s
      ≡ ok tt (record s { memory = shifted_memory image_seg (address image_seg relo) s.memory })
unfolding relocate abs16 set_abs16
relocate_lem image_seg relo s inside = ground arith

Shifted-later :
    (image_seg a : ℕ) (m m1 m' : Memory) (relos : List ExeReloc)
    → AllApart image_seg a relos
    → ((i : ℕ) → (i < a) ⊎ (a + 2 ≤ i) → m1.cells i ≡ m.cells i)
    → Shifted image_seg m1 m' relos
    → Shifted image_seg m m' relos
Shifted-later image_seg a m m1 m' [] apart same h = tt
Shifted-later image_seg a m m1 m' (relo ∷ relos) (apart, rest) same (here, h) =
    let b = address image_seg relo in
    (
      ground (arith, here, apart, same b, same (b + 1)),
      Shifted-later image_seg a m m1 m' relos rest same h,
    )

Elsewhere-apart :
    (image_seg a i : ℕ) (relos : List ExeReloc)
    → AllApart image_seg a relos
    → a ≤ i
    → i < a + 2
    → Elsewhere image_seg i relos
Elsewhere-apart image_seg a i [] apart ge lt = tt
Elsewhere-apart image_seg a i (relo ∷ relos) (inl before, rest) ge lt =
    (inl (omega arith), Elsewhere-apart image_seg a i relos rest ge lt)
Elsewhere-apart image_seg a i (relo ∷ relos) (inr behind, rest) ge lt =
    (inr (omega arith), Elsewhere-apart image_seg a i relos rest ge lt)

Relocatable-size :
    (image_seg : ℕ) (m m' : Memory) (relos : List ExeReloc)
    → m'.size ≡ m.size
    → Relocatable image_seg m relos
    → Relocatable image_seg m' relos
Relocatable-size image_seg m m' [] e h = tt
Relocatable-size image_seg m m' (relo ∷ relos) e (inside, apart, h) =
    (omega (arith, e, inside), apart, Relocatable-size image_seg m m' relos e h)

-- If every entry of the relocation table names a word in memory, and no two of them overlap: the
-- relocation succeeds, each of the words has the image's segment added to it, modulo 2^16, and no
-- other byte changes.
pub relocate_all-Relocated :
    (image_seg : ℕ) (relos : List ExeReloc) (s : Cpu)
    → Relocatable image_seg s.memory relos
    → (m : Memory) × (relocate_all image_seg relos s ≡ ok tt (record s { memory = m }))
      × Relocated image_seg relos s.memory m
unfolding relocate_all
relocate_all-Relocated image_seg [] s h =
    (s.memory, refl, record { size_same = refl; shifted = tt; others_same = λ i e. refl })
relocate_all-Relocated image_seg (relo ∷ relos) s (inside, apart, h) =
    let a = address image_seg relo in
    let m1 = shifted_memory image_seg a s.memory in
    let (m, e, r) =
      relocate_all-Relocated image_seg relos (record s { memory = m1 })
        (Relocatable-size image_seg s.memory m1 relos refl h) in
    let kept : (i : ℕ) → a ≤ i → i < a + 2 → m.cells i ≡ m1.cells i =
      λ i ge lt. r.others_same i (Elsewhere-apart image_seg a i relos apart ge lt) in
    (
      m,
      rw (relocate_lem image_seg relo s inside, ◌>>=◌) e,
      record {
        size_same = r.size_same;
        shifted = (
          ground
              (arith, kept a (omega arith) (omega arith), kept (a + 1) (omega arith) (omega arith)),
          Shifted-later image_seg a s.memory m1 m relos apart (λ i out. ground arith) r.shifted,
        );
        others_same = λ i (out, rest). r.others_same i rest ∙ ground arith;
      },
    )
