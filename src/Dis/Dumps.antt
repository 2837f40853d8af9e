-- ===== src/Dis/Dumps.antt =====
-- dis/dis.cpp: what `disasm_hex` lists.
use door86c.Common.{
  ℕ, zero, suc, ◌+◌, ◌-◌, ◌%◌, ◌==◌, subst, ◌≤◌, ◌<◌, ◌≡◌, refl, ap, ◌∙◌, arith, true, false, some,
  List, [], ◌∷◌, ltb, Bool-cases, inl, inr, length, drop,
}
use door86c.Dis.{
  Columns, finished, Rows, hex_byte, end_block, hex_block, new_block, list_hex, disasm_hex,
}

hex_block-left :
    (f : Columns) (n : ℕ) (bytes : List ℕ) (r : Rows) → (hex_block f n bytes r).0 ≡ drop n bytes
unfolding hex_block
hex_block-left f zero bytes r = refl
hex_block-left f (suc n) [] r = refl
hex_block-left f (suc n) (ch ∷ bytes) r = hex_block-left f n bytes (hex_byte f ch r)

length-drop : (n : ℕ) (xs : List ℕ) → length (drop n xs) ≡ length xs - n
length-drop zero xs = omega arith
length-drop (suc n) [] = omega arith
length-drop (suc n) (x ∷ xs) = omega (arith, length-drop n xs)

-- All of the bytes in one pass, with no blocks.
pub feed : Columns → List ℕ → Rows → Rows
feed f [] r = r
feed f (ch ∷ bytes) r = feed f bytes (hex_byte f ch r)

hex_block-feed :
    (f : Columns) (n : ℕ) (bytes : List ℕ) (r : Rows)
    → feed f (drop n bytes) (hex_block f n bytes r).1 ≡ feed f bytes r
unfolding hex_block feed
hex_block-feed f zero bytes r = refl
hex_block-feed f (suc n) [] r = refl
hex_block-feed f (suc n) (ch ∷ bytes) r = hex_block-feed f n bytes (hex_byte f ch r)

hex_block_all :
    (f : Columns) (n : ℕ) (bytes : List ℕ) (r : Rows)
    → length bytes ≤ n
    → (hex_block f n bytes r).1 ≡ feed f bytes r
unfolding hex_block feed
hex_block_all f zero [] r h = refl
hex_block_all f zero (ch ∷ bytes) r h = absurd (omega arith)
hex_block_all f (suc n) [] r h = refl
hex_block_all f (suc n) (ch ∷ bytes) r h = hex_block_all f n bytes (hex_byte f ch r) (omega arith)

-- So many bytes are in the row; none, and its lines are empty.
record Aligned (c : ℕ) (r : Rows) : Type 0 where
  pub counted : r.curline ≡ c
  pub bare1 : c ≡ 0 → r.line1 ≡ []
  pub bare2 : c ≡ 0 → r.line2 ≡ []

hex_byte-Aligned :
    (f : Columns) (ch c : ℕ) (r : Rows)
    → c < 16
    → Aligned c r
    → Aligned ((c + 1) % 16) (hex_byte f ch r)
unfolding hex_byte
hex_byte-Aligned f ch c r small a = elim (Bool-cases (r.curline + 1 == 16)) [
  | inl full ↦ record {
    counted = ground (arith, a.counted);
    bare1 = λ e. ground arith;
    bare2 = λ e. ground arith;
  }
  | inr onward ↦ record {
    counted = ground (arith, a.counted);
    bare1 = λ e. absurd (ground (arith, a.counted));
    bare2 = λ e. absurd (ground (arith, a.counted));
  }
]

hex_block-Aligned :
    (f : Columns) (n c : ℕ) (bytes : List ℕ) (r : Rows)
    → c < 16
    → n ≤ length bytes
    → Aligned c r
    → Aligned ((c + n) % 16) (hex_block f n bytes r).1
unfolding hex_block
hex_block-Aligned f zero c bytes r small h a =
    let same : (c + 0) % 16 ≡ c = omega arith in rw same a
hex_block-Aligned f (suc n) c [] r small h a = absurd (omega arith)
hex_block-Aligned f (suc n) c (ch ∷ bytes) r small h a =
    let moved : ((c + 1) % 16 + n) % 16 ≡ (c + suc n) % 16 = omega arith in
    subst (λ (t : ℕ). Aligned t (hex_block f n bytes (hex_byte f ch r)).1) moved
      (hex_block-Aligned f n ((c + 1) % 16) bytes (hex_byte f ch r) (omega arith) (omega arith)
        (hex_byte-Aligned f ch c r small a))

new_block-Aligned : (r : Rows) → Aligned 0 r → new_block r ≡ r
new_block-Aligned r a = ground (arith, a.counted, a.bare1 refl, a.bare2 refl)

end_block-Aligned : (f : Columns) (r : Rows) → Aligned 0 r → end_block f r ≡ r
unfolding end_block
end_block-Aligned f r a = ground (arith, a.bare1 refl)

below : (bytes : List ℕ) → ltb (length bytes) 1024 ≡ true → length bytes ≤ 1024
below bytes h = ground arith

not_below : (bytes : List ℕ) → ltb (length bytes) 1024 ≡ false → 1024 ≤ length bytes
not_below bytes h = ground arith

list_hex_last :
    (f : Columns) (rounds : ℕ) (bytes : List ℕ) (r : Rows)
    → ltb (length bytes) 1024 ≡ true
    → list_hex f (suc rounds) bytes r
      ≡ finished (end_block f (hex_block f 1024 bytes (new_block r)).1).out
unfolding list_hex
list_hex_last f rounds bytes r last = rw last refl

list_hex_more :
    (f : Columns) (rounds : ℕ) (bytes : List ℕ) (r : Rows)
    → ltb (length bytes) 1024 ≡ false
    → list_hex f (suc rounds) bytes r
      ≡ list_hex f rounds
          (hex_block f 1024 bytes (new_block r)).0
          (end_block f (hex_block f 1024 bytes (new_block r)).1)
unfolding list_hex
list_hex_more f rounds bytes r more = rw more refl

list_hex-feed :
    (f : Columns) (rounds : ℕ) (bytes : List ℕ) (r : Rows)
    → length bytes < rounds
    → Aligned 0 r
    → list_hex f rounds bytes r ≡ finished (end_block f (feed f bytes r)).out
list_hex-feed f zero bytes r h a = absurd (omega arith)
list_hex-feed f (suc rounds) bytes r h a = elim (Bool-cases (ltb (length bytes) 1024)) [
  | inl last ↦
      list_hex_last f rounds bytes r last
      ∙ ap (λ t. finished (end_block f (hex_block f 1024 bytes t).1).out) (new_block-Aligned r a)
      ∙ ap (λ t. finished (end_block f t).out) (hex_block_all f 1024 bytes r (below bytes last))
  | inr more ↦
      let r1 = (hex_block f 1024 bytes r).1 in
      let full : Aligned 0 r1 =
        hex_block-Aligned f 1024 0 bytes r (omega arith) (not_below bytes more) a in
      list_hex_more f rounds bytes r more
      ∙ ap
          (λ t.
            list_hex f rounds (hex_block f 1024 bytes t).0
              (end_block f (hex_block f 1024 bytes t).1))
          (new_block-Aligned r a)
      ∙ ap (λ t. list_hex f rounds t (end_block f r1)) (hex_block-left f 1024 bytes r)
      ∙ ap (list_hex f rounds (drop 1024 bytes)) (end_block-Aligned f r1 full)
      ∙ list_hex-feed f rounds (drop 1024 bytes) r1
          (omega (arith, length-drop 1024 bytes, not_below bytes more)) full
      ∙ ap (λ t. finished (end_block f t).out) (hex_block-feed f 1024 bytes r)
]

-- For a file that can be read: the listing of its bytes from the offset on is the one that a single
-- pass over them makes, with the rest of the last row behind it: that the file is read in blocks of
-- 1024 bytes does not show, and so many rounds as the file has bytes, and one more, are enough.
pub disasm_hex-feed :
    (f : Columns) (bytes : List ℕ) (code_offset : ℕ)
    → disasm_hex f (some bytes) code_offset
      ≡ finished
          (end_block f (
            feed f
              (drop code_offset bytes)
              (record { row = code_offset; line1 = []; line2 = []; curline = 0; out = [] }))).out
unfolding disasm_hex
disasm_hex-feed f bytes code_offset =
    list_hex-feed f (suc (length bytes)) (drop code_offset bytes)
      (record { row = code_offset; line1 = []; line2 = []; curline = 0; out = [] })
      (omega (arith, length-drop code_offset bytes))
      (record { counted = refl; bare1 = λ e. refl; bare2 = λ e. refl })
