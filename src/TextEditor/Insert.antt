-- ===== src/TextEditor/Insert.antt =====
-- A character that is typed is inserted in the text of the line.
use osdev_graphical.Base.{
  ℕ, zero, suc, ◌+◌, ◌-◌, ◌≤◌, ◌<◌, ◌≡◌, refl, arith, ◌∙◌, sym, ap, Bool-cases, true, false, inl,
  inr, List, [], ◌∷◌, ◌++◌, length, if◌then◌else◌, ◌==◌, ltb, leb, ◌&&◌,
}
use osdev_graphical.TextEditor.{TextRegion, put, bytes_from, region_bytes, shift_up}
use osdev_graphical.TextEditor.File.{bytes_from-same, bytes_from-last}
use osdev_graphical.TextEditor.Shift.{insert_at, shifted, shift_up-inside, bytes_from-insert}

-- Every region is full, but the last, which has at most `most` bytes.
abbrev pub IsChain : ℕ → List TextRegion → Type 0
IsChain most [] = 1 ≤ 0
IsChain most (r ∷ []) = r.pos ≤ most
IsChain most (r ∷ r2 ∷ line) = (r.pos ≡ 128) × IsChain most (r2 ∷ line)

pub bytes-length : (b : ℕ → ℕ) (i n : ℕ) → length (bytes_from b i n) ≡ n
unfolding bytes_from
bytes-length b i zero = refl
bytes-length b i (suc n) = omega (arith, bytes-length b (suc i) n)

pub insert_at-append :
    (k c : ℕ) (l m : List ℕ) → k ≤ length l → insert_at k c (l ++ m) ≡ insert_at k c l ++ m
insert_at-append zero c l m h = refl
insert_at-append (suc k) c [] m h = absurd (omega arith)
insert_at-append (suc k) c (x ∷ l) m h =
    ap (λ (t : List ℕ). x ∷ t) (insert_at-append k c l m (omega arith))

-- A buffer as the loop leaves it, with `c` where it has made room.
filled-insert :
    (from n c : ℕ) (r : TextRegion) (b' : ℕ → ℕ)
    → from ≤ n
    → ((j : ℕ) → j < suc n → b' j ≡ (if j == from then c else shifted from (n - from) r.buffer j))
    → bytes_from b' 0 (suc n) ≡ insert_at from c (bytes_from r.buffer 0 n)
filled-insert from n c r b' h same =
    bytes_from-insert r.buffer b' c 0 from n h (λ j l u. same j (omega arith) ∙ ground arith)
      (ap b' (start from) ∙ same from (omega arith) ∙ ground arith)
      (λ j l u. same (suc j) (omega arith) ∙ above j l u)
  where
    start : (k : ℕ) → 0 + k ≡ k
    start k = omega arith

    above :
        (j : ℕ)
        → 0 + from ≤ j
        → j < 0 + n
        → (if suc j == from then c else shifted from (n - from) r.buffer (suc j)) ≡ r.buffer j
    above j l u =
        let other : (suc j == from) ≡ false = ground arith in
        let within : (ltb from (suc j) && leb (suc j) (from + (n - from))) ≡ true = ground arith in
        let back : suc j - 1 ≡ j = omega arith in rw (other, within, back) refl

-- The last region of a line, which has room.
pub last_region :
    (r next : TextRegion) (from c : ℕ)
    → r.pos ≤ 127
    → from ≤ r.pos
    → let r1 = (shift_up from (r.pos - from) (r, next)).0 in
      (region_bytes (record (put r1 from c) { pos = r1.pos + 1 })
        ≡ insert_at from c (region_bytes r))
      × (r1.pos ≡ r.pos)
unfolding region_bytes put
last_region r next from c h l =
    let w = shift_up-inside from (r.pos - from) r next (omega arith) in
    let r1 = (shift_up from (r.pos - from) (r, next)).0 in
    let b' = λ (j : ℕ). if j == from then c else r1.buffer j in
    let more : r1.pos + 1 ≡ suc r.pos = omega (arith, w.size) in
    (
      ap (bytes_from b' 0) more
          ∙ filled-insert from r.pos c r b' l
              (λ j u. ap (λ (t : ℕ). if j == from then c else t) (w.bytes j)),
      w.size,
    )

first_move :
    (from m : ℕ) (r next : TextRegion)
    → from + m ≡ 127
    → shift_up from (suc m) (r, next) ≡ shift_up from m (r, put next 0 (r.buffer 127))
unfolding shift_up
first_move from m r next h =
    let last : (from + m + 1 == 128) ≡ true = ground arith in
    rw (shift_up, last) (ap (λ (j : ℕ). shift_up from m (r, put next 0 (r.buffer j))) h)

-- The last byte of a full region, which goes behind the others.
full_bytes :
    (r : TextRegion) (b : ℕ → ℕ) (from c : ℕ)
    → from ≤ 127
    → ((j : ℕ) → b j ≡ shifted from (127 - from) r.buffer j)
    → bytes_from (λ j. if j == from then c else b j) 0 128 ++ (r.buffer 127 ∷ [])
      ≡ insert_at from c (bytes_from r.buffer 0 128)
full_bytes r b from c l w =
    let b' = λ (j : ℕ). if j == from then c else b j in
    let b'' = λ (j : ℕ). if j == 128 then r.buffer 127 else b' j in
    ap (λ (t : List ℕ). t ++ (r.buffer 127 ∷ []))
      (bytes_from-same b' b'' 0 128 (λ j k u. ground arith))
    ∙ sym (bytes_from-last b'' 0 128)
    ∙ filled-insert from 128 c r b'' (omega arith) all
  where
    all :
        (j : ℕ)
        → j < 129
        → (if j == 128 then r.buffer 127 else if j == from then c else b j)
          ≡ (if j == from then c else shifted from (128 - from) r.buffer j)
    all j u = elim (Bool-cases (j == 128)) [
      | inl e ↦
          let other : (j == from) ≡ false = ground arith in
          let within : (ltb from j && leb j (from + (128 - from))) ≡ true = ground arith in
          let back : j - 1 ≡ 127 = ground arith in rw (e, other, within) (ap r.buffer (sym back))
      | inr e ↦
          let same : shifted from (127 - from) r.buffer j ≡ shifted from (128 - from) r.buffer j =
            ground arith in
          rw e (ap (λ (t : ℕ). if j == from then c else t) (w j ∙ same))
    ]

-- A full region gives its last byte to the next one.
pub full_region :
    (r next : TextRegion) (from c : ℕ)
    → r.pos ≡ 128
    → from ≤ 127
    → let (r1, next1) = shift_up from (r.pos - from) (r, next) in
      (region_bytes (put r1 from c) ++ (r.buffer 127 ∷ []) ≡ insert_at from c (region_bytes r))
      × (r1.pos ≡ 128)
      × (next1 ≡ put next 0 (r.buffer 127))
unfolding region_bytes put
full_region r next from c h l =
    let m = 127 - from in
    let next1 = put next 0 (r.buffer 127) in
    let w = shift_up-inside from m r next1 (omega arith) in
    let r1 = (shift_up from m (r, next1)).0 in
    let first : shift_up from (r.pos - from) (r, next) ≡ shift_up from m (r, next1) =
      let count : r.pos - from ≡ suc m = omega arith in
      ap (λ (n : ℕ). shift_up from n (r, next)) count ∙ first_move from m r next (omega arith) in
    let b' = λ (j : ℕ). if j == from then c else r1.buffer j in
    rw first (
      ap (λ (n : ℕ). bytes_from b' 0 n ++ (r.buffer 127 ∷ [])) (w.size ∙ h)
          ∙ full_bytes r r1.buffer from c l w.bytes
          ∙ ap (λ (n : ℕ). insert_at from c (bytes_from r.buffer 0 n)) (sym h),
      w.size ∙ h,
      w.beyond,
    )
