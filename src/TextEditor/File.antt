-- ===== src/TextEditor/File.antt =====
-- What is written of a file that was read.
use osdev_graphical.Base.{
  ℕ, zero, suc, ◌+◌, ◌≤◌, ◌<◌, ◌≡◌, refl, arith, ◌∙◌, sym, ap, ap₂, Bool-cases, true, inl, inr,
  List, [], ◌∷◌, ◌++◌, length, if◌then◌else◌, ◌==◌,
}
use osdev_graphical.TextEditor.{
  TextRegion, Read, alloc_text_region, put, push, load_from, load_file, bytes_from, region_bytes,
  line_bytes, write_file,
}

pub append_assoc : (a b c : List ℕ) → (a ++ b) ++ c ≡ a ++ (b ++ c)
append_assoc [] b c = refl
append_assoc (x ∷ a) b c = ap (λ (l : List ℕ). x ∷ l) (append_assoc a b c)

pub append_empty : (a : List ℕ) → a ++ [] ≡ a
append_empty [] = refl
append_empty (x ∷ a) = ap (λ (l : List ℕ). x ∷ l) (append_empty a)

pub bytes_from-last :
    (b : ℕ → ℕ) (i n : ℕ) → bytes_from b i (suc n) ≡ bytes_from b i n ++ (b (i + n) ∷ [])
unfolding bytes_from
bytes_from-last b i zero = ap (λ (k : ℕ). b k ∷ []) (omega arith)
bytes_from-last b i (suc n) =
    ap (λ (l : List ℕ). b i ∷ l)
      (bytes_from-last b (suc i) n
        ∙ ap (λ (k : ℕ). bytes_from b (suc i) n ++ (b k ∷ [])) (omega arith))

-- Two buffers that agree on the bytes read.
pub bytes_from-same :
    (b b' : ℕ → ℕ) (i n : ℕ)
    → ((j : ℕ) → i ≤ j → j < i + n → b j ≡ b' j)
    → bytes_from b i n ≡ bytes_from b' i n
unfolding bytes_from
bytes_from-same b b' i zero h = refl
bytes_from-same b b' i (suc n) h =
    ap₂ (λ (x : ℕ) (l : List ℕ). x ∷ l) (h i (omega arith) (omega arith))
      (bytes_from-same b b' (suc i) n (λ j l u. h j (omega arith) (omega arith)))

put_end :
    (r : TextRegion) (c : ℕ)
    → region_bytes (record (put r r.pos c) { pos = r.pos + 1 }) ≡ region_bytes r ++ (c ∷ [])
unfolding region_bytes put
put_end r c =
    let b = λ (j : ℕ). if j == r.pos then c else r.buffer j in
    let self : (r.pos == r.pos) ≡ true = ground arith in
    let next : r.pos + 1 ≡ suc r.pos = omega arith in
    let byte : b (0 + r.pos) ≡ c = ground arith in
    ap (bytes_from b 0) next
    ∙ bytes_from-last b 0 r.pos
    ∙ ap₂ (λ (l : List ℕ) (x : ℕ). l ++ (x ∷ []))
        (bytes_from-same b r.buffer 0 r.pos (λ j l u. ground arith)) byte

push_lem :
    (r : TextRegion) (line : List TextRegion) (c : ℕ)
    → (line_bytes (push (r ∷ line) c) ≡ line_bytes (r ∷ line) ++ (c ∷ []))
      × (1 ≤ length (push (r ∷ line) c))
unfolding push put line_bytes region_bytes bytes_from alloc_text_region
push_lem r [] c =
    let r' : TextRegion = record (put r r.pos c) { pos = r.pos + 1 } in
    let same : region_bytes r' ++ [] ≡ (region_bytes r ++ []) ++ (c ∷ []) =
      append_empty (region_bytes r')
      ∙ put_end r c
      ∙ ap (λ (l : List ℕ). l ++ (c ∷ [])) (sym (append_empty (region_bytes r))) in
    elim (Bool-cases (r.pos + 1 == 128)) [
      | inl f ↦ rw f (same, omega arith)
      | inr f ↦ rw f (same, omega arith)
    ]
push_lem r (r2 ∷ line) c =
    let (e, l) = push_lem r2 line c in
    (
      ap (λ (t : List ℕ). region_bytes r ++ t) e
          ∙ sym (append_assoc (region_bytes r) (line_bytes (r2 ∷ line)) (c ∷ [])),
      omega (arith, l),
    )

-- The bytes of the calls of `fread` before the first that returns 0.
abbrev pub delivered : List Read → List ℕ
delivered [] = []
delivered (f ∷ fs) = let rest = delivered fs in if f.result == 0 then [] else f.c ∷ rest

load_lem :
    (reads : List Read) (line : List TextRegion)
    → 1 ≤ length line
    → write_file (load_from line reads) ≡ line_bytes line ++ delivered reads
unfolding load_from write_file line_bytes alloc_text_region region_bytes bytes_from
load_lem [] line h = refl
load_lem (f ∷ fs) [] h = absurd (omega arith)
load_lem (f ∷ fs) (r ∷ line) h =
    let (e, l) = push_lem r line f.c in
    let joined : line_bytes (push (r ∷ line) f.c) ++ delivered fs
        ≡ line_bytes (r ∷ line) ++ (f.c ∷ delivered fs) =
      ap (λ (t : List ℕ). t ++ delivered fs) e
      ∙ append_assoc (line_bytes (r ∷ line)) (f.c ∷ []) (delivered fs) in
    elim (Bool-cases (f.result == 0)) [
      | inl z ↦ rw z refl
      | inr z ↦ elim (Bool-cases (f.c == 10)) [
        | inl n ↦
            rw (z, n)
              (ap (λ (t : List ℕ). line_bytes (push (r ∷ line) f.c) ++ t)
                  (load_lem fs (alloc_text_region ∷ []) (omega arith))
                ∙ joined)
        | inr n ↦ rw (z, n) (load_lem fs (push (r ∷ line) f.c) l ∙ joined)
      ]
    ]

-- Whatever the calls of `fread` give: the lines and regions that `load_file` makes of them are written
-- by `write_file` as the bytes of the calls before the first that returns 0, in their order, and
-- without the byte of that call.
pub write_file-load_file : (reads : List Read) → write_file (load_file reads) ≡ delivered reads
unfolding load_file line_bytes alloc_text_region region_bytes bytes_from
write_file-load_file reads = load_lem reads (alloc_text_region ∷ []) (omega arith)
