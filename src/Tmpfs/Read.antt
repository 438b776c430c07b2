-- ===== src/Tmpfs/Read.antt =====
-- What a read gets: bytes of the file's first block only.
use osdev_graphical.Base.{
  ℕ, zero, suc, ◌+◌, ◌-◌, ◌%◌, ◌^◌, ◌≤◌, ◌<◌, ◌≡◌, refl, arith, ◌∙◌, sym, ap, Bool, Bool-cases, inl,
  inr, true, false, List, [], ◌∷◌, ◌++◌, length, take, drop, if◌then◌else◌, ◌==◌, ltb, leb,
}
use mathlib.Core.List.{append-nil}
use osdev_graphical.Vfs.{File}
use osdev_graphical.Tmpfs.{Chain, block_data, Reading, read_block, read_chain, tfsys_read}
use osdev_graphical.Tmpfs.Write.{IsPacked}

take-nil : (n k : ℕ) → take n (drop {A = ℕ} k []) ≡ []
take-nil zero k = refl
take-nil (suc n) zero = refl
take-nil (suc n) (suc k) = refl

take-past : (n k : ℕ) (xs : List ℕ) → length xs ≤ k → take n (drop k xs) ≡ []
take-past n zero [] h = take-nil n 0
take-past n zero (x ∷ xs) h = absurd (omega arith)
take-past n (suc k) [] h = take-nil n (suc k)
take-past n (suc k) (x ∷ xs) h = take-past n k xs (omega arith)

drop-later :
    (n position read : ℕ) (c : ℕ) (cs : List ℕ)
    → read < position
    → take n (drop (position - read) (c ∷ cs)) ≡ take n (drop (position - suc read) cs)
drop-later n position read c cs h =
    let e : position - read ≡ suc (position - suc read) = omega arith in rw e refl

-- The law of what is read from index `read` of a block on, when the position is not before it.
abbrev BlockLaw : List ℕ → ℕ → ℕ → ℕ → Bool × Reading → Type 0
BlockLaw cs read position len r =
    (r.1.bytes ≡ take len (drop (position - read) cs)) × (r.0 ≡ true → block_data ≤ r.1.position)

read_block_lem :
    (cs : List ℕ) (read position len : ℕ)
    → length cs + read ≤ block_data
    → read ≤ position
    → BlockLaw cs read position len (read_block cs read position len)
unfolding read_block
read_block_lem [] read position len h p = (sym (take-nil len (position - read)), λ e. cc)
read_block_lem (c ∷ cs) read position zero h p = (refl, λ e. cc)
read_block_lem (c ∷ cs) read position (suc len) h p =
    let more : (suc len == 0) ≡ false = ground arith in
    let less : suc len - 1 ≡ len = omega arith in
    elim (Bool-cases (leb position read)) [
      | inl e ↦
          let at : position - read ≡ 0 = ground arith in
          let next = read_block_lem cs (suc read) (suc position) len (omega arith) (omega arith) in
          elim (Bool-cases (suc read == block_data)) [
            | inl f ↦
                let last : length cs ≡ 0 = ground arith in
                rw (more, e, f, at)
                  (
                    ap (λ (t : List ℕ). c ∷ t) (sym (take-past len 0 cs (omega (arith, last)))),
                    λ q. ground arith,
                  )
            | inr f ↦
                let at' : position - read ≡ suc position - suc read = omega arith in
                rw (more, e, f, less, at)
                  (
                    ap (λ (t : List ℕ). c ∷ t)
                        (next.0 ∙ ap (λ (k : ℕ). take len (drop k cs)) (sym at' ∙ at)),
                    next.1,
                  )
          ]
      | inr e ↦
          let later = drop-later (suc len) position read c cs (ground arith) in
          let next = read_block_lem cs (suc read) position (suc len) (omega arith) (ground arith) in
          elim (Bool-cases (suc read == block_data)) [
            | inl f ↦
                let last : length cs ≡ 0 = ground arith in
                rw (more, e, f, later)
                  (
                    sym (take-past (suc len) (position - suc read) cs (omega (arith, last))),
                    λ q. ground arith,
                  )
            | inr f ↦ rw (more, e, f, later) next
          ]
    ]

packed-le : (b : List ℕ) (bs : Chain) → IsPacked (b ∷ bs) → length b ≤ block_data
packed-le b [] w = omega (arith, w)
packed-le b (c ∷ cs) w = omega (arith, w.0)

-- From the start of a block on.
whole_block :
    (b : List ℕ) (position len : ℕ)
    → length b ≤ block_data
    → let r = read_block b 0 position len in
      (r.1.bytes ≡ take len (drop position b)) × (r.0 ≡ true → block_data ≤ r.1.position)
whole_block b position len h =
    let all = read_block_lem b 0 position len (omega arith) (omega arith) in
    let start : position - 0 ≡ position = omega arith in
    (all.0 ∙ ap (λ (k : ℕ). take len (drop k b)) start, all.1)

-- The blocks behind the first add nothing: the read goes on to them only with the position behind
-- every index of a block.
read_chain_lem :
    (b : List ℕ) (bs : Chain) (position len : ℕ)
    → IsPacked (b ∷ bs)
    → (read_chain (b ∷ bs) position len).1.bytes ≡ take len (drop position b)
unfolding read_chain
read_chain_lem b [] position len w =
    let (got, moved) = whole_block b position len (packed-le b [] w) in
    elim (Bool-cases (read_block b 0 position len).0) [
      | inl e ↦ rw (read_chain, e) (append-nil (read_block b 0 position len).1.bytes ∙ got)
      | inr e ↦ rw (read_chain, e) got
    ]
read_chain_lem b (c ∷ cs) position len w =
    let r = read_block b 0 position len in
    let (got, moved) = whole_block b position len (packed-le b (c ∷ cs) w) in
    elim (Bool-cases r.0) [
      | inl e ↦
          let next = read_chain_lem c cs r.1.position r.1.left w.1 in
          let past =
            take-past r.1.left r.1.position c (omega (arith, packed-le c cs w.1, moved e)) in
          rw (read_chain, e)
            (ap (λ (t : List ℕ). r.1.bytes ++ t) (next ∙ past) ∙ append-nil r.1.bytes ∙ got)
      | inr e ↦ rw (read_chain, e) got
    ]

-- On a chain whose blocks are full but for the last, when the position and the length do not wrap:
-- `tfsys_read` of more bytes than the handle's length leaves behind the position reads none; otherwise
-- it reads, from the position on and up to the length, bytes of the first block only, however many
-- blocks the file has.
pub tfsys_read-first :
    (file : File) (b : List ℕ) (bs : Chain) (len : ℕ)
    → IsPacked (b ∷ bs)
    → file.position + len < 2 ^ 32
    → (tfsys_read file (b ∷ bs) len).1
      ≡ (if ltb file.file_length (file.position + len) then [] else take len (drop file.position b))
unfolding tfsys_read
tfsys_read-first file b bs len w h =
    let end : (file.position + len) % 2 ^ 32 ≡ file.position + len = omega arith in
    elim (Bool-cases (ltb file.file_length (file.position + len))) [
      | inl e ↦ rw (tfsys_read, end, e) refl
      | inr e ↦ rw (tfsys_read, end, e) (read_chain_lem b bs file.position len w)
    ]
