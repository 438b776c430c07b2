-- ===== src/TextEditor/Shift.antt =====
-- What the copying loop does to a buffer, and a buffer with a byte inserted.
use osdev_graphical.Base.{
  ℕ, zero, suc, ◌+◌, ◌-◌, ◌≤◌, ◌<◌, ◌≡◌, refl, arith, ◌∙◌, sym, ap, ap₂, Bool-cases, true, false,
  inl, inr, List, [], ◌∷◌, if◌then◌else◌, ◌==◌, ltb, leb, ◌&&◌,
}
use osdev_graphical.TextEditor.{TextRegion, put, bytes_from, shift_up}

-- A list with `c` before its element number `k`.
abbrev pub insert_at : ℕ → ℕ → List ℕ → List ℕ
insert_at zero c l = c ∷ l
insert_at (suc k) c [] = c ∷ []
insert_at (suc k) c (x ∷ l) = x ∷ insert_at k c l

-- The buffer after the loop on the indices from `from` to `from + n - 1`.
abbrev pub shifted : ℕ → ℕ → (ℕ → ℕ) → ℕ → ℕ
shifted from n b j = if ltb from j && leb j (from + n) then b (j - 1) else b j

pub record IsShifted (from n : ℕ) (r next r' next' : TextRegion) : Type 0 where
  pub bytes : (j : ℕ) → r'.buffer j ≡ shifted from n r.buffer j
  pub size : r'.pos ≡ r.pos
  pub beyond : next' ≡ next

-- The byte that is moved first, and the others.
one_more :
    (from n : ℕ) (b : ℕ → ℕ) (j : ℕ)
    → shifted from n (λ k. if k == from + n + 1 then b (from + n) else b k) j
      ≡ shifted from (suc n) b j
one_more from n b j = elim (Bool-cases (j == from + n + 1)) [
  | inl e ↦
      let q : j - 1 ≡ from + n = ground arith in
      let above : leb j (from + n) ≡ false = ground arith in
      let within : leb j (from + suc n) ≡ true = ground arith in
      let beyond : ltb from j ≡ true = ground arith in rw (e, above, within, beyond) (ap b (sym q))
  | inr e ↦ elim (Bool-cases (ltb from j && leb j (from + n))) [
    | inl t ↦
        let more : (ltb from j && leb j (from + suc n)) ≡ true = ground arith in
        let other : (j - 1 == from + n + 1) ≡ false = ground arith in rw (t, more, other) refl
    | inr f ↦
        let more : (ltb from j && leb j (from + suc n)) ≡ false = ground arith in
        rw (f, more, e) refl
  ]
]

pub shift_up-inside :
    (from n : ℕ) (r next : TextRegion)
    → from + n ≤ 127
    → IsShifted from n r next (shift_up from n (r, next)).0 (shift_up from n (r, next)).1
unfolding shift_up put
shift_up-inside from zero r next h = record {
  bytes = λ j. ground arith;
  size = refl;
  beyond = refl;
}
shift_up-inside from (suc n) r next h =
    let inside : (from + n + 1 == 128) ≡ false = ground arith in
    let w =
      shift_up-inside from n (put r (from + n + 1) (r.buffer (from + n))) next (omega arith) in
    rw (shift_up, inside)
      (record {
        bytes = λ j. w.bytes j ∙ one_more from n r.buffer j;
        size = w.size;
        beyond = w.beyond;
      })

bytes_from-shift :
    (b b' : ℕ → ℕ) (i n : ℕ)
    → ((j : ℕ) → i ≤ j → j < i + n → b' (suc j) ≡ b j)
    → bytes_from b' (suc i) n ≡ bytes_from b i n
unfolding bytes_from
bytes_from-shift b b' i zero h = refl
bytes_from-shift b b' i (suc n) h =
    ap₂ (λ (x : ℕ) (l : List ℕ). x ∷ l) (h i (omega arith) (omega arith))
      (bytes_from-shift b b' (suc i) n (λ j l u. h j (omega arith) (omega arith)))

-- A buffer that has `c` at place `k` and the later bytes one further reads as the bytes with `c` inserted.
pub bytes_from-insert :
    (b b' : ℕ → ℕ) (c i k n : ℕ)
    → k ≤ n
    → ((j : ℕ) → i ≤ j → j < i + k → b' j ≡ b j)
    → b' (i + k) ≡ c
    → ((j : ℕ) → i + k ≤ j → j < i + n → b' (suc j) ≡ b j)
    → bytes_from b' i (suc n) ≡ insert_at k c (bytes_from b i n)
unfolding bytes_from
bytes_from-insert b b' c i zero n h low here high =
    let start : i + 0 ≡ i = omega arith in
    ap₂ (λ (x : ℕ) (l : List ℕ). x ∷ l) (ap b' (sym start) ∙ here)
      (bytes_from-shift b b' i n (λ j l u. high j (omega arith) u))
bytes_from-insert b b' c i (suc k) zero h low here high = absurd (omega arith)
bytes_from-insert b b' c i (suc k) (suc n) h low here high =
    let start : suc i + k ≡ i + suc k = omega arith in
    ap₂ (λ (x : ℕ) (l : List ℕ). x ∷ l) (low i (omega arith) (omega arith))
      (bytes_from-insert b b' c (suc i) k n (omega arith)
        (λ j l u. low j (omega arith) (omega arith)) (ap b' start ∙ here)
        (λ j l u. high j (omega arith) (omega arith)))
