-- ===== src/TextEditor/Remove/Lower.antt =====
-- What the loop of `remove_at_position` leaves in a region: its bytes from the cursor on stand one lower.
use mathlib.Core.Path.{subst}
use osdev_graphical.Base.{
  ℕ, zero, suc, ◌+◌, ◌≤◌, ◌<◌, ◌≡◌, refl, arith, ◌∙◌, sym, ap, Bool-cases, ==_iff, true, false, inl,
  inr, Option, none, some, if◌then◌else◌, ◌==◌, ltb, leb, ◌&&◌,
}
use osdev_graphical.TextEditor.{TextRegion, put}
use osdev_graphical.TextEditor.Remove.{shift_down}

-- The byte that the loop leaves at place `j`; `e` is what comes to the last place.
abbrev pub lowered : ℕ → ℕ → ℕ → (ℕ → ℕ) → ℕ → ℕ
lowered e i n b j =
    if leb i j && ltb j (i + n) then (if ltb (j + 1) 128 then b (j + 1) else e) else b j

one_less :
    (e i n : ℕ) (b : ℕ → ℕ) (j : ℕ)
    → i + 1 < 128
    → lowered e (suc i) n (λ k. if k == i then b (i + 1) else b k) j ≡ lowered e i (suc n) b j
one_less e i n b j h = elim (Bool-cases (j == i)) [
  | inl q ↦
      let first : leb (suc i) j ≡ false = ground arith in
      let within : (leb i j && ltb j (i + suc n)) ≡ true = ground arith in
      let inner : ltb (j + 1) 128 ≡ true = ground arith in
      let next : i + 1 ≡ j + 1 = ground arith in rw (first, q, within, inner) (ap b next)
  | inr q ↦ elim (Bool-cases (leb (suc i) j && ltb j (suc i + n))) [
    | inl t ↦
        let within : (leb i j && ltb j (i + suc n)) ≡ true = ground arith in
        let other : (j + 1 == i) ≡ false = ground arith in rw (t, within, other) refl
    | inr f ↦
        let without : (leb i j && ltb j (i + suc n)) ≡ false = ground arith in
        rw (f, without, q) refl
  ]
]

-- What stands behind the last place: the next region's first byte, or the byte itself.
abbrev pub end_byte : Option TextRegion → TextRegion → ℕ
end_byte none r = r.buffer 127
end_byte (some nx) r = nx.buffer 0

put_less :
    (e i n : ℕ) (r : TextRegion) (j : ℕ)
    → i + 1 < 128
    → lowered e (suc i) n (put r i (r.buffer (i + 1))).buffer j ≡ lowered e i (suc n) r.buffer j
unfolding put
put_less e i n r j h = one_less e i n r.buffer j h

end_byte-same :
    (next : Option TextRegion) (r : TextRegion) (i c : ℕ)
    → i + 1 < 128
    → end_byte next (put r i c) ≡ end_byte next r
unfolding put
end_byte-same none r i c h = ground arith
end_byte-same (some nx) r i c h = refl

last_step :
    (next : Option TextRegion) (i : ℕ) (r : TextRegion)
    → i ≡ 127
    → ((j : ℕ) → (shift_down next i 1 r).buffer j ≡ lowered (end_byte next r) i 1 r.buffer j)
      × ((shift_down next i 1 r).pos ≡ r.pos)
unfolding shift_down put
last_step none i r h =
    let outside : ltb (i + 1) 128 ≡ false = ground arith in
    rw (shift_down, outside)
      (
        λ j. elim (Bool-cases (j == 127)) [
          | inl e ↦ ground (arith, h, ap r.buffer ((==_iff j 127).0 e))
          | inr e ↦ ground (arith, h, e)
        ],
        refl,
      )
last_step (some nx) i r h =
    let outside : ltb (i + 1) 128 ≡ false = ground arith in
    rw (shift_down, outside) (λ j. ground (arith, h), refl)

pub shift_down-lowered :
    (next : Option TextRegion) (n i : ℕ) (r : TextRegion)
    → i + n ≤ 128
    → ((j : ℕ) → (shift_down next i n r).buffer j ≡ lowered (end_byte next r) i n r.buffer j)
      × ((shift_down next i n r).pos ≡ r.pos)
unfolding shift_down put
shift_down-lowered next zero i r h = (λ j. ground arith, refl)
shift_down-lowered next (suc n) i r h = elim (Bool-cases (ltb (i + 1) 128)) [
  | inl t ↦
      let low : i + 1 < 128 = ground arith in
      let (bytes, size) =
        shift_down-lowered next n (suc i) (put r i (r.buffer (i + 1))) (omega arith) in
      rw (shift_down, t)
        (
          λ j.
              bytes j
              ∙ ap (λ (e : ℕ). lowered e (suc i) n (put r i (r.buffer (i + 1))).buffer j)
                  (end_byte-same next r i (r.buffer (i + 1)) low)
              ∙ put_less (end_byte next r) i n r j low,
          size,
        )
  | inr f ↦
      let none_left : n ≡ 0 = ground arith in
      subst
        (λ (m : ℕ).
          ((j : ℕ)
            → (shift_down next i (suc m) r).buffer j
              ≡ lowered (end_byte next r) i (suc m) r.buffer j)
          × ((shift_down next i (suc m) r).pos ≡ r.pos))
        (sym none_left) (last_step next i r (ground arith))
]

pub shift_down-pos :
    (next : Option TextRegion) (n i : ℕ) (r : TextRegion) → (shift_down next i n r).pos ≡ r.pos
unfolding shift_down put
shift_down-pos next zero i r = refl
shift_down-pos none (suc n) i r = elim (Bool-cases (ltb (i + 1) 128)) [
  | inl t ↦ rw (shift_down, t) (shift_down-pos none n (suc i) (put r i (r.buffer (i + 1))))
  | inr f ↦ rw (shift_down, f) (shift_down-pos none n (suc i) r)
]
shift_down-pos (some nx) (suc n) i r = elim (Bool-cases (ltb (i + 1) 128)) [
  | inl t ↦ rw (shift_down, t) (shift_down-pos (some nx) n (suc i) (put r i (r.buffer (i + 1))))
  | inr f ↦ rw (shift_down, f) (shift_down-pos (some nx) n (suc i) (put r i (nx.buffer 0)))
]
