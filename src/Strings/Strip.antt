-- ===== src/Strings/Strip.antt =====
-- The stripping functions against filters on the text.
use mathlib.Core.Path.{subst}
use mathlib.Core.List.{append_assoc}
use osdev_graphical.Base.{
  ℕ, zero, suc, ◌+◌, ◌-◌, ◌<◌, ◌≡◌, ◌≢◌, refl, arith, ◌∙◌, sym, ap, Bool-cases, ==_iff, inl, inr,
  true, false, List, [], ◌∷◌, ◌++◌, length, length-append, if◌then◌else◌, ◌==◌, set,
}
use osdev_graphical.Strings.{
  at, strlen, shift, strip_from, strip_character, strip_head, strip_from_start, strip_tail,
  strip_from_end,
}
use osdev_graphical.Strings.Text.{
  Plain-cons, text, Plain, Plain-tail, text_lem, strlen_lem, text-IsBuffer,
}

-- The characters other than `c`.
abbrev pub without : ℕ → List ℕ → List ℕ
without c [] = []
without c (x ∷ xs) = if x == c then without c xs else x ∷ without c xs

-- The characters from the first other than `c` on.
abbrev pub drop_leading : ℕ → List ℕ → List ℕ
drop_leading c [] = []
drop_leading c (x ∷ xs) = if x == c then drop_leading c xs else x ∷ xs

shift-cons : (left j x : ℕ) (s : List ℕ) → shift left (suc j) (x ∷ s) ≡ x ∷ shift left j s
unfolding shift
shift-cons zero j x s = refl
shift-cons (suc left) j x s = shift-cons left (suc j) x (set s j (at s (suc j)))

-- The shift over the rest of the text takes the first character out.
shift_head :
    (x : ℕ) (xs t : List ℕ) → shift (suc (length xs)) 0 (x ∷ (xs ++ (0 ∷ t))) ≡ xs ++ (0 ∷ 0 ∷ t)
unfolding shift
shift_head x [] t = refl
shift_head x (y ∷ xs) t =
    shift-cons (suc (length xs)) 0 y (y ∷ (xs ++ (0 ∷ t)))
    ∙ ap (λ (s : List ℕ). y ∷ s) (shift_head y xs t)

shift_at :
    (xs : List ℕ) (left : ℕ) (s : List ℕ) → shift left (length xs) (xs ++ s) ≡ xs ++ shift left 0 s
shift_at [] left s = refl
shift_at (x ∷ xs) left s =
    shift-cons left (length xs) x (xs ++ s) ∙ ap (λ (t : List ℕ). x ∷ t) (shift_at xs left s)

strip_from-cons :
    (c left i x : ℕ) (s : List ℕ) → strip_from c left (suc i) (x ∷ s) ≡ x ∷ strip_from c left i s
unfolding strip_from
strip_from-cons c zero i x s = refl
strip_from-cons c (suc left) i x s = elim (Bool-cases (at s i == c)) [
  | inl e ↦ rw e (
      ap (strip_from c left (suc i)) (shift-cons (suc left) i x s)
      ∙ strip_from-cons c left i x (shift (suc left) i s))
  | inr e ↦ rw e (strip_from-cons c left (suc i) x s)
]

strip_from_lem :
    (c : ℕ) (xs t : List ℕ)
    → (rest : List ℕ) × (strip_from c (length xs) 0 (xs ++ (0 ∷ t)) ≡ without c xs ++ (0 ∷ rest))
unfolding strip_from
strip_from_lem c [] t = (t, refl)
strip_from_lem c (x ∷ xs) t = elim (Bool-cases (x == c)) [
  | inl e ↦
      let (r, h) = strip_from_lem c xs (0 ∷ t) in
      (r, rw e (ap (strip_from c (length xs) 0) (shift_head x xs t) ∙ h))
  | inr e ↦
      let (r, h) = strip_from_lem c xs t in
      (r, rw e (strip_from-cons c (length xs) 0 x (xs ++ (0 ∷ t)) ∙ ap (λ (s : List ℕ). x ∷ s) h))
]

Plain-without : (c : ℕ) (xs : List ℕ) → Plain xs → Plain (without c xs)
Plain-without c [] h = h
Plain-without c (x ∷ xs) h = elim (Bool-cases (x == c)) [
  | inl e ↦ rw e (Plain-without c xs (Plain-tail x xs h))
  | inr e ↦
      rw e
        (Plain-cons x (without c xs) (h 0 (omega arith)) (Plain-without c xs (Plain-tail x xs h)))
]

-- `strip_character` on a terminated buffer leaves the text without the character, its other characters
-- in their order.
pub text-strip_character :
    (s : List ℕ) (c : ℕ) → strlen s < length s → text (strip_character s c) ≡ without c (text s)
unfolding strip_character
text-strip_character s c h =
    let b = text-IsBuffer s h in
    let (r, e) = strip_from_lem c (text s) b.rest in
    subst (λ u. text (strip_from c (strlen u) 0 u) ≡ without c (text s)) (sym b.shape)
      (rw (strlen_lem (text s) b.rest b.plain, e)
        (text_lem (without c (text s)) r (Plain-without c (text s) b.plain)))

strip_head_lem :
    (c : ℕ) (xs t : List ℕ)
    → (rest : List ℕ) × (strip_head c (length xs) (xs ++ (0 ∷ t)) ≡ drop_leading c xs ++ (0 ∷ rest))
unfolding strip_head
strip_head_lem c [] t = (t, refl)
strip_head_lem c (x ∷ xs) t = elim (Bool-cases (x == c)) [
  | inl e ↦
      let (r, h) = strip_head_lem c xs (0 ∷ t) in
      (r, rw e (ap (strip_head c (length xs)) (shift_head x xs t) ∙ h))
  | inr e ↦ (t, rw e refl)
]

Plain-drop_leading : (c : ℕ) (xs : List ℕ) → Plain xs → Plain (drop_leading c xs)
Plain-drop_leading c [] h = h
Plain-drop_leading c (x ∷ xs) h = elim (Bool-cases (x == c)) [
  | inl e ↦ rw e (Plain-drop_leading c xs (Plain-tail x xs h))
  | inr e ↦ rw e h
]

-- `strip_from_start` on a terminated buffer leaves the text from its first other character on.
pub text-strip_from_start :
    (s : List ℕ) (c : ℕ)
    → strlen s < length s
    → text (strip_from_start s c) ≡ drop_leading c (text s)
unfolding strip_from_start
text-strip_from_start s c h =
    let b = text-IsBuffer s h in
    let (r, e) = strip_head_lem c (text s) b.rest in
    subst (λ u. text (strip_head c (strlen u) u) ≡ drop_leading c (text s)) (sym b.shape)
      (rw (strlen_lem (text s) b.rest b.plain, e)
        (text_lem (drop_leading c (text s)) r (Plain-drop_leading c (text s) b.plain)))

at-append : (xs s : List ℕ) (k : ℕ) → at (xs ++ s) (k + length xs) ≡ at s k
at-append [] s k = let e : k + 0 ≡ k = omega arith in rw e refl
at-append (x ∷ xs) s k =
    let e : k + suc (length xs) ≡ suc (k + length xs) = omega arith in rw e (at-append xs s k)

set-append : (xs s : List ℕ) (k v : ℕ) → set (xs ++ s) (k + length xs) v ≡ xs ++ set s k v
set-append [] s k v = let e : k + 0 ≡ k = omega arith in rw e refl
set-append (x ∷ xs) s k v =
    let e : k + suc (length xs) ≡ suc (k + length xs) = omega arith in
    rw e (ap (λ (t : List ℕ). x ∷ t) (set-append xs s k v))

strip_tail-stop : (c len i : ℕ) (s : List ℕ) → (at s i == c) ≡ false → strip_tail c len i s ≡ s
unfolding strip_tail
strip_tail-stop c len zero s h = rw h refl
strip_tail-stop c len (suc zero) s h = rw h refl
strip_tail-stop c len (suc (suc i)) s h = rw h refl

strip_tail-go :
    (c len i : ℕ) (s : List ℕ)
    → (at s (suc (suc i)) == c) ≡ true
    → strip_tail c len (suc (suc i)) s
      ≡ strip_tail c len i (shift (len - suc (suc i)) (suc (suc i)) s)
unfolding strip_tail
strip_tail-go c len i s h = rw h refl

two_removed :
    (c y : ℕ) (xs t : List ℕ)
    → y ≢ c
    → strip_tail c (length xs + 3) (suc (suc (length xs))) (xs ++ (y ∷ c ∷ c ∷ 0 ∷ t))
      ≡ xs ++ (y ∷ c ∷ 0 ∷ 0 ∷ t)
unfolding shift
two_removed c y xs t ne =
    let s = xs ++ (y ∷ c ∷ c ∷ 0 ∷ t) in
    let two : suc (suc (length xs)) ≡ 2 + length xs = omega arith in
    let three : suc (suc (suc (length xs))) ≡ 3 + length xs = omega arith in
    let one : length xs + 3 - suc (suc (length xs)) ≡ 1 = omega arith in
    let last : at s (suc (suc (length xs))) ≡ c = rw two (at-append xs (y ∷ c ∷ c ∷ 0 ∷ t) 2) in
    let moved =
      ap (λ (v : ℕ). set s (2 + length xs) v) (at-append xs (y ∷ c ∷ c ∷ 0 ∷ t) 3)
      ∙ set-append xs (y ∷ c ∷ c ∷ 0 ∷ t) 2 0 in
    let stays : (at (xs ++ (y ∷ c ∷ 0 ∷ 0 ∷ t)) (length xs) == c) ≡ false =
      let e : length xs ≡ 0 + length xs = omega arith in
      rw (ap (at (xs ++ (y ∷ c ∷ 0 ∷ 0 ∷ t))) e ∙ at-append xs (y ∷ c ∷ 0 ∷ 0 ∷ t) 0)
        (ground arith) in
    strip_tail-go c (length xs + 3) (length xs) s ((==_iff _ c).1 last)
    ∙ rw one (
        ap (strip_tail c (length xs + 3) (length xs)) (rw (three, two) moved)
        ∙ strip_tail-stop c (length xs + 3) (length xs) (xs ++ (y ∷ c ∷ 0 ∷ 0 ∷ t)) stays)

-- `strip_from_end` of a text that ends in exactly two of the character removes one of them only.
pub strip_from_end-two :
    (xs t : List ℕ) (c y : ℕ)
    → Plain (xs ++ (y ∷ c ∷ c ∷ []))
    → y ≢ c
    → strip_from_end (xs ++ (y ∷ c ∷ c ∷ 0 ∷ t)) c ≡ xs ++ (y ∷ c ∷ 0 ∷ 0 ∷ t)
unfolding strip_from_end
strip_from_end-two xs t c y h ne =
    let joined : (xs ++ (y ∷ c ∷ c ∷ [])) ++ (0 ∷ t) ≡ xs ++ (y ∷ c ∷ c ∷ 0 ∷ t) =
      append_assoc xs (y ∷ c ∷ c ∷ []) (0 ∷ t) in
    let len : strlen (xs ++ (y ∷ c ∷ c ∷ 0 ∷ t)) ≡ length xs + 3 =
      ap strlen (sym joined)
      ∙ strlen_lem (xs ++ (y ∷ c ∷ c ∷ [])) t h
      ∙ length-append xs (y ∷ c ∷ c ∷ []) in
    let some_left : (length xs + 3 == 0) ≡ false = ground arith in
    let index : length xs + 3 - 1 ≡ suc (suc (length xs)) = omega arith in
    rw (len, some_left, index) (two_removed c y xs t ne)
