-- ===== src/Strings/Text.antt =====
-- The text of a buffer: its characters before the terminator.
use mathlib.Core.Path.{subst}
use osdev_graphical.Base.{
  ℕ, zero, suc, ◌<◌, ◌≡◌, ◌≢◌, refl, arith, ◌∙◌, sym, ap, Bool-cases, ==_iff, inl, inr, true, false,
  List, [], ◌∷◌, ◌++◌, length, if◌then◌else◌, ◌==◌, map, set, Bool, ◌↔◌,
}
use osdev_graphical.Strings.{
  at, strlen, each_char, lower_char, upper_char, to_lower, to_upper, same_from, strcmp,
}

unfoldable pub text : List ℕ → List ℕ
text [] = []
text (c ∷ s) = let rest = text s in if c == 0 then [] else c ∷ rest

-- No character of `xs` is a zero byte.
abbrev pub Plain : List ℕ → Type 0
Plain xs = (i : ℕ) → i < length xs → at xs i ≢ 0

pub Plain-tail : (x : ℕ) (xs : List ℕ) → Plain (x ∷ xs) → Plain xs
Plain-tail x xs h i l = h (suc i) (omega arith)

pub Plain-cons : (x : ℕ) (xs : List ℕ) → x ≢ 0 → Plain xs → Plain (x ∷ xs)
Plain-cons x xs ne h zero l = ne
Plain-cons x xs ne h (suc i) l = h i (omega arith)

-- A buffer with the text `xs`.
pub record IsBuffer (s xs : List ℕ) : Type 0 where
  pub rest : List ℕ
  pub shape : s ≡ xs ++ (0 ∷ rest)
  pub plain : Plain xs

pub text_lem : (xs rest : List ℕ) → Plain xs → text (xs ++ (0 ∷ rest)) ≡ xs
unfolding text
text_lem [] rest h = refl
text_lem (x ∷ xs) rest h =
    let ne : (x == 0) ≡ false = ground (arith, h 0) in
    rw ne (ap (λ (t : List ℕ). x ∷ t) (text_lem xs rest (Plain-tail x xs h)))

pub strlen_lem : (xs rest : List ℕ) → Plain xs → strlen (xs ++ (0 ∷ rest)) ≡ length xs
unfolding strlen
strlen_lem [] rest h = refl
strlen_lem (x ∷ xs) rest h =
    let ne : (x == 0) ≡ false = ground (arith, h 0) in
    rw ne (ap suc (strlen_lem xs rest (Plain-tail x xs h)))

text-zero : (c : ℕ) (s : List ℕ) → (c == 0) ≡ true → text (c ∷ s) ≡ []
unfolding text
text-zero c s h = rw h refl

text-cons : (c : ℕ) (s : List ℕ) → (c == 0) ≡ false → text (c ∷ s) ≡ c ∷ text s
unfolding text
text-cons c s h = rw h refl

IsBuffer-zero : (c : ℕ) (s : List ℕ) → c ≡ 0 → IsBuffer (c ∷ s) []
IsBuffer-zero c s e = record {
  rest = s;
  shape = ap (λ (x : ℕ). x ∷ s) e;
  plain = λ i l. absurd (omega arith);
}

IsBuffer-cons : {s xs : List ℕ} (c : ℕ) → c ≢ 0 → IsBuffer s xs → IsBuffer (c ∷ s) (c ∷ xs)
IsBuffer-cons {s} {xs} c ne w = record {
  rest = w.rest;
  shape = ap (λ (t : List ℕ). c ∷ t) w.shape;
  plain = Plain-cons c xs ne w.plain;
}

-- A buffer in which the length is found.
pub text-IsBuffer : (s : List ℕ) → strlen s < length s → IsBuffer s (text s)
unfolding strlen
text-IsBuffer [] h = absurd (omega arith)
text-IsBuffer (c ∷ s) h = elim (Bool-cases (c == 0)) [
  | inl e ↦ subst (IsBuffer (c ∷ s)) (sym (text-zero c s e)) (IsBuffer-zero c s ((==_iff c 0).0 e))
  | inr e ↦
      let h' : suc (strlen s) < suc (length s) = rw e at h in
      subst (IsBuffer (c ∷ s)) (sym (text-cons c s e))
        (IsBuffer-cons c (ground arith) (text-IsBuffer s (omega arith)))
]

each_char-cons :
    (f : ℕ → ℕ) (left i x : ℕ) (s : List ℕ)
    → each_char f left (suc i) (x ∷ s) ≡ x ∷ each_char f left i s
unfolding each_char
each_char-cons f zero i x s = refl
each_char-cons f (suc left) i x s = each_char-cons f left (suc i) x (set s i (f (at s i)))

each_char-map : (f : ℕ → ℕ) (xs t : List ℕ) → each_char f (length xs) 0 (xs ++ t) ≡ map f xs ++ t
unfolding each_char
each_char-map f [] t = refl
each_char-map f (x ∷ xs) t =
    each_char-cons f (length xs) 0 (f x) (xs ++ t)
    ∙ ap (λ (s : List ℕ). f x ∷ s) (each_char-map f xs t)

Plain-map : (f : ℕ → ℕ) (xs : List ℕ) → ((c : ℕ) → c ≢ 0 → f c ≢ 0) → Plain xs → Plain (map f xs)
Plain-map f [] k h i l = absurd (omega arith)
Plain-map f (x ∷ xs) k h zero l = k x (h 0 (omega arith))
Plain-map f (x ∷ xs) k h (suc i) l = Plain-map f xs k (Plain-tail x xs h) i (omega arith)

text-each_char :
    (f : ℕ → ℕ) (s xs : List ℕ)
    → ((c : ℕ) → c ≢ 0 → f c ≢ 0)
    → IsBuffer s xs
    → text (each_char f (strlen s) 0 s) ≡ map f xs
text-each_char f s xs k w =
    rw (w.shape, strlen_lem xs w.rest w.plain, each_char-map f xs (0 ∷ w.rest))
      (text_lem (map f xs) w.rest (Plain-map f xs k w.plain))

lower_char-ne : (c : ℕ) → c ≢ 0 → lower_char c ≢ 0
unfolding lower_char
lower_char-ne c h = ground arith

upper_char-ne : (c : ℕ) → c ≢ 0 → upper_char c ≢ 0
unfolding upper_char
upper_char-ne c h = ground arith

-- On a terminated buffer `to_lower` and `to_upper` change the text character by character, its length
-- kept: a capital letter becomes small, or a small one capital, and no other character changes.
pub text-to_lower :
    (s : List ℕ)
    → strlen s < length s
    → (text (to_lower s) ≡ map lower_char (text s)) × (text (to_upper s) ≡ map upper_char (text s))
unfolding to_lower to_upper
text-to_lower s h = (
  text-each_char lower_char s (text s) lower_char-ne (text-IsBuffer s h),
  text-each_char upper_char s (text s) upper_char-ne (text-IsBuffer s h),
)

same_from-cons :
    (left i x y : ℕ) (s t : List ℕ) → same_from (x ∷ s) (y ∷ t) left (suc i) ≡ same_from s t left i
unfolding same_from
same_from-cons zero i x y s t = refl
same_from-cons (suc left) i x y s t =
    ap (λ (b : Bool). if at s i == at t i then b else false) (same_from-cons left (suc i) x y s t)

same_from_iff :
    (xs ys s t : List ℕ)
    → length xs ≡ length ys
    → (same_from (xs ++ s) (ys ++ t) (length xs) 0 ≡ true) ↔ (xs ≡ ys)
unfolding same_from
same_from_iff [] [] s t h = (λ e. refl, λ e. refl)
same_from_iff [] (y ∷ ys) s t h = absurd (omega arith)
same_from_iff (x ∷ xs) [] s t h = absurd (omega arith)
same_from_iff (x ∷ xs) (y ∷ ys) s t h =
    let ih = same_from_iff xs ys s t (omega arith) in
    let step = same_from-cons (length xs) 0 x y (xs ++ s) (ys ++ t) in ground (arith, ih, step)

strcmp-shape :
    (xs ys s t : List ℕ)
    → Plain xs
    → Plain ys
    → (strcmp (xs ++ (0 ∷ s)) (ys ++ (0 ∷ t)) ≡ true) ↔ (xs ≡ ys)
unfolding strcmp
strcmp-shape xs ys s t p q =
    rw (strlen_lem xs s p, strlen_lem ys t q)
      (elim (Bool-cases (length xs == length ys)) [
        | inl e ↦ rw e (same_from_iff xs ys (0 ∷ s) (0 ∷ t) ((==_iff (length xs) (length ys)).0 e))
        | inr e ↦ rw e (
          λ h. absurd (false_ne h),
          λ h. absurd (false_ne (sym e ∙ (==_iff (length xs) (length ys)).1 (ap length h))),
        )
      ])
  where
    false_ne : false ≢ true
    false_ne h = cc

-- `strcmp` of two terminated buffers returns true exactly when their texts are equal.
pub strcmp_iff :
    (s1 s2 : List ℕ)
    → strlen s1 < length s1
    → strlen s2 < length s2
    → (strcmp s1 s2 ≡ true) ↔ (text s1 ≡ text s2)
strcmp_iff s1 s2 h1 h2 =
    let a = text-IsBuffer s1 h1 in
    let b = text-IsBuffer s2 h2 in
    subst (λ u. (strcmp u s2 ≡ true) ↔ (text s1 ≡ text s2)) (sym a.shape)
      (subst (λ u. (strcmp (text s1 ++ (0 ∷ a.rest)) u ≡ true) ↔ (text s1 ≡ text s2)) (sym b.shape)
        (strcmp-shape (text s1) (text s2) a.rest b.rest a.plain b.plain))
