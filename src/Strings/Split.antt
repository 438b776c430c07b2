-- ===== src/Strings/Split.antt =====
-- `seperate_and_take` and `count_substrings` against the split of the text.
use mathlib.Core.List.{append_assoc}
use osdev_graphical.Base.{
  ℕ, zero, suc, ◌+◌, ◌-◌, ◌≤◌, ◌<◌, ◌≡◌, ◌≢◌, refl, arith, ◌∙◌, sym, ap, Bool-cases, ==_iff, inl,
  inr, true, false, List, [], ◌∷◌, ◌++◌, length, length-append, if◌then◌else◌, ◌==◌, take, drop,
  Option, none, some, ltb, ◌↔◌,
}
use osdev_graphical.Strings.{at, strlen, take_from, seperate_and_take, count_from, count_substrings}
use osdev_graphical.Strings.Text.{text, Plain, text_lem, strlen_lem, text-IsBuffer}

-- Piece `n` of the text, if it has so many, where `piece` is the beginning of the current one.
abbrev pub piece_at : ℕ → List ℕ → ℕ → List ℕ → Option (List ℕ)
piece_at c piece zero [] = some piece
piece_at c piece (suc n) [] = none
piece_at c piece zero (x ∷ xs) =
    if x == c then some piece else piece_at c (piece ++ (x ∷ [])) zero xs
piece_at c piece (suc n) (x ∷ xs) =
    if x == c then piece_at c [] n xs else piece_at c (piece ++ (x ∷ [])) (suc n) xs

abbrev pub or_else : Option (List ℕ) → List ℕ → List ℕ
or_else none d = d
or_else (some x) d = x

-- The number of separators.
abbrev pub separators : ℕ → List ℕ → ℕ
separators c [] = 0
separators c (x ∷ xs) = (if x == c then 1 else 0) + separators c xs

drop-append : (xs ys : List ℕ) → drop (length xs) (xs ++ ys) ≡ ys
drop-append [] ys = refl
drop-append (x ∷ xs) ys = drop-append xs ys

take-append : (xs ys : List ℕ) → take (length xs) (xs ++ ys) ≡ xs
take-append [] ys = refl
take-append (x ∷ xs) ys = ap (λ (t : List ℕ). x ∷ t) (take-append xs ys)

at_middle : (xs ys : List ℕ) (y : ℕ) → at (xs ++ (y ∷ ys)) (length xs) ≡ y
at_middle [] ys y = refl
at_middle (x ∷ xs) ys y = at_middle xs ys y

taken : (ps piece u : List ℕ) → take (length piece) (drop (length ps) (ps ++ (piece ++ u))) ≡ piece
taken ps piece u = rw (drop-append ps (piece ++ u)) (take-append piece u)

-- Where the loop stands: `ps` is behind it, `piece` is the current piece so far.
record Stands (str ps piece u : List ℕ) (i len start : ℕ) : Type 0 where
  shape : str ≡ ps ++ (piece ++ u)
  index : i ≡ length ps + length piece
  size : len ≡ length piece
  begin : start ≡ length ps

current :
    {str ps piece u : List ℕ} {i len start : ℕ}
    → Stands str ps piece u i len start
    → take len (drop start str) ≡ piece
current {ps} {piece} {u} w = rw (w.shape, w.size, w.begin) (taken ps piece u)

next_char :
    {str ps piece u : List ℕ} {i len start : ℕ} (x : ℕ)
    → Stands str ps piece (x ∷ u) i len start
    → at str i ≡ x
next_char {ps} {piece} {u} x w =
    rw (w.shape, w.index, ← append_assoc ps piece (x ∷ u), ← length-append ps piece)
      (at_middle (ps ++ piece) u x)

longer :
    {str ps piece u : List ℕ} {i len start : ℕ} (x : ℕ)
    → Stands str ps piece (x ∷ u) i len start
    → Stands str ps (piece ++ (x ∷ [])) u (suc i) (suc len) start
longer {ps} {piece} {u} x w = record {
  shape = w.shape ∙ ap (λ (t : List ℕ). ps ++ t) (sym (append_assoc piece (x ∷ []) u));
  index = omega (arith, w.index, length-append piece (x ∷ []));
  size = omega (arith, w.size, length-append piece (x ∷ []));
  begin = w.begin;
}

passed :
    {str ps piece u : List ℕ} {i len start : ℕ} (x : ℕ)
    → Stands str ps piece (x ∷ u) i len start
    → Stands str ((ps ++ piece) ++ (x ∷ [])) [] u (suc i) 0 (suc i)
passed {ps} {piece} {u} x w = record {
  shape =
      w.shape ∙ sym (append_assoc ps piece (x ∷ u)) ∙ sym (append_assoc (ps ++ piece) (x ∷ []) u);
  index = omega (arith, w.index, length-append ps piece, length-append (ps ++ piece) (x ∷ []));
  size = refl;
  begin = omega (arith, w.index, length-append ps piece, length-append (ps ++ piece) (x ∷ []));
}

take_from_lem :
    (str : List ℕ) (c index : ℕ) (xs ps piece t : List ℕ) (n curr i len start : ℕ)
    → Stands str ps piece (xs ++ t) i len start
    → index ≡ curr + n
    → take_from str c index (length xs) i curr len start
      ≡ or_else (piece_at c piece n xs) (take (strlen str) str)
unfolding take_from
take_from_lem str c index [] ps piece t zero curr i len start w h =
    let here : (curr == index) ≡ true = ground arith in rw here (current w)
take_from_lem str c index [] ps piece t (suc n) curr i len start w h =
    let away : (curr == index) ≡ false = ground arith in rw away refl
take_from_lem str c index (x ∷ xs) ps piece t zero curr i len start w h =
    let here : (curr == index) ≡ true = ground arith in
    elim (Bool-cases (x == c)) [
      | inl e ↦ rw (next_char x w, e, here) (current w)
      | inr e ↦
          rw (next_char x w, e)
            (take_from_lem str c index xs ps (piece ++ (x ∷ [])) t zero curr (suc i) (suc len) start
              (longer x w) h)
    ]
take_from_lem str c index (x ∷ xs) ps piece t (suc n) curr i len start w h =
    let away : (curr == index) ≡ false = ground arith in
    elim (Bool-cases (x == c)) [
      | inl e ↦
          rw (next_char x w, e, away)
            (take_from_lem str c index xs ((ps ++ piece) ++ (x ∷ [])) [] t n (suc curr) (suc i) 0
              (suc i) (passed x w) (omega arith))
      | inr e ↦
          rw (next_char x w, e)
            (take_from_lem str c index xs ps (piece ++ (x ∷ [])) t (suc n) curr (suc i) (suc len)
              start (longer x w) h)
    ]

-- `seperate_and_take` of a terminated buffer copies piece `index` of the text cut at each separator,
-- counted from 0, and copies the whole text when there are not so many pieces.
pub seperate_and_take-piece :
    (str : List ℕ) (seperator index : ℕ)
    → strlen str < length str
    → seperate_and_take str seperator index
      ≡ or_else (piece_at seperator [] index (text str)) (text str)
unfolding seperate_and_take
seperate_and_take-piece str c index h =
    let b = text-IsBuffer str h in
    let len = ap strlen b.shape ∙ strlen_lem (text str) b.rest b.plain in
    let whole : take (strlen str) str ≡ text str =
      rw len (ap (take (length (text str))) b.shape ∙ take-append (text str) (0 ∷ b.rest)) in
    let stands : Stands str [] [] (text str ++ (0 ∷ b.rest)) 0 0 0 = record {
      shape = b.shape;
      index = refl;
      size = refl;
      begin = refl;
    } in
    ap (λ (k : ℕ). take_from str c index k 0 0 0 0) len
    ∙ take_from_lem str c index (text str) [] [] (0 ∷ b.rest) index 0 0 0 0 stands (omega arith)
    ∙ ap (or_else (piece_at c [] index (text str))) whole

count_from_lem :
    (str : List ℕ) (c : ℕ) (xs ps t : List ℕ) (i count : ℕ)
    → str ≡ ps ++ (xs ++ t)
    → i ≡ length ps
    → count_from str c (length xs) i count ≡ count + separators c xs
unfolding count_from
count_from_lem str c [] ps t i count h e = omega arith
count_from_lem str c (x ∷ xs) ps t i count h e =
    let char : at str i ≡ x = rw (h, e) (at_middle ps (xs ++ t) x) in
    rw (count_from, char)
      (count_from_lem str c xs (ps ++ (x ∷ [])) t (suc i) (if x == c then suc count else count)
          (h ∙ sym (append_assoc ps (x ∷ []) (xs ++ t))) (omega (arith, length-append ps (x ∷ [])))
        ∙ ground arith)

-- A text of separators and others has pieces 0 to the number of its separators, and no others.
piece_at_count : (c n : ℕ) (piece xs : List ℕ) → separators c xs < n → piece_at c piece n xs ≡ none
piece_at_count c zero piece xs h = absurd (omega arith)
piece_at_count c (suc n) piece [] h = refl
piece_at_count c (suc n) piece (x ∷ xs) h = elim (Bool-cases (x == c)) [
  | inl e ↦
      let l : 1 + separators c xs < suc n = rw e at h in
      rw e (piece_at_count c n [] xs (omega arith))
  | inr e ↦
      let l : 0 + separators c xs < suc n = rw e at h in
      rw e (piece_at_count c (suc n) (piece ++ (x ∷ [])) xs (omega arith))
]

piece_at-some :
    (c n : ℕ) (piece xs : List ℕ)
    → n ≤ separators c xs
    → (p : List ℕ) × (piece_at c piece n xs ≡ some p)
piece_at-some c zero piece [] h = (piece, refl)
piece_at-some c (suc n) piece [] h = absurd (omega arith)
piece_at-some c zero piece (x ∷ xs) h = elim (Bool-cases (x == c)) [
  | inl e ↦ (piece, rw e refl)
  | inr e ↦
      let (p, q) = piece_at-some c zero (piece ++ (x ∷ [])) xs (omega arith) in
      let step : piece_at c piece zero (x ∷ xs) ≡ piece_at c (piece ++ (x ∷ [])) zero xs =
        rw e refl in
      (p, step ∙ q)
]
piece_at-some c (suc n) piece (x ∷ xs) h = elim (Bool-cases (x == c)) [
  | inl e ↦
      let l : suc n ≤ 1 + separators c xs = rw e at h in
      let (p, q) = piece_at-some c n [] xs (omega arith) in
      let step : piece_at c piece (suc n) (x ∷ xs) ≡ piece_at c [] n xs = rw e refl in (p, step ∙ q)
  | inr e ↦
      let l : suc n ≤ 0 + separators c xs = rw e at h in
      let (p, q) = piece_at-some c (suc n) (piece ++ (x ∷ [])) xs (omega arith) in
      let step : piece_at c piece (suc n) (x ∷ xs) ≡ piece_at c (piece ++ (x ∷ [])) (suc n) xs =
        rw e refl in
      (p, step ∙ q)
]

count_substrings_lem :
    (c x : ℕ) (xs rest : List ℕ)
    → Plain (x ∷ xs)
    → count_substrings (x ∷ (xs ++ (0 ∷ rest))) c ≡ suc (separators c xs)
unfolding count_substrings
count_substrings_lem c x xs rest p =
    let len : strlen (x ∷ (xs ++ (0 ∷ rest))) - 1 ≡ length xs =
      (let l = strlen_lem (x ∷ xs) rest p in omega (arith, l)) in
    rw len
      (count_from_lem (x ∷ (xs ++ (0 ∷ rest))) c xs (x ∷ []) (0 ∷ rest) 1 1 refl refl ∙ omega arith)

-- For a terminated path that begins with the separator, `count_substrings` is the number of its
-- components: there is a component `n`, which `seperate_and_take` copies at index n + 1, exactly for
-- each `n` below it.
pub count_substrings-pieces :
    (c n : ℕ) (xs rest : List ℕ)
    → Plain (c ∷ xs)
    → let path = c ∷ (xs ++ (0 ∷ rest)) in
      (n < count_substrings path c) ↔ (
        (p : List ℕ) × (piece_at c [] (suc n) (text path) ≡ some p)
        × (seperate_and_take path c (suc n) ≡ p))
count_substrings-pieces c n xs rest h = (
  λ l.
      let (p, q) = piece_at-some c n [] xs (omega (arith, count)) in
      (
        p,
        ap (piece_at c [] (suc n)) words ∙ shape n ∙ q,
        copied
            ∙ ap (λ (o : Option (List ℕ)). or_else o (c ∷ xs))
                (ap (piece_at c [] (suc n)) words ∙ shape n ∙ q),
      ),
  λ (p, q, t). elim (Bool-cases (ltb n (count_substrings path c))) [
    | inl e ↦ ground arith
    | inr e ↦ absurd (
        none_ne p (
          sym (piece_at_count c n [] xs (ground (arith, count)))
          ∙ sym (ap (piece_at c [] (suc n)) words ∙ shape n)
          ∙ q))
  ],
)
  where
    path : List ℕ
    path = c ∷ (xs ++ (0 ∷ rest))

    count : count_substrings path c ≡ suc (separators c xs)
    count = count_substrings_lem c c xs rest h

    words : text path ≡ c ∷ xs
    words = text_lem (c ∷ xs) rest h

    shape : (k : ℕ) → piece_at c [] (suc k) (c ∷ xs) ≡ piece_at c [] k xs
    shape k = rw ((==_iff c c).1 refl) refl

    none_ne : (p : List ℕ) → none ≢ some p
    none_ne p e = cc

    copied : seperate_and_take path c (suc n) ≡ or_else (piece_at c [] (suc n) (text path)) (c ∷ xs)
    copied =
        seperate_and_take-piece path c (suc n)
          (omega (arith, strlen_lem (c ∷ xs) rest h, length-append xs (0 ∷ rest)))
        ∙ ap (or_else (piece_at c [] (suc n) (text path))) words
