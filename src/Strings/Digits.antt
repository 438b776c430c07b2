-- ===== src/Strings/Digits.antt =====
-- The digits that the printing functions write.
use osdev_graphical.Base.{
  ℕ, zero, suc, ◌+◌, ◌*◌, ◌/◌, ◌%◌, ◌^◌, ◌≤◌, ◌<◌, ◌≡◌, ◌≢◌, refl, arith, ◌∙◌, Bool-cases, ==_iff,
  inl, inr, true, false, List, length, length-set, get_or-set_self, get_or-set_ne, ◌==◌, set, some,
}
use osdev_graphical.Strings.{at, digit, digit_count, write_digits}

-- The first `m` characters are the digits of `n`, with zeros before them.
abbrev pub Shows : List ℕ → ℕ → ℕ → Type 0
Shows s zero n = n ≡ 0
Shows s (suc m) n = (at s m ≡ b'0' + n % 10) × Shows s m (n / 10)

Shows-zeros : (s : List ℕ) (m : ℕ) → ((i : ℕ) → i < m → at s i ≡ b'0') → Shows s m 0
Shows-zeros s zero h = refl
Shows-zeros s (suc m) h = (h m (omega arith), Shows-zeros s m (λ i l. h i (omega arith)))

pub Shows-ext :
    (s t : List ℕ) (m n : ℕ) → ((i : ℕ) → i < m → at t i ≡ at s i) → Shows s m n → Shows t m n
Shows-ext s t zero n h w = w
Shows-ext s t (suc m) n h (a, w) =
    (h m (omega arith) ∙ a, Shows-ext s t m (n / 10) (λ i l. h i (omega arith)) w)

pub Shows-ne : (s : List ℕ) (m n i : ℕ) → Shows s m n → i < m → at s i ≢ 0
Shows-ne s zero n i w l = absurd (omega arith)
Shows-ne s (suc m) n i (a, w) l = elim (Bool-cases (i == m)) [
  | inl e ↦ (let q : i ≡ m = (==_iff i m).0 e in rw (q, a) (λ z. omega (arith, z)))
  | inr e ↦ Shows-ne s m (n / 10) i w (ground arith)
]

digit_lem : (d : ℕ) → d < 10 → digit d ≡ b'0' + d
unfolding digit
digit_lem d h = ground arith

pub at-set_self : (s : List ℕ) (i v : ℕ) → i < length s → at (set s i v) i ≡ v
at-set_self s i v h = get_or-set_self s i v 0 h

pub at-set_ne : (s : List ℕ) (i j v : ℕ) → i ≢ j → at (set s i v) j ≡ at s j
at-set_ne s i j v h = get_or-set_ne s i j v 0 h

many : (f : ℕ) {n : ℕ} → n < 10 ^ suc f → n / 10 ≢ 0 → 0 < f
many zero h ne = absurd (ne (omega arith))
many (suc f) h ne = omega arith

pub record IsWritten (n pos : ℕ) (s out : List ℕ) : Type 0 where
  pub shows : Shows out pos n
  pub above : (j : ℕ) → pos ≤ j → at out j ≡ at s j
  pub size : length out ≡ length s

count-one : (f n : ℕ) → (n / 10 == 0) ≡ true → digit_count (suc f) 10 n ≡ 1
unfolding digit_count
count-one f n h = rw h refl

count-more :
    (f n : ℕ) → (n / 10 == 0) ≡ false → digit_count (suc f) 10 n ≡ suc (digit_count f 10 (n / 10))
unfolding digit_count
count-more f n h = rw h refl

write-one :
    (f n pos : ℕ) (s : List ℕ)
    → (n / 10 == 0) ≡ true
    → write_digits (suc f) 10 n (suc pos) s ≡ some (set s pos (digit (n % 10)))
unfolding write_digits
write-one f n pos s h = rw h refl

write-more :
    (f n pos : ℕ) (s : List ℕ)
    → (n / 10 == 0) ≡ false
    → write_digits (suc f) 10 n (suc pos) s
      ≡ write_digits f 10 (n / 10) pos (set s pos (digit (n % 10)))
unfolding write_digits
write-more f n pos s h = rw h refl

count-pos : (f n : ℕ) → 1 ≤ digit_count (suc f) 10 n
count-pos f n = elim (Bool-cases (n / 10 == 0)) [
  | inl e ↦ rw (count-one f n e) (omega arith)
  | inr e ↦ rw (count-more f n e) (omega arith)
]

pub write_digits_lem :
    (f n pos : ℕ) (s : List ℕ)
    → 0 < f
    → n < 10 ^ f
    → digit_count f 10 n ≤ pos
    → pos ≤ length s
    → ((i : ℕ) → i + digit_count f 10 n < pos → at s i ≡ b'0')
    → (out : List ℕ) × (write_digits f 10 n pos s ≡ some out) × IsWritten n pos s out
write_digits_lem zero n pos s hf hn hc hl hz = absurd (omega arith)
write_digits_lem (suc f) n zero s hf hn hc hl hz = absurd (omega (arith, count-pos f n))
write_digits_lem (suc f) n (suc pos) s hf hn hc hl hz = elim (Bool-cases (n / 10 == 0)) [
  | inl e ↦
      let c = count-one f n e in
      let z : n / 10 ≡ 0 = (==_iff (n / 10) 0).0 e in
      (
        s1,
        write-one f n pos s e,
        record {
          shows = (here, rw z (Shows-zeros s1 pos (λ i l. below i l ∙ hz i (omega arith))));
          above = λ j l. at-set_ne s pos j (digit (n % 10)) (λ q. omega (arith, q));
          size = size1;
        },
      )
  | inr e ↦
      let c = count-more f n e in
      let nz : n / 10 ≢ 0 = ground arith in
      let (out, h, w) =
        write_digits_lem f (n / 10) pos s1 (positive nz) (omega (arith, ten f)) (omega arith)
          (omega (arith, size1)) (λ i l. below i (omega arith) ∙ hz i (omega arith)) in
      (
        out,
        write-more f n pos s e ∙ h,
        record {
          shows = (w.above pos (omega arith) ∙ here, w.shows);
          above = λ j l.
              w.above j (omega arith) ∙ at-set_ne s pos j (digit (n % 10)) (λ q. omega (arith, q));
          size = w.size ∙ size1;
        },
      )
]
  where
    s1 : List ℕ
    s1 = set s pos (digit (n % 10))

    size1 : length s1 ≡ length s
    size1 = length-set s pos (digit (n % 10))

    here : at s1 pos ≡ b'0' + n % 10
    here = at-set_self s pos (digit (n % 10)) (omega arith) ∙ digit_lem (n % 10) (omega arith)

    below : (i : ℕ) → i < pos → at s1 i ≡ at s i
    below i l = at-set_ne s pos i (digit (n % 10)) (λ q. omega (arith, q))

    ten : (k : ℕ) → 10 ^ suc k ≡ 10 * 10 ^ k
    ten k = omega arith

    positive : n / 10 ≢ 0 → 0 < f
    positive ne = many f hn ne

pub digit_count-le : (f k n : ℕ) → 0 < k → n < 10 ^ k → digit_count f 10 n ≤ k
unfolding digit_count
digit_count-le zero k n h l = omega arith
digit_count-le (suc f) zero n h l = absurd (omega arith)
digit_count-le (suc f) (suc k) n h l = elim (Bool-cases (n / 10 == 0)) [
  | inl e ↦ rw e (omega arith)
  | inr e ↦
      let nz : n / 10 ≢ 0 = ground arith in
      let ten : 10 ^ suc k ≡ 10 * 10 ^ k = tens k in
      rw e (omega (arith, digit_count-le f k (n / 10) (many k l nz) (omega arith)))
]
  where
    tens : (i : ℕ) → 10 ^ suc i ≡ 10 * 10 ^ i
    tens i = omega arith
