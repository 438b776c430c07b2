-- ===== src/Floppy/Answers.antt =====
-- What the tests of `flpydsk_rw_sector` say of the status bytes, bit by bit.
use native.Mathlib.Nat.{one-le-pow}
use osdev_graphical.Bits.{bit_at, bit_at-le, bit_at-or, and-pow, and-zero, and_step}
use osdev_graphical.Bits.Places.{and_hex}
use osdev_graphical.Base.{
  ℕ, ◌+◌, ◌*◌, ◌/◌, ◌^◌, max, ◌≡◌, ◌≢◌, refl, sym, arith, ◌∙◌, ap, bit_and, bit_or, Bool, true,
  false, not, ◌||◌, Bool-cases, ==_iff, ◌⊎◌, inl, inr, List, [], ◌∷◌, if◌then◌else◌, ◌==◌,
}
use osdev_graphical.Floppy.{Status, has, error_of}

-- How many of the bits that are named are set.
pub set_bits : ℕ → List ℕ → ℕ
set_bits w [] = 0
set_bits w (k ∷ ks) = bit_at w k + set_bits w ks

-- No error bit of the three status bytes is set, and the sector has 512 bytes.
pub IsClean : Status → Type 0
IsClean s =
    (set_bits s.st0 (3 ∷ 6 ∷ 7 ∷ []) ≡ 0)
    × (set_bits s.st1 (0 ∷ 1 ∷ 2 ∷ 4 ∷ 5 ∷ 7 ∷ []) ≡ 0)
    × (set_bits s.st2 (0 ∷ 1 ∷ 2 ∷ 4 ∷ 5 ∷ 6 ∷ []) ≡ 0)
    × (s.bps ≡ 2)

-- Bit 1 of the second status byte.
pub IsProtected : Status → Type 0
IsProtected s = bit_at s.st1 1 ≡ 1

-- An error, but not that the disk is not writable.
pub IsFailed : Status → Type 0
IsFailed s = ¬ IsClean s × (bit_at s.st1 1 ≡ 0)

-- A test of some bits, and the tests that follow it, as a sum that is not 0.
or_next :
    {b rest : Bool} (x n : ℕ)
    → b ≡ not (x == 0)
    → rest ≡ not (n == 0)
    → (b || rest) ≡ not (x + n == 0)
or_next x n e f = rw (e, f) (ground arith)

has-bit : (w k : ℕ) → has w (2 ^ k) ≡ not (bit_at w k == 0)
unfolding has
has-bit w k = elim (Bool-cases (bit_at w k == 0)) [
  | inl z ↦
      let none_set : bit_at w k ≡ 0 = ground arith in
      let unset : (0 * 2 ^ k == 0) ≡ true = ground arith in
      rw (and-pow w k, none_set) (ap not unset)
  | inr z ↦
      let one_set : bit_at w k ≡ 1 = ground (arith, bit_at-le w k) in
      let some_set : (1 * 2 ^ k == 0) ≡ false = ground (arith, one-le-pow k 2) in
      rw (and-pow w k, one_set) (ap not some_set)
]

-- `0xC0`
has-top : (w : ℕ) → has w 0xC0 ≡ not (bit_at w 6 + bit_at w 7 == 0)
unfolding has
has-top w =
    let shifted : bit_and w 0xC0 ≡ bit_and (w / 16) 12 * 16 = and_hex w 12 in
    let four : bit_and (w / 16) 12 ≡ bit_and (w / 64) 3 * 4 = omega (
      arith,
      and_step (w / 16) 12,
      and_step (w / 16 / 2) 6,
      ap (λ (v : ℕ). bit_and v 3) (quarter (w / 16)),
      ap (λ (v : ℕ). bit_and v 3) (whole w),
    ) in
    let two : bit_and (w / 64) 3 ≡ bit_at w 6 + bit_at w 7 * 2 =
      omega (arith, and_step (w / 64) 3, and_step (w / 64 / 2) 1, and-zero (w / 64 / 2 / 2)) in
    ground (arith, shifted, four, two)
  where
    quarter : (v : ℕ) → v / 2 / 2 ≡ v / 4
    quarter v = omega arith

    whole : (v : ℕ) → v / 16 / 4 ≡ v / 64
    whole v = omega arith

-- `(st1|st2) & 0x01`
has-either : (a b : ℕ) → has (bit_or a b) 0x01 ≡ not (max (bit_at a 0) (bit_at b 0) == 0)
has-either a b = has-bit (bit_or a b) 0 ∙ ap (λ (v : ℕ). not (v == 0)) (bit_at-or a b 0)

abbrev wrong_size : Status → ℕ
wrong_size s = if s.bps == 2 then 0 else 1

size_test : (s : Status) → not (s.bps == 2) ≡ not (wrong_size s == 0)
size_test s = ground arith

-- The error bits in the order of the tests.
abbrev errors : Status → ℕ
errors s =
    (bit_at s.st0 6 + bit_at s.st0 7)
    + bit_at s.st1 7
    + bit_at s.st0 3
    + bit_at s.st1 5
    + bit_at s.st1 4
    + bit_at s.st1 2
    + max (bit_at s.st1 0) (bit_at s.st2 0)
    + bit_at s.st2 6
    + bit_at s.st2 5
    + bit_at s.st2 4
    + bit_at s.st2 2
    + bit_at s.st2 1
    + wrong_size s

abbrev failed : Status → Bool
failed s =
    has s.st0 0xC0
    || has s.st1 0x80
    || has s.st0 0x08
    || has s.st1 0x20
    || has s.st1 0x10
    || has s.st1 0x04
    || has (bit_or s.st1 s.st2) 0x01
    || has s.st2 0x40
    || has s.st2 0x20
    || has s.st2 0x10
    || has s.st2 0x04
    || has s.st2 0x02
    || not (s.bps == 2)

failed-errors : (s : Status) → failed s ≡ not (errors s == 0)
failed-errors s =
    or_next _ _
      (or_next _ _
        (or_next _ _
          (or_next _ _
            (or_next _ _
              (or_next _ _
                (or_next _ _
                  (or_next _ _
                    (or_next _ _
                      (or_next _ _
                        (or_next _ _ (or_next _ _ (has-top s.st0) (has-bit s.st1 7))
                          (has-bit s.st0 3))
                        (has-bit s.st1 5))
                      (has-bit s.st1 4))
                    (has-bit s.st1 2))
                  (has-either s.st1 s.st2))
                (has-bit s.st2 6))
              (has-bit s.st2 5))
            (has-bit s.st2 4))
          (has-bit s.st2 2))
        (has-bit s.st2 1))
      (size_test s)

no_errors : (s : Status) → errors s ≡ 0 → bit_at s.st1 1 ≡ 0 → IsClean s
unfolding IsClean set_bits
no_errors s h p =
    let size : wrong_size s ≡ 0 = omega (arith, h) in
    (omega (arith, h), omega (arith, h, p), omega (arith, h), ground (arith, size))

some_errors : (s : Status) → errors s ≢ 0 → ¬ IsClean s
unfolding IsClean set_bits
some_errors s h (a, b, c, size) =
    let fits : wrong_size s ≡ 0 = ground (arith, size) in h (omega (arith, a, b, c, fits))

-- What `error` is after the tests, and what that says of the status.
pub error_of-kinds :
    (s : Status)
    → ((error_of s ≡ 0) × IsClean s)
      ⊎ ((error_of s ≡ 1) × IsFailed s)
      ⊎ ((error_of s ≡ 2) × IsProtected s)
unfolding error_of IsFailed IsProtected
error_of-kinds s = elim (Bool-cases (bit_at s.st1 1 == 0)) [
  | inl z ↦
      let writable : has s.st1 0x02 ≡ false = has-bit s.st1 1 ∙ ap not z in
      let unset : bit_at s.st1 1 ≡ 0 = (==_iff _ 0).0 z in
      elim (Bool-cases (errors s == 0)) [
        | inl n ↦
            let none_failed : failed s ≡ false = failed-errors s ∙ ap not n in
            rw (writable, none_failed) (inl (refl, no_errors s ((==_iff _ 0).0 n) unset))
        | inr n ↦
            let some_failed : failed s ≡ true = failed-errors s ∙ ap not n in
            let nonzero : errors s ≢ 0 = λ e. false_true (sym n ∙ (==_iff _ 0).1 e) in
            rw (writable, some_failed) (inr (inl (refl, (some_errors s nonzero, unset))))
      ]
  | inr z ↦
      let protected : has s.st1 0x02 ≡ true = has-bit s.st1 1 ∙ ap not z in
      let set : bit_at s.st1 1 ≡ 1 = ground (arith, bit_at-le s.st1 1) in
      rw protected (inr (inr (refl, set)))
]
  where
    false_true : false ≢ true
    false_true e = cc
