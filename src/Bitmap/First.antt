-- ===== src/Bitmap/First.antt =====
-- `mmap_first_free` finds the lowest free block among the whole words of the map.
use osdev_graphical.Base.{
  ℕ, zero, suc, ◌+◌, ◌*◌, ◌/◌, ◌%◌, ◌^◌, ◌≤◌, ◌<◌, bit_and, true, false, Option, none, some, ◌≡◌,
  ◌⊎◌, ◌↔◌, inl, inr, arith, ◌==◌, ◌∙◌, Bool-cases, ==_iff,
}
use osdev_graphical.Bits.{bit_at, bit_at-le, bit_at-ones}
use osdev_graphical.Memory.{Words}
use osdev_graphical.Bitmap.{full_word, first_clear, first_free_from, first_free}
use osdev_graphical.Bitmap.Laws.{occ, clear_iff}

-- A set bit fails the test of the loops.
pub set_iff : (w k : ℕ) → ((bit_and w (2 ^ k) == 0) ≡ false) ↔ (bit_at w k ≡ 1)
set_iff w k = ground (arith, clear_iff w k, bit_at-le w k)

pub full_bits : (w k : ℕ) → (w == full_word) ≡ true → k < 32 → bit_at w k ≡ 1
full_bits w k h l = rw ((==_iff w full_word).0 h) (bit_at-ones 32 k l)

pub ℕ-split : (a b : ℕ) → (a < b) ⊎ (b ≤ a)
ℕ-split a b = ground arith

-- What a search that ends with `o` says of the bits from `lo` up to `hi`.
abbrev pub Lowest : (ℕ → ℕ) → ℕ → ℕ → Option ℕ → Type 0
Lowest o lo hi none = (b : ℕ) → lo ≤ b → b < hi → o b ≡ 1
Lowest o lo hi (some f) = (lo ≤ f) × (f < hi) × (o f ≡ 0) × ((b : ℕ) → lo ≤ b → b < f → o b ≡ 1)

-- One more set bit below.
Lowest-step :
    (o : ℕ → ℕ) (lo mid hi : ℕ) (r : Option ℕ)
    → lo ≤ mid
    → ((b : ℕ) → lo ≤ b → b < mid → o b ≡ 1)
    → Lowest o mid hi r
    → Lowest o lo hi r
Lowest-step o lo mid hi none le below h =
    λ b p q. elim (ℕ-split b mid) [ inl l ↦ below b p l | inr g ↦ h b g q ]
Lowest-step o lo mid hi (some f) le below h = (
  omega arith,
  h.1,
  h.2,
  λ b p q. elim (ℕ-split b mid) [ inl l ↦ below b p l | inr g ↦ h.3 b g q ],
)

first_clear-Lowest : (left j w : ℕ) → Lowest (bit_at w) j (j + left) (first_clear left j w)
unfolding first_clear
first_clear-Lowest zero j w = λ b p q. absurd (omega arith)
first_clear-Lowest (suc left) j w = elim (Bool-cases (bit_and w (2 ^ j) == 0)) [
  | inl e ↦ rw e (omega arith, omega arith, (clear_iff w j).0 e, λ b p q. absurd (omega arith))
  | inr ne ↦
      rw (ne, ← move)
        (Lowest-step (bit_at w) j (suc j) (suc j + left) (first_clear left (suc j) w) (omega arith)
          (λ b p q. let e : b ≡ j = omega arith in rw e ((set_iff w j).0 ne))
          (first_clear-Lowest left (suc j) w))
]
  where
    move : suc j + left ≡ j + suc left
    move = omega arith

pub occ_word : (m : Words) (i b : ℕ) → i * 32 ≤ b → b < suc i * 32 → occ m b ≡ bit_at (m i) (b % 32)
occ_word m i b p q = let e : b / 32 ≡ i = omega arith in rw e

pub occ_bit : (m : Words) (i k : ℕ) → k < 32 → occ m (i * 32 + k) ≡ bit_at (m i) k
occ_bit m i k l =
    let q : (i * 32 + k) / 32 ≡ i = omega arith in
    let r : (i * 32 + k) % 32 ≡ k = omega arith in rw (q, r)

module _ (m : Words) (i : ℕ) where
  -- The blocks of word `i` are all occupied.
  abbrev pub IsFullAt : Type 0
  IsFullAt = (b : ℕ) → i * 32 ≤ b → b < suc i * 32 → occ m b ≡ 1

  pub full-IsFullAt : (m i == full_word) ≡ true → IsFullAt
  full-IsFullAt e b p q = occ_word m i b p q ∙ full_bits (m i) (b % 32) e (omega arith)

  none-IsFullAt : Lowest (bit_at (m i)) 0 32 none → IsFullAt
  none-IsFullAt h b p q = occ_word m i b p q ∙ h (b % 32) (omega arith) (omega arith)

  found-Lowest :
      (j hi : ℕ)
      → suc i * 32 ≤ hi
      → Lowest (bit_at (m i)) 0 32 (some j)
      → Lowest (occ m) (i * 32) hi (some (i * 32 + j))
  found-Lowest j hi le h = (
    omega arith,
    omega arith,
    occ_bit m i j h.1 ∙ h.2,
    λ b p q. occ_word m i b p (omega arith) ∙ h.3 (b % 32) (omega arith) (omega arith),
  )

word-Lowest :
    (m : Words) (i hi : ℕ) (rest inner : Option ℕ)
    → suc i * 32 ≤ hi
    → Lowest (bit_at (m i)) 0 32 inner
    → Lowest (occ m) (suc i * 32) hi rest
    → Lowest (occ m) (i * 32) hi (elim inner [ some j ↦ some (i * 32 + j) | none ↦ rest ])
word-Lowest m i hi rest none le h r =
    Lowest-step (occ m) (i * 32) (suc i * 32) hi rest (omega arith) (none-IsFullAt m i h) r
word-Lowest m i hi rest (some j) le h r = found-Lowest m i j hi le h

first_free_from-Lowest :
    (left i hi : ℕ) (m : Words)
    → (i + left) * 32 ≡ hi
    → Lowest (occ m) (i * 32) hi (first_free_from left i m)
unfolding first_free_from
first_free_from-Lowest zero i hi m e = λ b p q. absurd (omega arith)
first_free_from-Lowest (suc left) i hi m e = elim (Bool-cases (m i == full_word)) [
  | inl y ↦ rw y (
      Lowest-step (occ m) (i * 32) (suc i * 32) hi (first_free_from left (suc i) m) (omega arith)
        (full-IsFullAt m i y) (first_free_from-Lowest left (suc i) hi m (omega arith)))
  | inr n ↦ rw n (
      word-Lowest m i hi (first_free_from left (suc i) m) (first_clear 32 0 (m i)) (omega arith)
        (first_clear-Lowest 32 0 (m i)) (first_free_from-Lowest left (suc i) hi m (omega arith)))
]

pub first_free-Lowest :
    (blocks : ℕ) (m : Words) → Lowest (occ m) 0 (blocks / 32 * 32) (first_free blocks m)
unfolding first_free
first_free-Lowest blocks m =
    first_free_from-Lowest (blocks / 32) 0 (blocks / 32 * 32) m (omega arith)
