-- ===== src/Floppy/Attempts.antt =====
-- What the attempts at a transfer come to.
use osdev_graphical.Base.{
  ℕ, zero, suc, ◌+◌, ◌≤◌, ◌<◌, ◌≡◌, arith, sym, Bool-cases, ==_iff, inl, inr, ◌==◌,
}
use mathlib.Core.Path.{subst}
use osdev_graphical.Floppy.{
  Status, Transfer, transferred, not_writable, no_value, rw_attempts, flpydsk_rw_sector,
}
use osdev_graphical.Floppy.Answers.{IsClean, IsFailed, IsProtected, error_of-kinds}

-- Attempt `m` is the first, from `i` on, that did not fail.
abbrev pub First : (ℕ → Status) → ℕ → ℕ → Type 0
First answers i m = (j : ℕ) → i ≤ j → j < m → IsFailed (answers j)

-- What the attempts from `i` to `k` came to.
abbrev pub AttemptsLaw : (ℕ → Status) → ℕ → ℕ → Transfer → Type 0
AttemptsLaw answers i k transferred =
    (m : ℕ) × (i ≤ m) × (m < k) × IsClean (answers m) × First answers i m
AttemptsLaw answers i k not_writable =
    (m : ℕ) × (i ≤ m) × (m < k) × IsProtected (answers m) × First answers i m
AttemptsLaw answers i k no_value = First answers i k

later :
    (answers : ℕ → Status) (i m : ℕ)
    → IsFailed (answers i)
    → First answers (suc i) m
    → First answers i m
later answers i m now before = λ j l u. elim (Bool-cases (j == i)) [
  | inl q ↦ subst (λ k. IsFailed (answers k)) (sym ((==_iff j i).0 q)) now
  | inr q ↦ before j (ground arith) u
]

rest_law :
    (answers : ℕ → Status) (i k : ℕ) (t : Transfer)
    → IsFailed (answers i)
    → AttemptsLaw answers (suc i) k t
    → AttemptsLaw answers i k t
rest_law answers i k transferred one (m, l, u, c, f) =
    (m, omega arith, u, c, later answers i m one f)
rest_law answers i k not_writable one (m, l, u, c, f) =
    (m, omega arith, u, c, later answers i m one f)
rest_law answers i k no_value one all = later answers i k one all

attempts_lem :
    (answers : ℕ → Status) (n i : ℕ) → AttemptsLaw answers i (i + n) (rw_attempts answers n i)
unfolding rw_attempts
attempts_lem answers zero i = λ j l u. absurd (omega arith)
attempts_lem answers (suc n) i = elim (error_of-kinds (answers i)) [
  | inl (h, c) ↦ rw h (i, omega arith, omega arith, c, λ j l u. absurd (omega arith))
  | inr (inl (h, f)) ↦
      let same : suc i + n ≡ i + suc n = omega arith in
      let ih0 = attempts_lem answers n (suc i) in
      let ih = rw same at ih0 in
      rw h (rest_law answers i (i + suc n) (rw_attempts answers n (suc i)) f ih)
  | inr (inr (h, p)) ↦ rw h (i, omega arith, omega arith, p, λ j l u. absurd (omega arith))
]

-- `flpydsk_rw_sector` returns 0 only when one of twenty attempts has no error bit set in the three
-- status bytes and sectors of 512 bytes, and -2 only when one has bit 1 of the second byte set, every
-- attempt before having an error without that bit; it ends without a value only when all twenty had
-- such an error.
pub flpydsk_rw_sector-AttemptsLaw :
    (answers : ℕ → Status) → AttemptsLaw answers 0 20 (flpydsk_rw_sector answers)
unfolding flpydsk_rw_sector
flpydsk_rw_sector-AttemptsLaw answers = attempts_lem answers 20 0
