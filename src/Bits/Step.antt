-- ===== src/Bits/Step.antt =====
-- One equation for the lowest digit of `bit_or` and `bit_and`: the operations stand for a
-- recursion on binary digits with fuel, and the fuel does not matter once it is enough.
use Prim.Native.Nat.{digits, bitwise, bit_and-bitwise, bit_or-bitwise}
use osdev_graphical.Base.{
  ℕ, zero, suc, ◌+◌, ◌*◌, ◌/◌, ◌%◌, ◌≤◌, min, max, bit_and, bit_or, ◌≡◌, refl, arith,
}

module _ (z : ℕ → ℕ) (f : ℕ → ℕ → ℕ) where
  enough : (m n a b : ℕ) → a ≤ m → a ≤ n → digits z f m a b ≡ digits z f n a b
  enough zero zero a b p q = refl
  enough zero (suc n) zero b p q = refl
  enough zero (suc n) (suc a) b p q = absurd (omega arith)
  enough (suc m) zero zero b p q = refl
  enough (suc m) zero (suc a) b p q = absurd (omega arith)
  enough (suc m) (suc n) zero b p q = refl
  enough (suc m) (suc n) (suc a) b p q =
      rw (enough m n (suc a / 2) (b / 2) (omega arith) (omega arith))

  lowest_digit :
      (a b : ℕ)
      → bitwise z f (suc a) b ≡ bitwise z f (suc a / 2) (b / 2) * 2 + f (suc a % 2) (b % 2)
  lowest_digit a b =
      omega (arith, enough a (suc a / 2) (suc a / 2) (b / 2) (omega arith) (omega arith))

pub or_step : (a b : ℕ) → bit_or a b ≡ bit_or (a / 2) (b / 2) * 2 + max (a % 2) (b % 2)
or_step zero b = simp bit_or-bitwise (omega arith)
or_step (suc a) b = simp bit_or-bitwise (lowest_digit (λ y. y) max a b)

pub and_step : (a b : ℕ) → bit_and a b ≡ bit_and (a / 2) (b / 2) * 2 + min (a % 2) (b % 2)
and_step zero b = simp bit_and-bitwise (omega arith)
and_step (suc a) b = simp bit_and-bitwise (lowest_digit (λ y. 0) min a b)

pub zero-and : (b : ℕ) → bit_and 0 b ≡ 0
zero-and b = simp bit_and-bitwise

pub zero-or : (b : ℕ) → bit_or 0 b ≡ b
zero-or b = simp bit_or-bitwise
