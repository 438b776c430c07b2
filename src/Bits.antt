-- ===== src/Bits.antt =====
-- The bits of a machine word, and what `|`, `&`, `1 << k` and `~` do to each of them.
mod Step
pub mod Places
pub use Step.{or_step, and_step, zero-and, zero-or}
use native.Mathlib.Nat.{pow-suc, one-le-pow}
use osdev_graphical.Base.{
  ℕ, zero, suc, ◌+◌, ◌-◌, ◌*◌, ◌/◌, ◌%◌, ◌^◌, ◌≤◌, ◌<◌, min, max, bit_and, bit_or, ◌≡◌, refl, ◌≢◌,
  if◌then◌else◌, ◌==◌, ltb, ap, ◌∙◌, arith,
}

-- Bit `k` of `w`, as 0 or 1.
abbrev pub bit_at : ℕ → ℕ → ℕ
bit_at w zero = w % 2
bit_at w (suc k) = bit_at (w / 2) k

pub bit_at-le : (w k : ℕ) → bit_at w k ≤ 1
bit_at-le w zero = omega arith
bit_at-le w (suc k) = bit_at-le (w / 2) k

pub bit_at-or : (a b k : ℕ) → bit_at (bit_or a b) k ≡ max (bit_at a k) (bit_at b k)
bit_at-or a b zero = omega (arith, or_step a b)
bit_at-or a b (suc k) =
    let half : bit_or a b / 2 ≡ bit_or (a / 2) (b / 2) = omega (arith, or_step a b) in
    rw half (bit_at-or (a / 2) (b / 2) k)

pub bit_at-and : (a b k : ℕ) → bit_at (bit_and a b) k ≡ min (bit_at a k) (bit_at b k)
bit_at-and a b zero = omega (arith, and_step a b)
bit_at-and a b (suc k) =
    let half : bit_and a b / 2 ≡ bit_and (a / 2) (b / 2) = omega (arith, and_step a b) in
    rw half (bit_at-and (a / 2) (b / 2) k)

pub bit_at-zero : (k : ℕ) → bit_at 0 k ≡ 0
bit_at-zero zero = refl
bit_at-zero (suc k) = bit_at-zero k

-- `1 << j` has bit `j` alone.
pub bit_at-pow_self : (j : ℕ) → bit_at (2 ^ j) j ≡ 1
bit_at-pow_self zero = refl
bit_at-pow_self (suc j) =
    let half : 2 ^ suc j / 2 ≡ 2 ^ j = omega (arith, pow-suc 2 j) in rw half (bit_at-pow_self j)

pub bit_at-pow_ne : (j k : ℕ) → j ≢ k → bit_at (2 ^ j) k ≡ 0
bit_at-pow_ne zero zero h = absurd (h refl)
bit_at-pow_ne zero (suc k) h = bit_at-zero k
bit_at-pow_ne (suc j) zero h = omega (arith, pow-suc 2 j)
bit_at-pow_ne (suc j) (suc k) h =
    let half : 2 ^ suc j / 2 ≡ 2 ^ j = omega (arith, pow-suc 2 j) in
    rw half (bit_at-pow_ne j k (λ e. h (ap suc e)))

-- Below `2 ^ n` the bits from `n` on are 0.
pub bit_at-high : (n k w : ℕ) → w < 2 ^ n → n ≤ k → bit_at w k ≡ 0
bit_at-high zero k w h le = let e : w ≡ 0 = omega arith in rw e (bit_at-zero k)
bit_at-high (suc n) zero w h le = absurd (omega arith)
bit_at-high (suc n) (suc k) w h le =
    bit_at-high n k (w / 2) (omega (arith, pow-suc 2 n)) (omega arith)

-- A word is given by its bits.
pub bit_at_ext :
    (n a b : ℕ) → a < 2 ^ n → b < 2 ^ n → ((k : ℕ) → k < n → bit_at a k ≡ bit_at b k) → a ≡ b
bit_at_ext zero a b p q h = omega arith
bit_at_ext (suc n) a b p q h = omega (
  arith,
  h 0 (omega arith),
  bit_at_ext n (a / 2) (b / 2) (omega (arith, pow-suc 2 n)) (omega (arith, pow-suc 2 n))
      (λ k l. h (suc k) (omega arith)),
)

-- `0xff…f` of `n` bits.
pub bit_at-ones : (n k : ℕ) → k < n → bit_at (2 ^ n - 1) k ≡ 1
bit_at-ones zero k h = absurd (omega arith)
bit_at-ones (suc n) zero h = omega (arith, pow-suc 2 n, one-le-pow n 2)
bit_at-ones (suc n) (suc k) h =
    let half : (2 ^ suc n - 1) / 2 ≡ 2 ^ n - 1 = omega (arith, pow-suc 2 n, one-le-pow n 2) in
    rw half (bit_at-ones n k (omega arith))

pub pow-lt : (n j : ℕ) → j < n → 2 ^ j < 2 ^ n
pow-lt zero j h = absurd (omega arith)
pow-lt (suc n) zero h = omega (arith, pow-suc 2 n, one-le-pow n 2)
pow-lt (suc n) (suc j) h = omega (arith, pow-suc 2 n, pow-suc 2 j, pow-lt n j (omega arith))

-- `~(1 << j)` of `n` bits: all but bit `j`.
pub bit_at-hole_self : (n j : ℕ) → j < n → bit_at (2 ^ n - 1 - 2 ^ j) j ≡ 0
bit_at-hole_self zero j h = absurd (omega arith)
bit_at-hole_self (suc n) zero h = omega (arith, pow-suc 2 n, one-le-pow n 2)
bit_at-hole_self (suc n) (suc j) h =
    let half : (2 ^ suc n - 1 - 2 ^ suc j) / 2 ≡ 2 ^ n - 1 - 2 ^ j =
      omega (arith, pow-suc 2 n, pow-suc 2 j, one-le-pow n 2) in
    rw half (bit_at-hole_self n j (omega arith))

pub bit_at-hole_ne : (n j k : ℕ) → j < n → k < n → j ≢ k → bit_at (2 ^ n - 1 - 2 ^ j) k ≡ 1
bit_at-hole_ne zero j k hj hk h = absurd (omega arith)
bit_at-hole_ne (suc n) zero zero hj hk h = absurd (h refl)
bit_at-hole_ne (suc n) zero (suc k) hj hk h =
    let half : (2 ^ suc n - 1 - 2 ^ 0) / 2 ≡ 2 ^ n - 1 =
      omega (arith, pow-suc 2 n, one-le-pow n 2) in
    rw half (bit_at-ones n k (omega arith))
bit_at-hole_ne (suc n) (suc j) zero hj hk h =
    omega (arith, pow-suc 2 n, pow-suc 2 j, one-le-pow n 2, pow-lt n j (omega arith))
bit_at-hole_ne (suc n) (suc j) (suc k) hj hk h =
    let half : (2 ^ suc n - 1 - 2 ^ suc j) / 2 ≡ 2 ^ n - 1 - 2 ^ j =
      omega (arith, pow-suc 2 n, pow-suc 2 j, one-le-pow n 2) in
    rw half (bit_at-hole_ne n j k (omega arith) (omega arith) (λ e. h (ap suc e)))

and-le_fuel : (n a b : ℕ) → a ≤ n → (bit_and a b ≤ a) × (bit_and a b ≤ b)
and-le_fuel n zero b h = omega (arith, zero-and b)
and-le_fuel zero (suc a) b h = absurd (omega arith)
and-le_fuel (suc n) (suc a) b h =
    omega (arith, and_step (suc a) b, and-le_fuel n (suc a / 2) (b / 2) (omega arith))

pub and-le : (a b : ℕ) → (bit_and a b ≤ a) × (bit_and a b ≤ b)
and-le a b = and-le_fuel a a b (omega arith)

pub or-lt : (n a b : ℕ) → a < 2 ^ n → b < 2 ^ n → bit_or a b < 2 ^ n
or-lt zero a b p q =
    let e : a ≡ 0 = omega arith in let f : b ≡ 0 = omega arith in rw (e, f) (omega arith)
or-lt (suc n) a b p q = omega (
  arith,
  or_step a b,
  pow-suc 2 n,
  or-lt n (a / 2) (b / 2) (omega (arith, pow-suc 2 n)) (omega (arith, pow-suc 2 n)),
)

pub and-zero : (a : ℕ) → bit_and a 0 ≡ 0
and-zero a = omega (arith, and-le a 0)

-- `w & (1 << j)`.
pub and-pow : (w j : ℕ) → bit_and w (2 ^ j) ≡ bit_at w j * 2 ^ j
and-pow w zero = omega (arith, and_step w 1, and-zero (w / 2))
and-pow w (suc j) =
    let half : 2 ^ suc j / 2 ≡ 2 ^ j = omega (arith, pow-suc 2 j) in
    let step : bit_and w (2 ^ suc j) ≡ bit_and (w / 2) (2 ^ j) * 2 =
      omega (arith, and_step w (2 ^ suc j), ap (bit_and (w / 2)) half, pow-suc 2 j) in
    omega (arith, step, and-pow (w / 2) j, ap (λ (t : ℕ). bit_at (w / 2) j * t) (pow-suc 2 j))

or-zero_fuel : (n a : ℕ) → a ≤ n → bit_or a 0 ≡ a
or-zero_fuel n zero h = zero-or 0
or-zero_fuel zero (suc a) h = absurd (omega arith)
or-zero_fuel (suc n) (suc a) h =
    omega (arith, or_step (suc a) 0, or-zero_fuel n (suc a / 2) (omega arith))

pub or-zero : (a : ℕ) → bit_or a 0 ≡ a
or-zero a = or-zero_fuel a a (omega arith)

-- A number shifted above another one's digits stands beside it.
pub or-place : (n a b : ℕ) → a < 2 ^ n → bit_or a (b * 2 ^ n) ≡ a + b * 2 ^ n
or-place zero a b h =
    let z : a ≡ 0 = omega (arith, h) in
    let e : b * 2 ^ 0 ≡ b = omega arith in rw (z, e) (omega (arith, zero-or b))
or-place (suc n) a b h =
    let pow = pow-suc 2 n in
    let double : b * 2 ^ suc n ≡ 2 * (b * 2 ^ n) = ap (λ (t : ℕ). b * t) pow ∙ omega arith in
    let half : b * 2 ^ suc n / 2 ≡ b * 2 ^ n = omega (arith, double) in
    let ih = or-place n (a / 2) b (omega (arith, h, pow)) in
    let step : bit_or a (b * 2 ^ suc n) ≡ bit_or (a / 2) (b * 2 ^ n) * 2 + a % 2 =
      omega (arith, or_step a (b * 2 ^ suc n), ap (bit_or (a / 2)) half, double) in
    omega (arith, step, ih, double)
