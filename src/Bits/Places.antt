-- ===== src/Bits/Places.antt =====
-- Masks and shifts as the digits at a place of a number.
use native.Mathlib.Nat.{pow-suc}
use osdev_graphical.Base.{
  ℕ, zero, suc, ◌+◌, ◌*◌, ◌/◌, ◌%◌, ◌^◌, ◌<◌, bit_and, bit_or, ◌≡◌, arith, ap, ◌∙◌,
}
use osdev_graphical.Bits.{or_step, and_step, and-zero, or-zero}

-- The number `b` with `n` zero bits behind it.
double : (n b : ℕ) → (b * 2 ^ suc n / 2 ≡ b * 2 ^ n) × (b * 2 ^ suc n % 2 ≡ 0)
double n b =
    let twice : b * 2 ^ suc n ≡ 2 * (b * 2 ^ n) =
      ap (λ (t : ℕ). b * t) (pow-suc 2 n) ∙ omega arith in
    (omega (arith, twice), omega (arith, twice))

pub place-or : (n a b : ℕ) → a < 2 ^ n → bit_or (b * 2 ^ n) a ≡ a + b * 2 ^ n
place-or zero a b h =
    let z : a ≡ 0 = omega (arith, h) in
    let e : b * 2 ^ 0 ≡ b = omega arith in rw (z, e) (omega (arith, or-zero b))
place-or (suc n) a b h =
    let (half, even) = double n b in
    let ih = place-or n (a / 2) b (omega (arith, h, pow-suc 2 n)) in
    omega (arith, or_step (b * 2 ^ suc n) a, ap (λ (t : ℕ). bit_or t (a / 2)) half, ih, half, even)

and_double : (x m : ℕ) → bit_and x (m * 2) ≡ bit_and (x / 2) m * 2
and_double x m =
    let half : m * 2 / 2 ≡ m = omega arith in
    omega (arith, and_step x (m * 2), ap (bit_and (x / 2)) half)

and_quad : (x m : ℕ) → bit_and x (m * 4) ≡ bit_and (x / 4) m * 4
and_quad x m =
    let twice : m * 4 ≡ m * 2 * 2 = omega arith in
    let quarter : x / 2 / 2 ≡ x / 4 = omega arith in
    omega (
      arith,
      ap (bit_and x) twice,
      and_double x (m * 2),
      and_double (x / 2) m,
      ap (λ (t : ℕ). bit_and t m) quarter,
    )

pub and_hex : (x m : ℕ) → bit_and x (m * 16) ≡ bit_and (x / 16) m * 16
and_hex x m =
    let twice : m * 16 ≡ m * 4 * 4 = omega arith in
    let quarter : x / 4 / 4 ≡ x / 16 = omega arith in
    omega (
      arith,
      ap (bit_and x) twice,
      and_quad x (m * 4),
      and_quad (x / 4) m,
      ap (λ (t : ℕ). bit_and t m) quarter,
    )

-- A mask with eight zero bits behind it.
pub and-above : (x m : ℕ) → bit_and x (m * 256) ≡ bit_and (x / 256) m * 256
and-above x m =
    let twice : m * 256 ≡ m * 16 * 16 = omega arith in
    let quarter : x / 16 / 16 ≡ x / 256 = omega arith in
    omega (
      arith,
      ap (bit_and x) twice,
      and_hex x (m * 16),
      and_hex (x / 16) m,
      ap (λ (t : ℕ). bit_and t m) quarter,
    )

pub and_low : (a : ℕ) → bit_and a 15 ≡ a % 16
and_low a = omega (
  arith,
  and_step a 15,
  and_step (a / 2) 7,
  and_step (a / 2 / 2) 3,
  and_step (a / 2 / 2 / 2) 1,
  and-zero (a / 2 / 2 / 2 / 2),
)

pub and-byte : (a : ℕ) → bit_and a 255 ≡ a % 256
and-byte a =
    let quarter : a / 2 / 2 / 2 / 2 ≡ a / 16 = omega arith in
    omega (
      arith,
      and_step a 255,
      and_step (a / 2) 127,
      and_step (a / 2 / 2) 63,
      and_step (a / 2 / 2 / 2) 31,
      ap (λ (t : ℕ). bit_and t 15) quarter,
      and_low (a / 16),
    )

or_double : (a b : ℕ) → bit_or a (b * 2) ≡ a % 2 + bit_or (a / 2) b * 2
or_double a b =
    let half : b * 2 / 2 ≡ b = omega arith in
    omega (arith, or_step a (b * 2), ap (bit_or (a / 2)) half)

or_quad : (a b : ℕ) → bit_or a (b * 4) ≡ a % 4 + bit_or (a / 4) b * 4
or_quad a b =
    let twice : b * 4 ≡ b * 2 * 2 = omega arith in
    let quarter : a / 2 / 2 ≡ a / 4 = omega arith in
    omega (
      arith,
      ap (bit_or a) twice,
      or_double a (b * 2),
      or_double (a / 2) b,
      ap (λ (t : ℕ). bit_or t b) quarter,
    )

or_hex : (a b : ℕ) → bit_or a (b * 16) ≡ a % 16 + bit_or (a / 16) b * 16
or_hex a b =
    let twice : b * 16 ≡ b * 4 * 4 = omega arith in
    let quarter : a / 4 / 4 ≡ a / 16 = omega arith in
    omega (
      arith,
      ap (bit_or a) twice,
      or_quad a (b * 4),
      or_quad (a / 4) b,
      ap (λ (t : ℕ). bit_or t b) quarter,
    )

-- The eight digits below are those of the first number alone.
pub or-above : (a b : ℕ) → bit_or a (b * 256) ≡ a % 256 + bit_or (a / 256) b * 256
or-above a b =
    let twice : b * 256 ≡ b * 16 * 16 = omega arith in
    let quarter : a / 16 / 16 ≡ a / 256 = omega arith in
    omega (
      arith,
      ap (bit_or a) twice,
      or_hex a (b * 16),
      or_hex (a / 16) b,
      ap (λ (t : ℕ). bit_or t b) quarter,
    )

ones_double : (x m : ℕ) → bit_and x (m * 2 + 1) ≡ x % 2 + bit_and (x / 2) m * 2
ones_double x m =
    let half : (m * 2 + 1) / 2 ≡ m = omega arith in
    omega (arith, and_step x (m * 2 + 1), ap (bit_and (x / 2)) half)

ones_quad : (x m : ℕ) → bit_and x (m * 4 + 3) ≡ x % 4 + bit_and (x / 4) m * 4
ones_quad x m =
    let twice : m * 4 + 3 ≡ (m * 2 + 1) * 2 + 1 = omega arith in
    let quarter : x / 2 / 2 ≡ x / 4 = omega arith in
    omega (
      arith,
      ap (bit_and x) twice,
      ones_double x (m * 2 + 1),
      ones_double (x / 2) m,
      ap (λ (t : ℕ). bit_and t m) quarter,
    )

ones_hex : (x m : ℕ) → bit_and x (m * 16 + 15) ≡ x % 16 + bit_and (x / 16) m * 16
ones_hex x m =
    let twice : m * 16 + 15 ≡ (m * 4 + 3) * 4 + 3 = omega arith in
    let quarter : x / 4 / 4 ≡ x / 16 = omega arith in
    omega (
      arith,
      ap (bit_and x) twice,
      ones_quad x (m * 4 + 3),
      ones_quad (x / 4) m,
      ap (λ (t : ℕ). bit_and t m) quarter,
    )

-- A mask of sixteen bits.
pub and-word : (x : ℕ) → bit_and x 0xffff ≡ x % 2 ^ 16
and-word x =
    let quarter : x / 16 / 16 ≡ x / 256 = omega arith in
    omega (
      arith,
      ones_hex x 0xfff,
      ones_hex (x / 16) 0xff,
      ap (λ (t : ℕ). bit_and t 255) quarter,
      and-byte (x / 256),
    )
