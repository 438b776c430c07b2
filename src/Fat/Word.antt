-- ===== src/Fat/Word.antt =====
-- The bits of an entry's word.
use osdev_graphical.Base.{
  ℕ, ◌+◌, ◌*◌, ◌/◌, ◌%◌, ◌^◌, ◌<◌, bit_and, bit_or, ◌≡◌, refl, arith, ap, ap₂, Bool-cases, inl, inr,
  if◌then◌else◌, ◌==◌,
}
use osdev_graphical.Bits.{or_step, and_step, and-zero, or-zero, zero-or}
use osdev_graphical.Paging.Laws.{nibble_ones, nibble_zeros, and-fff}
use osdev_graphical.Fat.{is_odd, entry_bits, remnant, marked}

odd_lem : (c : ℕ) → is_odd c ≡ (c % 2 == 1)
odd_lem c = ap (λ (b : ℕ). b == 1) (omega (arith, and_step c 1, and-zero (c / 2)))

and-f : (a : ℕ) → bit_and a 0xf ≡ a % 16
and-f a = omega (arith, nibble_ones a 0xf refl, and-zero (a / 16))

and-f000 : (a : ℕ) → a < 2 ^ 16 → bit_and a 0xf000 ≡ a / 4096 * 4096
and-f000 a h = omega (
  arith,
  nibble_zeros a 0xf000 refl,
  nibble_zeros (a / 16) 0xf00 refl,
  nibble_zeros (a / 16 / 16) 0xf0 refl,
  nibble_ones (a / 16 / 16 / 16) 0xf refl,
  and-zero (a / 16 / 16 / 16 / 16),
)

-- Four bits of a sum without carries.
or_nibble : (a b : ℕ) → a % 16 ≡ 0 → bit_or a b ≡ bit_or (a / 16) (b / 16) * 16 + b % 16
or_nibble a b h = omega (
  arith,
  or_step a b,
  or_step (a / 2) (b / 2),
  or_step (a / 2 / 2) (b / 2 / 2),
  or_step (a / 2 / 2 / 2) (b / 2 / 2 / 2),
  ap₂ bit_or (sixteenth a) (sixteenth b),
)
  where
    sixteenth : (x : ℕ) → x / 2 / 2 / 2 / 2 ≡ x / 16
    sixteenth x = omega arith

or_nibble_left : (a b : ℕ) → b % 16 ≡ 0 → bit_or a b ≡ bit_or (a / 16) (b / 16) * 16 + a % 16
or_nibble_left a b h = omega (
  arith,
  or_step a b,
  or_step (a / 2) (b / 2),
  or_step (a / 2 / 2) (b / 2 / 2),
  or_step (a / 2 / 2 / 2) (b / 2 / 2 / 2),
  ap₂ bit_or (sixteenth a) (sixteenth b),
)
  where
    sixteenth : (x : ℕ) → x / 2 / 2 / 2 / 2 ≡ x / 16
    sixteenth x = omega arith

pub entry_bits_lem : (c w : ℕ) → entry_bits c w ≡ (if c % 2 == 1 then w / 16 else w % 4096)
unfolding entry_bits
entry_bits_lem c w = rw (odd_lem c, and-fff w) refl

pub marked_lem :
    (c v w : ℕ)
    → v < 4096
    → w < 2 ^ 16
    → marked c v w ≡ (if c % 2 == 1 then v * 16 + w % 16 else w / 4096 * 4096 + v)
unfolding marked remnant
marked_lem c v w hv hw =
    rw (odd_lem c, and-f w, and-f000 w hw)
      (elim (Bool-cases (c % 2 == 1)) [
        | inl e ↦ rw e (
            omega (
              arith,
              or_nibble (v * 16) (w % 16) (omega arith),
              ap₂ bit_or (the_same v) (none_left w),
              or-zero v,
            ))
        | inr e ↦ rw e (
            omega (
              arith,
              or_nibble_left v (w / 4096 * 4096) (omega arith),
              or_nibble_left (v / 16) (w / 4096 * 4096 / 16) (omega arith),
              or_nibble_left (v / 16 / 16) (w / 4096 * 4096 / 16 / 16) (omega arith),
              ap₂ bit_or (low v hv) (high w),
              zero-or (w / 4096),
            ))
      ])
  where
    the_same : (x : ℕ) → x * 16 / 16 ≡ x
    the_same x = omega arith

    none_left : (x : ℕ) → x % 16 / 16 ≡ 0
    none_left x = omega arith

    low : (x : ℕ) → x < 4096 → x / 16 / 16 / 16 ≡ 0
    low x h = omega arith

    high : (x : ℕ) → x / 4096 * 4096 / 16 / 16 / 16 ≡ x / 4096
    high x = omega arith
