-- ===== src/Strings/Overrun.antt =====
-- Numbers for which `uint_to_str` writes in front of its buffer.
use native.Mathlib.Nat.{pow-le-pow_right}
use osdev_graphical.Base.{
  ℕ, zero, suc, ◌-◌, ◌*◌, ◌/◌, ◌%◌, ◌^◌, ◌≤◌, ◌<◌, ◌≡◌, refl, arith, ap, false, List, ◌==◌, ltb,
  set, none,
}
use osdev_graphical.Strings.{digit, digit_count, write_digits, terminated, uint_to_str}
use osdev_graphical.Strings.Digits.{digit_count-le}

write_digits-none :
    (pos f n : ℕ) (s : List ℕ) → pos < f → 10 ^ pos ≤ n → write_digits f 10 n pos s ≡ none
unfolding write_digits
write_digits-none pos zero n s h l = absurd (omega arith)
write_digits-none zero (suc f) n s h l = refl
write_digits-none (suc pos) (suc f) n s h l =
    let low : 10 ^ pos ≤ n / 10 = omega (arith, tens pos) in
    let more : (n / 10 == 0) ≡ false = ground (arith, low, pow_pos pos) in
    rw more (write_digits-none pos f (n / 10) (set s pos (digit (n % 10))) (omega arith) low)
  where
    tens : (i : ℕ) → 10 ^ suc i ≡ 10 * 10 ^ i
    tens i = omega arith

    pow_pos : (i : ℕ) → 0 < 10 ^ i
    pow_pos i = pow-le-pow_right {n = 10} (omega arith) {i = 0} {j = i} (omega arith)

write_digits_fewer :
    (k pos f n : ℕ) (s : List ℕ) → pos ≤ k → k < f → 10 ^ k ≤ n → write_digits f 10 n pos s ≡ none
write_digits_fewer k pos f n s h l m =
    write_digits-none pos f n s (omega arith)
      (let low = pow-le-pow_right {n = 10} (omega arith) h in omega (arith, low))

-- `uint_to_str` in base 10 of any number from 2^32 - 10^9 + 1 on counts too few digits, those of the
-- `int` of the same bits, and writes in front of the buffer.
pub uint_to_str-none :
    (n : ℕ) (buffer : List ℕ) → 2 ^ 32 - 10 ^ 9 < n → n < 2 ^ 32 → uint_to_str n buffer 10 ≡ none
unfolding uint_to_str terminated
uint_to_str-none n buffer lo hi =
    let signed : ltb n (2 ^ 31) ≡ false = ground arith in
    rw signed (
      ap (terminated (digit_count 32 10 (2 ^ 32 - n))) (
        write_digits_fewer 9 (digit_count 32 10 (2 ^ 32 - n)) 32 n buffer
          (digit_count-le 32 9 (2 ^ 32 - n) (omega arith) (omega arith)) (omega arith)
          (omega arith)))
