-- ===== src/Clock/Bcd.antt =====
-- The time that the clock starts from is the one that the registers show.
use osdev_graphical.Base.{
  ℕ, ◌+◌, ◌*◌, ◌/◌, ◌%◌, ◌<◌, ◌≡◌, refl, arith, ◌∙◌, ap, bit_and, Bool, true, false, if◌then◌else◌,
}
use osdev_graphical.Bits.{and_step, and-zero}
use osdev_graphical.Clock.{
  is_24_hour, is_binary, bcd_value, rtc_get_seconds, rtc_get_minutes, rtc_get_hour, timer_install,
}
use osdev_graphical.Clock.Time.{IsClock}

-- A number below 100 as two decimal digits in a byte.
abbrev pub to_bcd : ℕ → ℕ
to_bcd n = n / 10 * 16 + n % 10

low_digits : (a : ℕ) → bit_and a 15 ≡ a % 16
low_digits a = omega (
  arith,
  and_step a 15,
  and_step (a / 2) 7,
  and_step (a / 2 / 2) 3,
  and_step (a / 2 / 2 / 2) 1,
  and-zero (a / 2 / 2 / 2 / 2),
)

high_digits : (a : ℕ) → bit_and a 240 ≡ a / 16 % 16 * 16
high_digits a =
    let shifted : a / 2 / 2 / 2 / 2 ≡ a / 16 = omega arith in
    omega (
      arith,
      and_step a 240,
      and_step (a / 2) 120,
      and_step (a / 2 / 2) 60,
      and_step (a / 2 / 2 / 2) 30,
      ap (λ (t : ℕ). bit_and t 15) shifted,
      low_digits (a / 16),
    )

low_seven : (a : ℕ) → bit_and a 127 ≡ a % 128
low_seven a =
    let shifted : a / 2 / 2 / 2 ≡ a / 8 = omega arith in
    omega (
      arith,
      and_step a 127,
      and_step (a / 2) 63,
      and_step (a / 2 / 2) 31,
      ap (λ (t : ℕ). bit_and t 15) shifted,
      low_digits (a / 8),
    )

bcd_value-to_bcd : (n : ℕ) → n < 100 → bcd_value (to_bcd n) ≡ n
unfolding bcd_value
bcd_value-to_bcd n h = omega (arith, high_digits (to_bcd n), low_digits (to_bcd n))

-- The registers show `s`, `m` and the byte `hour`, in decimal digits or in binary.
pub record IsShown (register : ℕ → ℕ) (hour m s : ℕ) : Type 0 where
  pub seconds : register 0 ≡ (if is_binary register then s else to_bcd s)
  pub minutes : register 2 ≡ (if is_binary register then m else to_bcd m)
  pub hours : register 4 ≡ hour

shown :
    (b : Bool) (r n : ℕ)
    → n < 100
    → r ≡ (if b then n else to_bcd n)
    → (if b then r else bcd_value r) ≡ n
shown true r n h e = e
shown false r n h e = ap bcd_value e ∙ bcd_value-to_bcd n h

-- With the mark for the afternoon.
shown_12 :
    (b : Bool) (r n p : ℕ)
    → n < 60
    → p < 2
    → r ≡ p * 128 + (if b then n else to_bcd n)
    → (if b then bit_and r 0x7F else bcd_value (bit_and r 0x7F)) ≡ n
shown_12 true r n p h l e = omega (arith, low_seven r, e)
shown_12 false r n p h l e =
    let low : bit_and r 0x7F ≡ to_bcd n = omega (arith, low_seven r, e) in
    ap bcd_value low ∙ bcd_value-to_bcd n (omega arith)

-- When the registers show a time of day, by 24 hours, in decimal digits or in binary, the clock starts
-- as a clock with that time. When they show the hour `h` by 12 hours, it starts with `h`, with the mark
-- of the afternoon as without it.
pub timer_install-IsShown :
    (register : ℕ → ℕ) (h m s : ℕ)
    → h < 24
    → m < 60
    → s < 60
    → (is_24_hour register ≡ true
        → IsShown register (if is_binary register then h else to_bcd h) m s
        → IsClock (timer_install register)
          × (timer_install register ≡ record {
            timer_ticks = 0;
            second_ticks = 0;
            current_sec = s;
            current_min = m;
            current_hour = h;
          }))
      × (is_24_hour register ≡ false
          → (afternoon : ℕ) → afternoon < 2
          → IsShown register (afternoon * 128 + (if is_binary register then h else to_bcd h)) m s
          → (timer_install register).current_hour ≡ h)
unfolding timer_install rtc_get_seconds rtc_get_minutes rtc_get_hour
timer_install-IsShown register h m s hh hm hs = (
  λ t w.
      let sec = shown (is_binary register) (register 0) s (omega arith) w.seconds in
      let min = shown (is_binary register) (register 2) m (omega arith) w.minutes in
      let hour = shown (is_binary register) (register 4) h (omega arith) w.hours in
      rw (t, sec, min, hour) (record { ticks = omega arith; sec = hs; min = hm; hour = hh }, refl),
  λ t p lp w. rw t (shown_12 (is_binary register) (register 4) h p (omega arith) lp w.hours),
)
