-- ===== src/Clock/Tests.antt =====
-- drivers/timer.c shortly before midnight.
use osdev_graphical.Base.{◌≡◌, arith}
use osdev_graphical.Clock.{Clock}
use osdev_graphical.Clock.Time.{IsClock, since_midnight, ticks_on, ticks_on-since_midnight}

-- 23:59:59 and 98 hundredths.
abbrev late : Clock
late = record {
  timer_ticks = 5;
  second_ticks = 98;
  current_sec = 59;
  current_min = 59;
  current_hour = 23;
}

ticks_on-since_midnight_example : IsClock (ticks_on 3 late) × (since_midnight (ticks_on 3 late) ≡ 1)
ticks_on-since_midnight_example =
    ticks_on-since_midnight 3 late
      (record { ticks = omega arith; sec = omega arith; min = omega arith; hour = omega arith })
