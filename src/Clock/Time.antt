-- ===== src/Clock/Time.antt =====
-- The clock counts the time of day in hundredths of a second.
use osdev_graphical.Base.{ℕ, zero, suc, ◌+◌, ◌*◌, ◌%◌, ◌<◌, ◌≡◌, arith}
use osdev_graphical.Clock.{Clock, next_second, update_time, timer_handler}

-- A time of day, with the ticks since its second.
pub record IsClock (c : Clock) : Type 0 where
  pub ticks : c.second_ticks < 100
  pub sec : c.current_sec < 60
  pub min : c.current_min < 60
  pub hour : c.current_hour < 24

-- The ticks since midnight, of which a day has 8640000.
abbrev pub since_midnight : Clock → ℕ
since_midnight c =
    ((c.current_hour * 60 + c.current_min) * 60 + c.current_sec) * 100 + c.second_ticks

abbrev pub ticks_on : ℕ → Clock → Clock
ticks_on zero c = c
ticks_on (suc n) c = ticks_on n (timer_handler c)

tick_lem :
    (c : Clock)
    → IsClock c
    → IsClock (timer_handler c)
      × (since_midnight (timer_handler c) ≡ (since_midnight c + 1) % 8640000)
unfolding timer_handler update_time next_second
tick_lem c w = (
  record {
    ticks = ground (arith, w.ticks, w.sec, w.min, w.hour);
    sec = ground (arith, w.ticks, w.sec, w.min, w.hour);
    min = ground (arith, w.ticks, w.sec, w.min, w.hour);
    hour = ground (arith, w.ticks, w.sec, w.min, w.hour);
  },
  ground (arith, w.ticks, w.sec, w.min, w.hour),
)

-- From a time of day, `n` interrupts lead to the time of day that is `n` hundredths of a second later,
-- past midnight if need be.
pub ticks_on-since_midnight :
    (n : ℕ) (c : Clock)
    → IsClock c
    → IsClock (ticks_on n c) × (since_midnight (ticks_on n c) ≡ (since_midnight c + n) % 8640000)
ticks_on-since_midnight zero c w = (w, omega (arith, w.ticks, w.sec, w.min, w.hour))
ticks_on-since_midnight (suc n) c w =
    let (w1, e) = tick_lem c w in
    let (wn, en) = ticks_on-since_midnight n (timer_handler c) w1 in (wn, omega (arith, e, en))
