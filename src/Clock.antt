-- ===== src/Clock.antt =====
-- drivers/timer.c and drivers/cmos.c: the clock that the timer's interrupt advances, and the time that
-- it starts from. The time's picture in its window is output and is left out. `cmos_read_register` is
-- an argument, the registers' bytes at one moment.
pub mod Time
pub mod Bcd
mod Tests
use osdev_graphical.Base.{
  ℕ, ◌+◌, ◌-◌, ◌*◌, ◌/◌, ◌%◌, ◌^◌, bit_and, Bool, true, false, not, List, [], ◌∷◌, if◌then◌else◌,
  ◌==◌, ltb,
}

-- `timer_ticks`, `second_ticks`, `current_sec`, `current_min`, `current_hour`, of 32 bits each.
pub record Clock : Type 0 where
  pub timer_ticks : ℕ
  pub second_ticks : ℕ
  pub current_sec : ℕ
  pub current_min : ℕ
  pub current_hour : ℕ

abbrev pub phase : ℕ
phase = 100

abbrev pub inc32 : ℕ → ℕ
inc32 n = (n + 1) % 2 ^ 32

-- The ports' writes of `timer_phase`, in order.
pub timer_phase : ℕ → List (ℕ × ℕ)
timer_phase hz =
    let divisor = 1193180 / hz in
    (0x43, 0x36) ∷ (0x40, divisor % 256) ∷ (0x40, divisor / 256 % 256) ∷ []

-- A second more.
pub next_second : Clock → Clock
next_second c =
    let c1 = record c { second_ticks = 0; current_sec = inc32 c.current_sec } in
    let c2 = record c1 { current_sec = 0; current_min = inc32 c1.current_min } in
    let c3 = record c2 { current_min = 0; current_hour = inc32 c2.current_hour % 24 } in
    if c1.current_sec == 60 then (if c2.current_min == 60 then c3 else c2) else c1

pub update_time : Clock → Clock
update_time c = if c.second_ticks % phase == 0 then next_second c else c

pub timer_handler : Clock → Clock
timer_handler c =
    update_time
      (record c { timer_ticks = inc32 c.timer_ticks; second_ticks = inc32 c.second_ticks })

pub set_time : ℕ → ℕ → Clock → Clock
set_time hour minute c = record c {
  current_hour = hour % 24;
  current_min = minute % 60;
  current_sec = 0;
  second_ticks = 0;
}

-- The condition of the loop of `timer_wait`, after `timer_ticks = 0`.
pub timer_waits : ℕ → Clock → Bool
timer_waits seconds c = ltb c.timer_ticks (seconds * phase)

-- That of `wait_milliseconds`.
pub milliseconds_wait : ℕ → Clock → Bool
milliseconds_wait milliseconds c = ltb (c.timer_ticks * (1000 / phase)) milliseconds

-- The registers' numbers.
abbrev pub reg_seconds : ℕ
reg_seconds = 0

abbrev pub reg_minutes : ℕ
reg_minutes = 2

abbrev pub reg_hours : ℕ
reg_hours = 4

abbrev pub reg_stat_b : ℕ
reg_stat_b = 0x0B

-- Whether the clock counts 24 hours.
pub is_24_hour : (ℕ → ℕ) → Bool
is_24_hour register = not (bit_and (register reg_stat_b) 2 == 0)

-- Whether its numbers are binary.
pub is_binary : (ℕ → ℕ) → Bool
is_binary register = not (bit_and (register reg_stat_b) 4 == 0)

-- The value that is returned for the byte of a decimal number, as a byte.
pub bcd_value : ℕ → ℕ
bcd_value bcd = (bit_and bcd 0xF0 / 2 + bit_and bcd 0xF0 / 8 + bit_and bcd 0xF) % 256

pub rtc_get_seconds : (ℕ → ℕ) → ℕ
rtc_get_seconds register =
    if is_binary register then register reg_seconds else bcd_value (register reg_seconds)

pub rtc_get_minutes : (ℕ → ℕ) → ℕ
rtc_get_minutes register =
    if is_binary register then register reg_minutes else bcd_value (register reg_minutes)

pub rtc_get_hour : (ℕ → ℕ) → ℕ
rtc_get_hour register =
    let read = register reg_hours in
    let hour = if is_24_hour register then read else bit_and read 0x7F in
    if is_binary register then hour else bcd_value hour

-- The clock of `timer_install`.
pub timer_install : (ℕ → ℕ) → Clock
timer_install register = record {
  timer_ticks = 0;
  second_ticks = 0;
  current_sec = rtc_get_seconds register;
  current_min = rtc_get_minutes register;
  current_hour = rtc_get_hour register;
}
