-- ===== src/Scheduler/Tick.antt =====
-- The timer's tick wakes a sleeping thread at its time and not before.
use osdev_graphical.Base.{ℕ, zero, suc, ◌+◌, ◌-◌, ◌≡◌, refl, arith, ◌∙◌, ◌==◌, ltb, ap, true, false}
use osdev_graphical.Scheduler.{Thread, thread_remove_state, thread_block_sleep, tick_thread}

-- The thread after `n` ticks.
abbrev pub ticks : ℕ → Thread → Thread
ticks zero t = t
ticks (suc n) t = ticks n (tick_thread t)

asleep :
    (t : Thread) (d : ℕ)
    → t.sleep_time_delta ≡ suc (suc d)
    → tick_thread t ≡ record t { sleep_time_delta = suc d }
unfolding tick_thread
asleep t d h =
    let on : ltb 0 t.sleep_time_delta ≡ true = ground arith in
    let more : (t.sleep_time_delta - 1 == 0) ≡ false = ground arith in
    let down : t.sleep_time_delta - 1 ≡ suc d = omega arith in rw (on, more, down) refl

wakes :
    (t : Thread)
    → t.sleep_time_delta ≡ 1
    → tick_thread t ≡ record (thread_remove_state t thread_block_sleep) { sleep_time_delta = 0 }
unfolding tick_thread thread_remove_state
wakes t h =
    let on : ltb 0 t.sleep_time_delta ≡ true = ground arith in
    let last : (t.sleep_time_delta - 1 == 0) ≡ true = ground arith in rw (on, last) refl

slept :
    (t : Thread) (n d : ℕ)
    → t.sleep_time_delta ≡ n + suc d
    → ticks n t ≡ record t { sleep_time_delta = suc d }
slept t zero d h =
    ap (λ (x : ℕ). record t { sleep_time_delta = x })
      (let e : t.sleep_time_delta ≡ suc d = omega arith in e)
slept t (suc n) d h =
    ap (ticks n) (asleep t (n + d) (omega arith))
    ∙ slept (record t { sleep_time_delta = suc (n + d) }) n d (omega arith)

woken :
    (t : Thread) (n : ℕ)
    → t.sleep_time_delta ≡ suc n
    → ticks (suc n) t ≡ record (thread_remove_state t thread_block_sleep) { sleep_time_delta = 0 }
unfolding thread_remove_state
woken t zero h = wakes t h
woken t (suc n) h =
    ap (λ (u : Thread). ticks n (tick_thread u)) (asleep t n h)
    ∙ woken (record t { sleep_time_delta = suc n }) n refl

-- A thread with `sleepTimeDelta` equal to `n + d + 1` is, after `n` ticks, the same but for its
-- `sleepTimeDelta`, which is `d + 1`; and after `n + d + 1` ticks the sleep flag is out of its state
-- and its `sleepTimeDelta` is 0, with nothing else changed.
pub ticks-wake :
    (t : Thread) (n d : ℕ)
    → t.sleep_time_delta ≡ n + suc d
    → (ticks n t ≡ record t { sleep_time_delta = suc d })
      × (ticks (suc (n + d)) t
          ≡ record (thread_remove_state t thread_block_sleep) { sleep_time_delta = 0 })
ticks-wake t n d h = (slept t n d h, woken t (n + d) (omega arith))
