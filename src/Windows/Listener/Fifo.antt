-- ===== src/Windows/Listener/Fifo.antt =====
-- The requests reach the listener in order, and the ring never holds more than it has room for, unless
-- the listener finds the ring full while a sender is between its count and its test of it.
use osdev_graphical.Base.{ℕ, ◌≤◌, ◌≡◌, ◌≢◌, refl, arith, Bool-cases, inl, inr, if◌then◌else◌, ltb}
use osdev_graphical.Windows.Listener.{
  WinsysOp, counted, awake, to_lock, inside, System, Step, enter, put_slot, move_end, add, check,
  leave, wake, test, lock, get_slot, move_start, subtract, release, Reach, here, next, start_system,
}
use osdev_graphical.Windows.Listener.Invariant.{IsOrdered, nobody}
use osdev_graphical.Windows.Listener.Sending.{
  enter-IsOrdered, store-IsOrdered, advance_end-IsOrdered, count-IsOrdered, check-IsOrdered,
  leave-IsOrdered,
}
use osdev_graphical.Windows.Listener.Receiving.{
  wake-IsOrdered, test-IsOrdered, lock-IsOrdered, take-IsOrdered, advance_start-IsOrdered,
  uncount-IsOrdered, release-IsOrdered,
}

-- When a step is the listener's test of a full ring, no sender is between its count and its own test.
abbrev pub IsCalm : System → System → Type 0
IsCalm s t = s.phase ≡ awake → t.phase ≢ awake → s.ring.index ≡ 20 → (i : ℕ) → s.senders i ≢ counted

unfoldable pub AllCalm : {s t : System} → Reach s t → Type 0
AllCalm here = 0 ≤ 0
AllCalm (next {t} {u} r st) = AllCalm r × IsCalm t u

to_lock-awake : to_lock ≢ awake
to_lock-awake e = cc

inside-awake : inside ≢ awake
inside-awake e = cc

tested : (n : ℕ) → (if ltb n 20 then to_lock else inside) ≢ awake
tested n = elim (Bool-cases (ltb n 20)) [ inl t ↦ rw t to_lock-awake | inr f ↦ rw f inside-awake ]

Step-IsOrdered : {s t : System} → Step s t → IsCalm s t → IsOrdered s → IsOrdered t
Step-IsOrdered (enter s i v h l) calm w = enter-IsOrdered s i v l w
Step-IsOrdered (put_slot s i v h) calm w = store-IsOrdered s i v h w
Step-IsOrdered (move_end s i v h) calm w = advance_end-IsOrdered s i v h w
Step-IsOrdered (add s i v h) calm w = count-IsOrdered s i v h w
Step-IsOrdered (check s i h) calm w = check-IsOrdered s i h w
Step-IsOrdered (leave s i h) calm w = leave-IsOrdered s i h w
Step-IsOrdered (wake s h ne) calm w = wake-IsOrdered s h ne w
Step-IsOrdered (test s h) calm w = test-IsOrdered s h (calm h (tested s.ring.index)) w
Step-IsOrdered (lock s h l) calm w = lock-IsOrdered s h l w
Step-IsOrdered (get_slot s h) calm w = take-IsOrdered s h w
Step-IsOrdered (move_start s v h) calm w = advance_start-IsOrdered s v h w
Step-IsOrdered (subtract s v h) calm w = uncount-IsOrdered s v h w
Step-IsOrdered (release s h) calm w = release-IsOrdered s h w

-- However the statements of any number of senders and of the listener interleave from the initial state,
-- as long as the listener never tests a full ring while a sender is between its count and its own
-- test: the requests that were counted are those that the listener took off followed by those that lie
-- in the ring, in order; the ring holds at most 20; and the lock is held exactly while one sender or the
-- listener is at work under it, all others being outside, or while the ring is full.
pub Reach-IsOrdered :
    (ops : ℕ → WinsysOp) {t : System} (r : Reach (start_system ops) t) → AllCalm r → IsOrdered t
unfolding AllCalm
Reach-IsOrdered ops here calm = record {
  start = omega arith;
  bounded = omega arith;
  fifo = refl;
  owner = nobody refl (λ i. refl) (omega arith) refl;
}
Reach-IsOrdered ops (next r st) calm = Step-IsOrdered st calm.1 (Reach-IsOrdered ops r calm.0)
