-- ===== src/Windows/Listener/Tests.antt =====
-- The requests of kernel/window_sys.c to its listener: one that it has seen, and too many.
use osdev_graphical.Base.{◌≡◌, ◌≢◌, refl, arith, true, [], ◌∷◌, if◌then◌else◌, ltb}
use osdev_graphical.Windows.Listener.{
  WinsysOp, set_lock, store, advance_end, count, holding, stored, advanced, counted, stands,
  waiting, awake, to_lock, inside, System, Step, enter, put_slot, move_end, add, wake, test, Reach,
  here, next, start_system,
}
use osdev_graphical.Windows.Listener.Invariant.{IsOrdered}
use osdev_graphical.Windows.Listener.Fifo.{AllCalm, Reach-IsOrdered}
use osdev_graphical.Windows.Listener.Deadlock.{Reach-stuck}

abbrev a_request : WinsysOp
a_request = record { op = 3; wid = 2; x = 10; y = 10; w = 0; h = 0 }

abbrev start : System
start = start_system (λ j. a_request)

abbrev entered : System
entered = record start {
  ring = set_lock true start.ring;
  senders = stands start.senders 0 (holding a_request);
}

abbrev in_slot : System
in_slot = record entered {
  ring = store a_request entered.ring;
  senders = stands entered.senders 0 (stored a_request);
}

abbrev end_moved : System
end_moved = record in_slot {
  ring = advance_end in_slot.ring;
  senders = stands in_slot.senders 0 (advanced a_request);
}

abbrev added : System
added = record end_moved {
  ring = count end_moved.ring;
  senders = stands end_moved.senders 0 counted;
  sent = a_request ∷ [];
}

abbrev woken : System
woken = record added { phase = awake }

abbrev tested : System
tested = record woken { phase = if ltb woken.ring.index 20 then to_lock else inside }

-- One request up to its count, and the listener's test.
tested-Reach : Reach start tested
unfolding count advance_end store set_lock
tested-Reach =
    next
      (next
        (next
          (next
            (next (next here (enter start 0 a_request refl refl))
              (put_slot entered 0 a_request refl))
            (move_end in_slot 0 a_request refl))
          (add end_moved 0 a_request refl))
        (wake added refl (λ e. omega arith)))
      (test woken refl)

tested-AllCalm : AllCalm tested-Reach
unfolding AllCalm tested-Reach count advance_end store set_lock
tested-AllCalm = (
  ((
    (
      (
        ((omega arith, λ p. absurd (waiting-awake p)), λ p. absurd (waiting-awake p)),
        λ p. absurd (waiting-awake p),
      ),
      λ p. absurd (waiting-awake p),
    ),
    λ p. absurd (waiting-awake p),
  )),
  λ p q e. omega (arith, e),
)
  where
    waiting-awake : waiting ≢ awake
    waiting-awake e = cc

Reach-IsOrdered_example : IsOrdered tested
Reach-IsOrdered_example = Reach-IsOrdered (λ j. a_request) tested-Reach tested-AllCalm

Reach-stuck_example :
    (t : System) × Reach start t × (t.ring.index ≡ 20) × ((u : System) → ¬ Step t u)
Reach-stuck_example = Reach-stuck (λ j. a_request) a_request
