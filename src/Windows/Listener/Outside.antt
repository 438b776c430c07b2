-- ===== src/Windows/Listener/Outside.antt =====
-- The requests and the lock while the listener is outside.
use osdev_graphical.Base.{ℕ, ◌+◌, ◌%◌, ◌<◌, ◌≡◌, ◌≢◌, arith, ◌∙◌, sym, ap, true, false, ◌++◌}
use osdev_graphical.Windows.Listener.{idle, System}
use osdev_graphical.Windows.Listener.Contents.{contents}
use osdev_graphical.Windows.Listener.Invariant.{
  oldest, IsOutside, Owner, nobody, sender, listener, IsOrdered, oldest-start,
}

pub to_start :
    (s : System)
    → IsOrdered s
    → IsOutside s.phase s.ring.index
    → s.sent ≡ s.received ++ contents s.ring.ops s.ring.start s.ring.index
to_start s w o =
    w.fifo
    ∙ ap (λ (k : ℕ). s.received ++ contents s.ring.ops k s.ring.index)
        (oldest-start s.phase s.ring.index s.ring o)

pub from_start :
    (s : System)
    → IsOutside s.phase s.ring.index
    → s.sent ≡ s.received ++ contents s.ring.ops s.ring.start s.ring.index
    → s.sent ≡ s.received ++ contents s.ring.ops (oldest s.phase s.ring) s.ring.index
from_start s o e =
    e
    ∙ ap (λ (k : ℕ). s.received ++ contents s.ring.ops k s.ring.index)
        (sym (oldest-start s.phase s.ring.index s.ring o))

-- The lock is free only while nobody holds it and the ring has room.
pub record Free (s : System) : Type 0 where
  pub room : s.ring.index < 20
  pub all : (i : ℕ) → s.senders i ≡ idle
  pub outside : IsOutside s.phase s.ring.index
  pub end : s.ring.end ≡ (s.ring.start + s.ring.index) % 20

false-true : false ≢ true
false-true e = cc

pub free : (s : System) → IsOrdered s → s.ring.locked ≡ false → Free s
free s w h = go w.owner
  where
    go : Owner s → Free s
    go (nobody l all o e) = record {
      room = ground (arith, l, h, w.bounded);
      all = all;
      outside = o;
      end = e;
    }
    go (sender i l others o f) = absurd (false-true (sym h ∙ l))
    go (listener l all f) = absurd (false-true (sym h ∙ l))
