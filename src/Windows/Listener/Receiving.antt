-- ===== src/Windows/Listener/Receiving.antt =====
-- The statements of the listener keep the invariant.
use mathlib.Core.Path.{subst}
use mathlib.Core.List.{append_assoc}
use osdev_graphical.Base.{
  ℕ, suc, ◌+◌, ◌-◌, ◌%◌, ◌≤◌, ◌<◌, ◌≡◌, ◌≢◌, refl, arith, ◌∙◌, sym, ap, Bool-cases, inl, inr, true,
  false, List, [], ◌∷◌, ◌++◌, if◌then◌else◌, ◌==◌, ltb,
}
use osdev_graphical.Windows.Listener.{
  WinsysOp, Ring, set_lock, take, advance_start, uncount, Sender, idle, holding, stored, advanced,
  counted, leaving, Phase, waiting, awake, to_lock, inside, taken, moved, lowered, System,
}
use osdev_graphical.Windows.Listener.Contents.{contents, contents-head}
use osdev_graphical.Windows.Listener.Invariant.{
  oldest, IsOutside, SenderFits, ListenerFits, Owner, nobody, sender, listener, IsOrdered, listens,
}
use osdev_graphical.Windows.Listener.Outside.{free}

-- The requests do not depend on a phase whose oldest request is at the start.
at_start :
    (s : System) (p : Phase)
    → s.phase ≡ p
    → oldest p s.ring ≡ s.ring.start
    → IsOrdered s
    → s.sent ≡ s.received ++ contents s.ring.ops s.ring.start s.ring.index
at_start s p h e w =
    w.fifo
    ∙ ap (λ (k : ℕ). s.received ++ contents s.ring.ops k s.ring.index)
        (ap (λ (q : Phase). oldest q s.ring) h ∙ e)

pub wake-IsOrdered :
    (s : System)
    → s.phase ≡ waiting
    → s.ring.index ≢ 0
    → IsOrdered s
    → IsOrdered (record s { phase = awake })
wake-IsOrdered s h ne w = record {
  start = w.start;
  bounded = w.bounded;
  fifo = at_start s waiting h refl w;
  owner = go w.owner;
}
  where
    go : Owner s → Owner (record s { phase = awake })
    go (nobody l all o e) = nobody l all (omega arith) e
    go (sender i l others o f) = sender i l others (omega arith) f
    go (listener l all f) =
        let none : s.ring.index < 0 = subst (λ q. ListenerFits q s.ring) h f in absurd (omega arith)

-- A sender that is under the lock of a full ring is behind the new index.
full-counted : (x : Sender) (r : Ring) → SenderFits x r → r.index ≡ 20 → x ≢ counted → 1 ≤ 0
full-counted idle r f h n = absurd (omega (arith, f))
full-counted (holding v) r f h n = absurd (omega (arith, f.0))
full-counted (stored v) r f h n = absurd (omega (arith, f.0))
full-counted (advanced v) r f h n = absurd (omega (arith, f.0))
full-counted counted r f h n = absurd (n refl)
full-counted leaving r f h n = absurd (omega (arith, f.0))

pub test-IsOrdered :
    (s : System)
    → s.phase ≡ awake
    → (s.ring.index ≡ 20 → (i : ℕ) → s.senders i ≢ counted)
    → IsOrdered s
    → IsOrdered (record s { phase = if ltb s.ring.index 20 then to_lock else inside })
test-IsOrdered s h calm w = elim (Bool-cases (ltb s.ring.index 20)) [
  | inl t ↦ rw t (record {
    start = w.start;
    bounded = w.bounded;
    fifo = at_start s awake h refl w;
    owner = below w.owner;
  })
  | inr f ↦ rw f (record {
    start = w.start;
    bounded = w.bounded;
    fifo = at_start s awake h refl w;
    owner = full (ground (arith, f, w.bounded)) w.owner;
  })
]
  where
    below : Owner s → Owner (record s { phase = to_lock })
    below (nobody l all o e) =
        let some : 1 ≤ s.ring.index = subst (λ q. IsOutside q s.ring.index) h o in
        nobody l all some e
    below (sender i l others o f) =
        let some : 1 ≤ s.ring.index = subst (λ q. IsOutside q s.ring.index) h o in
        sender i l others some f
    below (listener l all f) =
        let none : s.ring.index < 0 = subst (λ q. ListenerFits q s.ring) h f in absurd (omega arith)

    full : s.ring.index ≡ 20 → Owner s → Owner (record s { phase = inside })
    full n (nobody l all o e) =
        let held : (s.ring.index == 20) ≡ true = ground arith in
        listener (l ∙ held) all (omega arith, e)
    full n (sender i l others o f) =
        let never = full-counted (s.senders i) s.ring f n (calm n i) in absurd (omega arith)
    full n (listener l all f) =
        let none : s.ring.index < 0 = subst (λ q. ListenerFits q s.ring) h f in absurd (omega arith)

pub lock-IsOrdered :
    (s : System)
    → s.phase ≡ to_lock
    → s.ring.locked ≡ false
    → IsOrdered s
    → IsOrdered (record s { phase = inside; ring = set_lock true s.ring })
unfolding set_lock
lock-IsOrdered s h l w =
    let f = free s w l in
    let some : 1 ≤ s.ring.index = subst (λ q. IsOutside q s.ring.index) h f.outside in
    record {
      start = w.start;
      bounded = w.bounded;
      fifo = at_start s to_lock h refl w;
      owner = listener refl f.all (some, f.end);
    }

never : (n : ℕ) → ¬ (n < 0)
never n h = omega arith

pub take-IsOrdered :
    (s : System)
    → s.phase ≡ inside
    → IsOrdered s
    → IsOrdered (record s { phase = taken (take s.ring) })
unfolding take
take-IsOrdered s h w =
    let (l, all, f) = listens s inside w.owner h never in
    record {
      start = w.start;
      bounded = w.bounded;
      fifo = at_start s inside h refl w;
      owner = listener l all (f.0, f.1, refl);
    }

pub advance_start-IsOrdered :
    (s : System) (v : WinsysOp)
    → s.phase ≡ taken v
    → IsOrdered s
    → IsOrdered (record s { phase = moved v; ring = advance_start s.ring })
unfolding advance_start
advance_start-IsOrdered s v h w =
    let (l, all, f) = listens s (taken v) w.owner h never in
    let r = s.ring in
    let back : r.start ≡ ((r.start + 1) % 20 + 19) % 20 = omega (arith, w.start) in
    record {
      start = omega arith;
      bounded = w.bounded;
      fifo =
          at_start s (taken v) h refl w
          ∙ ap (λ (k : ℕ). s.received ++ contents r.ops k r.index) back;
      owner = listener l all (f.0, omega (arith, f.1), f.2 ∙ ap r.ops back);
    }

pub uncount-IsOrdered :
    (s : System) (v : WinsysOp)
    → s.phase ≡ moved v
    → IsOrdered s
    → IsOrdered
        (record s { phase = lowered; ring = uncount s.ring; received = s.received ++ (v ∷ []) })
unfolding uncount
uncount-IsOrdered s v h w =
    let (l, all, f) = listens s (moved v) w.owner h never in
    let r = s.ring in
    let some_left : r.index ≡ suc (r.index - 1) = omega (arith, f.0) in
    let old : ℕ = (r.start + 19) % 20 in
    let low : old < 20 = omega arith in
    let next : (old + 1) % 20 ≡ r.start = omega (arith, w.start) in
    record {
      start = w.start;
      bounded = omega (arith, w.bounded);
      fifo =
          w.fifo
          ∙ ap (λ (q : Phase). s.received ++ contents r.ops (oldest q r) r.index) h
          ∙ ap (λ (k : ℕ). s.received ++ contents r.ops old k) some_left
          ∙ ap (λ (q : List WinsysOp). s.received ++ q) (contents-head r.ops old (r.index - 1) low)
          ∙ ap (λ (x : WinsysOp). s.received ++ (x ∷ contents r.ops ((old + 1) % 20) (r.index - 1)))
              (sym f.2)
          ∙ ap (λ (k : ℕ). s.received ++ (v ∷ contents r.ops k (r.index - 1))) next
          ∙ sym (append_assoc s.received (v ∷ []) (contents r.ops r.start (r.index - 1)));
      owner = listener l all (omega (arith, w.bounded, f.0), omega (arith, f.0, f.1));
    }

pub release-IsOrdered :
    (s : System)
    → s.phase ≡ lowered
    → IsOrdered s
    → IsOrdered (record s { phase = waiting; ring = set_lock false s.ring })
unfolding set_lock
release-IsOrdered s h w =
    let (l, all, f) = listens s lowered w.owner h never in
    let room : (s.ring.index == 20) ≡ false = ground (arith, f.0) in
    record {
      start = w.start;
      bounded = w.bounded;
      fifo = at_start s lowered h refl w;
      owner = nobody (sym room) all (omega arith) f.1;
    }
