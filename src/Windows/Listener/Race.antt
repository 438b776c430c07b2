-- ===== src/Windows/Listener/Race.antt =====
-- The listener's test of a full ring between a sender's count and its own test.
use osdev_graphical.Base.{
  ℕ, ◌≡◌, refl, arith, ◌∙◌, ap, true, false, [], ◌∷◌, ◌++◌, if◌then◌else◌, ltb,
}
use osdev_graphical.Windows.Listener.{
  WinsysOp, set_lock, store, advance_end, count, take, advance_start, uncount, idle, holding,
  stored, advanced, counted, Sender, leaving, stands, waiting, awake, to_lock, inside, taken, moved,
  lowered, System, enter, put_slot, move_end, add, check, leave, wake, test, get_slot, move_start,
  subtract, release, Reach, next, start_system,
}
use osdev_graphical.Windows.Listener.Deadlock.{filled, upto_counted}

-- The listener serves a request without the lock and gives the lock back.
unlocked :
    (z t : System)
    → Reach z t
    → t.phase ≡ waiting
    → t.ring.index ≡ 20
    → (u : System) × Reach z u
      × (u.senders ≡ t.senders)
      × (u.ring.index ≡ 19)
      × (u.ring.locked ≡ false)
unfolding set_lock take advance_start uncount
unlocked z t r p n =
    let s1 : System = record t { phase = awake } in
    let s2 : System = record s1 { phase = if ltb s1.ring.index 20 then to_lock else inside } in
    let s3 : System = record s2 { phase = taken (take s2.ring) } in
    let s4 : System = record s3 { phase = moved (take s2.ring); ring = advance_start s3.ring } in
    let s5 : System = record s4 {
      phase = lowered;
      ring = uncount s4.ring;
      received = s4.received ++ (take s2.ring ∷ []);
    } in
    let full : (if ltb t.ring.index 20 then to_lock else inside) ≡ inside = rw n refl in
    (
      record s5 { phase = waiting; ring = set_lock false s5.ring },
      next
          (next
            (next
              (next (next (next r (wake t p (λ e. omega (arith, n, e)))) (test s1 refl))
                (get_slot s2 full))
              (move_start s3 (take s2.ring) refl))
            (subtract s4 (take s2.ring) refl))
          (release s5 refl),
      refl,
      omega (arith, n),
      refl,
    )

-- Two senders take the lock, the second of them after the one behind its count has given it back, and
-- both go through.
both :
    (z u : System) (v : WinsysOp)
    → Reach z u
    → u.senders 0 ≡ counted
    → u.senders 1 ≡ idle
    → u.senders 2 ≡ idle
    → u.ring.index ≡ 19
    → u.ring.locked ≡ false
    → (t : System) × Reach z t × (t.ring.index ≡ 21)
unfolding set_lock store advance_end count
both z u v r h0 h1 h2 n l =
    let s1 : System = record u {
      ring = set_lock true u.ring;
      senders = stands u.senders 1 (holding v);
    } in
    let s2 : System = record s1 {
      senders = stands s1.senders 0 (if ltb s1.ring.index 20 then leaving else idle);
    } in
    let s3 : System = record s2 {
      ring = set_lock false s2.ring;
      senders = stands s2.senders 0 idle;
    } in
    let s4 : System = record s3 {
      ring = set_lock true s3.ring;
      senders = stands s3.senders 2 (holding v);
    } in
    let s5 : System = record s4 {
      ring = store v s4.ring;
      senders = stands s4.senders 1 (stored v);
    } in
    let s6 : System = record s5 {
      ring = store v s5.ring;
      senders = stands s5.senders 2 (stored v);
    } in
    let s7 : System = record s6 {
      ring = advance_end s6.ring;
      senders = stands s6.senders 1 (advanced v);
    } in
    let s8 : System = record s7 {
      ring = advance_end s7.ring;
      senders = stands s7.senders 2 (advanced v);
    } in
    let s9 : System = record s8 {
      ring = count s8.ring;
      senders = stands s8.senders 1 counted;
      sent = s8.sent ++ (v ∷ []);
    } in
    let room : (if ltb u.ring.index 20 then leaving else idle) ≡ leaving = rw n refl in
    let first =
      next (next (next (next r (enter u 1 v h1 l)) (check s1 0 h0)) (leave s2 0 room))
        (enter s3 2 v h2 refl) in
    let second =
      next
        (next (next (next first (put_slot s4 1 v refl)) (put_slot s5 2 v refl))
          (move_end s6 1 v refl))
        (move_end s7 2 v refl) in
    (
      record s9 {
        ring = count s9.ring;
        senders = stands s9.senders 2 counted;
        sent = s9.sent ++ (v ∷ []);
      },
      next (next second (add s8 1 v refl)) (add s9 2 v refl),
      omega (arith, n),
    )

-- From the initial state the statements can interleave so that the ring counts 21 requests: when the
-- listener tests the full ring between the count of the twentieth request and the test behind it, two
-- more senders come under the lock together.
Reach-overfull :
    (ops : ℕ → WinsysOp) (v : WinsysOp)
    → (t : System) × Reach (start_system ops) t × (t.ring.index ≡ 21)
Reach-overfull ops v =
    let z = start_system ops in
    let (s, r, q) = filled ops v 19 (omega arith) in
    let (t, rt, at, others, index, locked, phase) =
      upto_counted z s v 19 waiting r q (omega arith) in
    let (u, ru, same, n, free) = unlocked z t rt phase index in
    let at_most : (i : ℕ) → u.senders i ≡ t.senders i = λ i. ap (λ (f : ℕ → Sender). f i) same in
    both z u v ru (at_most 0 ∙ at) (at_most 1 ∙ others 1 (λ e. omega (arith, e)))
      (at_most 2 ∙ others 2 (λ e. omega (arith, e))) n free
