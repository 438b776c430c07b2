-- ===== src/Windows/Listener/Deadlock.antt =====
-- A request that comes between the listener's test of the index and its lock.
use osdev_graphical.Base.{
  ℕ, zero, suc, ◌+◌, ◌≤◌, ◌<◌, ◌≡◌, ◌≢◌, refl, arith, ◌∙◌, sym, ap, Bool-cases, inl, inr, true,
  false, [], ◌∷◌, ◌++◌, if◌then◌else◌, ◌==◌, ltb,
}
use osdev_graphical.Windows.Listener.{
  WinsysOp, set_lock, store, advance_end, count, Sender, idle, holding, stored, advanced, counted,
  leaving, stands, Phase, waiting, awake, to_lock, inside, System, Step, enter, put_slot, move_end,
  add, check, leave, wake, test, lock, get_slot, move_start, subtract, release, Reach, here, next,
  start_system,
}
use osdev_graphical.Windows.Listener.Invariant.{stands_self, stands-idle}

-- The system with no sender under the lock, `n` requests in the ring and the listener at `p`.
pub record Quiet (p : Phase) (n : ℕ) (s : System) : Type 0 where
  all : (i : ℕ) → s.senders i ≡ idle
  index : s.ring.index ≡ n
  locked : s.ring.locked ≡ (n == 20)
  phase : s.phase ≡ p

-- Under the lock, to the new index.
pub upto_counted :
    (z s : System) (v : WinsysOp) (n : ℕ) (p : Phase)
    → Reach z s
    → Quiet p n s
    → n < 20
    → (t : System) × Reach z t
      × (t.senders 0 ≡ counted)
      × ((j : ℕ) → j ≢ 0 → t.senders j ≡ idle)
      × (t.ring.index ≡ n + 1)
      × (t.ring.locked ≡ true)
      × (t.phase ≡ p)
unfolding set_lock store advance_end count
upto_counted z s v n p r q l =
    let s1 : System = record s {
      ring = set_lock true s.ring;
      senders = stands s.senders 0 (holding v);
    } in
    let s2 : System = record s1 {
      ring = store v s1.ring;
      senders = stands s1.senders 0 (stored v);
    } in
    let s3 : System = record s2 {
      ring = advance_end s2.ring;
      senders = stands s2.senders 0 (advanced v);
    } in
    let s4 : System = record s3 {
      ring = count s3.ring;
      senders = stands s3.senders 0 counted;
      sent = s3.sent ++ (v ∷ []);
    } in
    let room : (n == 20) ≡ false = ground arith in
    (
      s4,
      next
          (next
            (next (next r (enter s 0 v (q.all 0) (q.locked ∙ room)))
              (put_slot s1 0 v (stands_self s.senders 0 (holding v))))
            (move_end s2 0 v (stands_self s1.senders 0 (stored v))))
          (add s3 0 v (stands_self s2.senders 0 (advanced v))),
      stands_self s3.senders 0 counted,
      λ j ne. (let e : (j == 0) ≡ false = ground arith in rw e (q.all j)),
      ap (λ (k : ℕ). k + 1) q.index,
      refl,
      q.phase,
    )

-- A request from its call to its return.
request :
    (z s : System) (v : WinsysOp) (n : ℕ) (p : Phase)
    → Reach z s
    → Quiet p n s
    → n < 20
    → (t : System) × Reach z t × Quiet p (n + 1) t
unfolding set_lock
request z s v n p r q l =
    let (t, rt, at, others, index, locked, phase) = upto_counted z s v n p r q l in
    elim (Bool-cases (ltb (n + 1) 20)) [
      | inl room ↦
          let goes : (if ltb t.ring.index 20 then leaving else idle) ≡ leaving =
            rw (index, room) refl in
          let left : System = record t {
            senders = stands t.senders 0 (if ltb t.ring.index 20 then leaving else idle);
          } in
          let here0 : left.senders 0 ≡ leaving =
            stands_self t.senders 0 (if ltb t.ring.index 20 then leaving else idle) ∙ goes in
          let more : (n + 1 == 20) ≡ false = ground arith in
          (
            record left { ring = set_lock false left.ring; senders = stands left.senders 0 idle },
            next (next rt (check t 0 at)) (leave left 0 here0),
            record {
              all =
                  stands-idle left.senders 0
                    (λ j ne. let e : (j == 0) ≡ false = ground arith in rw e (others j ne));
              index = index;
              locked = sym more;
              phase = phase;
            },
          )
      | inr full ↦
          let stays : idle ≡ (if ltb t.ring.index 20 then leaving else idle) =
            rw (index, full) refl in
          let last : (n + 1 == 20) ≡ true = ground arith in
          (
            record t {
              senders = stands t.senders 0 (if ltb t.ring.index 20 then leaving else idle);
            },
            next rt (check t 0 at),
            record {
              all = λ j.
                  ap (λ (x : Sender). stands t.senders 0 x j) (sym stays)
                  ∙ stands-idle t.senders 0 others j;
              index = index;
              locked = locked ∙ sym last;
              phase = phase;
            },
          )
    ]

-- The initial system after `n` requests.
pub filled :
    (ops : ℕ → WinsysOp) (v : WinsysOp) (n : ℕ)
    → n ≤ 20
    → (t : System) × Reach (start_system ops) t × Quiet waiting n t
filled ops v zero h =
    (start_system ops, here, record { all = λ i. refl; index = refl; locked = refl; phase = refl })
filled ops v (suc n) h =
    let (t, r, q) = filled ops v n (omega arith) in
    let one : n + 1 ≡ suc n = omega arith in
    let (u, r', q') = request (start_system ops) t v n waiting r q (omega arith) in
    (
      u,
      r',
      record {
        all = q'.all;
        index = q'.index ∙ one;
        locked = q'.locked ∙ ap (λ (k : ℕ). k == 20) one;
        phase = q'.phase;
      },
    )

true-false : true ≢ false
true-false e = cc

-- With the ring full and locked and the listener about to lock it, no step is possible.
stuck : {t u : System} → Step t u → ¬ Quiet to_lock 20 t
stuck (enter s i v h l) q = true-false (sym q.locked ∙ l)
stuck (put_slot s i v h) q = cc (q.all i, h)
stuck (move_end s i v h) q = cc (q.all i, h)
stuck (add s i v h) q = cc (q.all i, h)
stuck (check s i h) q = cc (q.all i, h)
stuck (leave s i h) q = cc (q.all i, h)
stuck (wake s h ne) q = cc (q.phase, h)
stuck (test s h) q = cc (q.phase, h)
stuck (lock s h l) q = true-false (sym q.locked ∙ l)
stuck (get_slot s h) q = cc (q.phase, h)
stuck (move_start s v h) q = cc (q.phase, h)
stuck (subtract s v h) q = cc (q.phase, h)
stuck (release s h) q = cc (q.phase, h)

-- From the initial state the processes can come, by nineteen requests, the listener's test and a
-- twentieth request, to a state in which neither the listener nor any request can take a step: the
-- ring is full and locked, and all wait for the lock.
pub Reach-stuck :
    (ops : ℕ → WinsysOp) (v : WinsysOp)
    → (t : System) × Reach (start_system ops) t × (t.ring.index ≡ 20) × ((u : System) → ¬ Step t u)
Reach-stuck ops v =
    let (s, r, q) = filled ops v 19 (omega arith) in
    let woken : System = record s { phase = awake } in
    let tested : System = record woken {
      phase = if ltb woken.ring.index 20 then to_lock else inside;
    } in
    let room : (if ltb s.ring.index 20 then to_lock else inside) ≡ to_lock = rw (q.index) refl in
    let rt = next (next r (wake s q.phase (λ e. omega (arith, q.index, e)))) (test woken refl) in
    let (t, r', q') =
      request (start_system ops) tested v 19 to_lock rt
        (record { all = q.all; index = q.index; locked = q.locked; phase = room }) (omega arith) in
    (t, r', q'.index, λ u st. stuck st q')
