-- ===== src/Scheduler/Dispatch/Returns.antt =====
-- `scheduler_dispatch` returns when some thread can run, and only then.
use osdev_graphical.Base.{
  ℕ, zero, suc, ◌+◌, ◌^◌, ◌≤◌, ◌≡◌, ◌≢◌, refl, arith, ◌∙◌, sym, ap, Bool, true, false, Bool-cases,
  not, ◌&&◌, inl, inr, List, [], ◌∷◌, ◌++◌, length, length-append,
}
use osdev_graphical.Scheduler.{QueueEntry, rotate}
use osdev_graphical.Scheduler.Queue.{count}
use osdev_graphical.Scheduler.Fair.{turn, turns, absorb, pow_suc, pow_mono, rotate-turn}
use osdev_graphical.Scheduler.Behind.{revapp, revapp-length, revapp_twice, heads_stay}
use osdev_graphical.Scheduler.Dispatch.{Kernel, done, blocked, scheduler_dispatch}
use osdev_graphical.Scheduler.Dispatch.Steps.{
  lives, runnable, nothing, returns, goes_on, deletes, step, List-cases, rotated, rotate-task,
  rotated-count, rotated-length, deleted-count,
}

-- The thread `entry` is to run, and the queue has the living threads that it had.
pub record DispatchLaw (k k' : Kernel) : Type 0 where
  pub entry : QueueEntry
  pub others : List QueueEntry
  pub first : k'.scheduler.ready_queue ≡ entry ∷ others
  pub task : k'.scheduler.current_task ≡ entry.address
  pub can_run : runnable entry ≡ true
  pub kept :
      (p : QueueEntry → Bool)
      → count (λ e. lives e && p e) k'.scheduler.ready_queue
        ≡ count (λ e. lives e && p e) k.scheduler.ready_queue

-- The law of what follows a step is the law from before it.
law_after :
    (k k1 k' : Kernel)
    → ((p : QueueEntry → Bool)
        → count (λ e. lives e && p e) k1.scheduler.ready_queue
          ≡ count (λ e. lives e && p e) k.scheduler.ready_queue)
    → DispatchLaw k1 k'
    → DispatchLaw k k'
law_after k k1 k' same l = record {
  entry = l.entry;
  others = l.others;
  first = l.first;
  task = l.task;
  can_run = l.can_run;
  kept = λ p. l.kept p ∙ same p;
}

abbrev Returns : Kernel → ℕ → Type 0
Returns k fuel = (k' : Kernel) × (scheduler_dispatch fuel k ≡ done k') × DispatchLaw k k'

abbrev Within : ℕ → Type 0
Within n =
    (k : Kernel)
    → length k.scheduler.ready_queue ≤ n
    → 1 ≤ count runnable k.scheduler.ready_queue
    → (fuel : ℕ) → 2 ^ n ≤ fuel
    → Returns k fuel

same_counts :
    (k : Kernel) (p : QueueEntry → Bool)
    → count (λ e. lives e && p e) (rotated k).scheduler.ready_queue
      ≡ count (λ e. lives e && p e) k.scheduler.ready_queue
same_counts k p = rotated-count (λ e. lives e && p e) k

runs_head :
    (k : Kernel) (h : QueueEntry) (r : List QueueEntry)
    → (rotate k.scheduler).ready_queue ≡ h ∷ r
    → runnable h ≡ true
    → DispatchLaw k (rotated k)
runs_head k h r c a = record {
  entry = h;
  others = r;
  first = c;
  task = rotate-task k.scheduler.ready_queue k.scheduler.current_task h r c;
  can_run = a;
  kept = same_counts k;
}

resume :
    (k k1 : Kernel) (f : ℕ)
    → ((p : QueueEntry → Bool)
        → count (λ e. lives e && p e) k1.scheduler.ready_queue
          ≡ count (λ e. lives e && p e) k.scheduler.ready_queue)
    → scheduler_dispatch (suc f) k ≡ scheduler_dispatch f k1
    → Returns k1 f
    → Returns k (suc f)
resume k k1 f same d (k', e, l) = (k', d ∙ e, law_after k k1 k' same l)

-- A step, `further` being what follows when the head is passed over.
one_step :
    (b : ℕ) (k : Kernel)
    → Within b
    → length k.scheduler.ready_queue ≤ suc b
    → 1 ≤ count runnable k.scheduler.ready_queue
    → (f : ℕ) → 2 ^ b ≤ f
    → ((h : QueueEntry) (r : List QueueEntry)
        → (rotate k.scheduler).ready_queue ≡ h ∷ r
        → runnable h ≡ false
        → Returns (rotated k) f)
    → Returns k (suc f)
one_step b k w l o f g further = elim (step f k) [
  | nothing c d ↦ absurd (omega (arith, ap (count runnable) c, rotated-count runnable k, o))
  | returns h r c x d ↦ (rotated k, d, runs_head k h r c x)
  | goes_on h r c x d ↦ resume k (rotated k) f (same_counts k) d (further h r c x)
  | deletes h r k' c x d y ↦
      let same = deleted-count k k' h r c x y in
      resume k k' f same d (
        w k' (omega (arith, ap length y, ap length c, rotated-length k, l))
          (omega (arith, o, same (λ e. not (blocked e.thread)))) f g)
]

-- The turns until the runnable entry `e` is at the head.
reach :
    (b n : ℕ) (k : Kernel) (e : QueueEntry) (q : List QueueEntry)
    → Within b
    → runnable e ≡ true
    → turns n (turn k.scheduler.ready_queue) ≡ e ∷ q
    → length k.scheduler.ready_queue ≤ suc b
    → 1 ≤ count runnable k.scheduler.ready_queue
    → (f : ℕ) → n + 2 ^ b ≤ f
    → Returns k (suc f)
reach b zero k e q w a t l o f g =
    let as_turn = rotate-turn k.scheduler.ready_queue k.scheduler.current_task in
    one_step b k w l o f (omega arith) (λ h r c x. absurd (cc (sym t ∙ sym as_turn ∙ c, a, x)))
reach b (suc n) k e q w a t l o zero g = absurd (omega arith)
reach b (suc n) k e q w a t l o (suc f) g =
    let as_turn = rotate-turn k.scheduler.ready_queue k.scheduler.current_task in
    one_step b k w l o (suc f) (omega arith) (λ h r c x.
      reach b n (rotated k) e q w a (ap (λ z. turns n (turn z)) as_turn ∙ t)
        (omega (arith, rotated-length k, l)) (omega (arith, rotated-count runnable k, o)) f
        (omega arith))

-- A counted entry, with what stands before and behind it.
find_counted :
    (p : QueueEntry → Bool) (q : List QueueEntry)
    → 1 ≤ count p q
    → (e : QueueEntry) × (ahead : List QueueEntry) × (rest : List QueueEntry) × (p e ≡ true)
      × (q ≡ ahead ++ (e ∷ rest))
find_counted p [] h = absurd (omega arith)
find_counted p (e ∷ q) h = elim (Bool-cases (p e)) [
  | inl t ↦ (e, [], q, t, refl)
  | inr f ↦
      let (e2, ahead, rest, t, c) =
        find_counted p q (let g = h in let g' = rw f at g in omega (arith, g')) in
      (e2, e ∷ ahead, rest, t, ap (λ z. e ∷ z) c)
]

within : (b : ℕ) → Within b
within zero k l o fuel g = elim (List-cases k.scheduler.ready_queue) [
  | inl n ↦ absurd (omega (arith, o, ap (count runnable) n))
  | inr (h, (r, c)) ↦ absurd (omega (arith, l, ap length c))
]
within (suc b) k l o zero g = absurd (omega (arith, pow_mono 0 (suc b) (omega arith)))
within (suc b) k l o (suc f) g =
    let as_turn = rotate-turn k.scheduler.ready_queue k.scheduler.current_task in
    let (e, ahead, rest, t, c) =
      find_counted runnable (rotate k.scheduler).ready_queue
        (omega (arith, o, rotated-count runnable k)) in
    let a = absorb (length (revapp ahead [])) (revapp ahead []) e rest (omega arith) in
    let (q, hq) = heads_stay e a.behind rest in
    let size : length (revapp ahead []) ≤ b = omega (
      arith,
      revapp-length ahead [],
      ap length c,
      length-append ahead (e ∷ rest),
      rotated-length k,
      l,
    ) in
    reach b a.turns_left k e q (within b) t
      (ap (turns a.turns_left) (sym as_turn ∙ c ∙ sym (revapp_twice ahead [] (e ∷ rest)))
        ∙ a.done
        ∙ hq)
      l o f (omega (arith, a.fast, pow_mono (length (revapp ahead [])) b size, pow_suc b, g))

passes_over :
    (fuel : ℕ) (k k' : Kernel)
    → count runnable k.scheduler.ready_queue ≡ 0
    → scheduler_dispatch fuel k ≢ done k'
unfolding scheduler_dispatch
passes_over zero k k' z d = absurd (cc d)
passes_over (suc f) k k' z d = elim (step f k) [
  | nothing c e ↦ absurd (cc (d, e))
  | returns h r c x e ↦
      absurd (omega (arith, z, ap (count runnable) c, rotated-count runnable k, counted h r x))
  | goes_on h r c x e ↦ passes_over f (rotated k) k' (rotated-count runnable k ∙ z) (sym e ∙ d)
  | deletes h r k1 c x e y ↦
      passes_over f k1 k' (deleted-count k k1 h r c x y (λ e. not (blocked e.thread)) ∙ z)
        (sym e ∙ d)
]
  where
    counted :
        (h : QueueEntry) (r : List QueueEntry) → runnable h ≡ true → 1 ≤ count runnable (h ∷ r)
    counted h r x = rw x (omega arith)

-- When a thread of the ready queue is neither terminated nor asleep nor suspended, `scheduler_dispatch`
-- returns with fuel 2 to the number of threads or more; then such a thread is at the head and the
-- current task, and every thread that is not terminated is still queued, as often as before. When no
-- thread is like that, it does not return, whatever the fuel.
pub scheduler_dispatch-DispatchLaw :
    (k : Kernel)
    → (1 ≤ count runnable k.scheduler.ready_queue
        → (fuel : ℕ) → 2 ^ length k.scheduler.ready_queue ≤ fuel
        → (k' : Kernel) × (scheduler_dispatch fuel k ≡ done k') × DispatchLaw k k')
      × (count runnable k.scheduler.ready_queue ≡ 0
          → (fuel : ℕ) (k' : Kernel) → scheduler_dispatch fuel k ≢ done k')
scheduler_dispatch-DispatchLaw k = (
  λ o fuel g. within (length k.scheduler.ready_queue) k (omega arith) o fuel g,
  λ z fuel k'. passes_over fuel k k' z,
)
