-- ===== src/Scheduler/Queue.antt =====
-- The ready queue keeps its threads, and a new thread's identifier is its own.
use osdev_graphical.Base.{
  ℕ, suc, ◌+◌, ◌≤◌, ◌≡◌, refl, arith, Bool, Bool-cases, List, [], ◌∷◌, if◌then◌else◌, ◌==◌, leb,
  inl, inr,
}
use osdev_graphical.Scheduler.{
  QueueEntry, Scheduler, insert_entry, queue_remove, queue_insert_prioritized_entry,
  enable_scheduling, free_tid_from, get_free_tid, rotate,
}

-- The number of entries that `p` accepts.
abbrev pub count : (QueueEntry → Bool) → List QueueEntry → ℕ
count p [] = 0
count p (e ∷ q) = (if p e then 1 else 0) + count p q

pub insert_entry-count :
    (p : QueueEntry → Bool) (q : List QueueEntry) (new : QueueEntry)
    → count p (insert_entry q new) ≡ count p (new ∷ q)
unfolding insert_entry
insert_entry-count p [] new = refl
insert_entry-count p (e ∷ []) new = omega arith
insert_entry-count p (e ∷ e2 ∷ q) new =
    elim (Bool-cases (leb e.thread.priority new.thread.priority)) [
      | inl t ↦ rw t (omega (arith, insert_entry-count p (e2 ∷ q) new))
      | inr f ↦ rw f (omega arith)
    ]

rotate-queue :
    (p : QueueEntry → Bool) (q : List QueueEntry) (c : ℕ)
    → count p (rotate (record { ready_queue = q; current_task = c })).ready_queue ≡ count p q
unfolding rotate queue_remove queue_insert_prioritized_entry enable_scheduling
rotate-queue p [] c = refl
rotate-queue p (e ∷ q) c = insert_entry-count p q e

-- A turn of the round robin loses no thread and doubles none: for every test on entries, as many of
-- the queue's entries pass it after the turn as before.
pub rotate-count :
    (p : QueueEntry → Bool) (s : Scheduler) → count p (rotate s).ready_queue ≡ count p s.ready_queue
rotate-count p s = rotate-queue p s.ready_queue s.current_task

free_tid_from-above :
    (id : ℕ) (q : List QueueEntry)
    → (id ≤ free_tid_from id q)
      × ((i : ℕ) → free_tid_from id q ≤ i → count (λ e. e.thread.tid == i) q ≡ 0)
unfolding free_tid_from
free_tid_from-above id [] = (omega arith, λ i h. refl)
free_tid_from-above id (e ∷ q) =
    let r = free_tid_from-above (if leb id e.thread.tid then suc e.thread.tid else id) q in
    (ground (arith, r.0), λ i h. ground (arith, r.0, r.1 i h))

-- `get_free_tid` is positive, and neither it nor any greater number is the identifier of a thread in
-- the ready queue.
pub get_free_tid-fresh :
    (q : List QueueEntry) (i : ℕ)
    → get_free_tid q ≤ i
    → (1 ≤ get_free_tid q) × (count (λ e. e.thread.tid == i) q ≡ 0)
unfolding get_free_tid
get_free_tid-fresh q i h = ((free_tid_from-above 1 q).0, (free_tid_from-above 1 q).1 i h)
