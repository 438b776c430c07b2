-- ===== src/Scheduler/Dispatch/Steps.antt =====
-- What one turn of the loop of `scheduler_dispatch` leads to.
use osdev_graphical.Base.{
  ℕ, suc, ◌≡◌, refl, arith, ◌∙◌, sym, ap, Bool, true, false, Bool-cases, not, ◌&&◌, ◌⊎◌, inl, inr,
  List, [], ◌∷◌, length, ◌==◌,
}
use osdev_graphical.Scheduler.{
  QueueEntry, Scheduler, rotate, queue_get, queue_delete_first, thread_terminate, queue_remove,
  queue_insert_prioritized_entry, enable_scheduling,
}
use osdev_graphical.Scheduler.Queue.{count, rotate-count}
use osdev_graphical.Scheduler.Dispatch.{
  Kernel, Turn, run, again, done, no_thread, has_state, kfree, set_process, free_kernel_stack,
  free_parent, delete_head, blocked, look, look_first, scheduler_dispatch,
}

abbrev pub lives : QueueEntry → Bool
lives e = not (has_state e.thread thread_terminate)

-- No state that makes the dispatch pass the thread over.
abbrev pub runnable : QueueEntry → Bool
runnable e = lives e && not (blocked e.thread)

free_kernel_stack-queue :
    (e : QueueEntry) (k : Kernel) → (free_kernel_stack e.thread k).scheduler ≡ k.scheduler
unfolding free_kernel_stack set_process
free_kernel_stack-queue e k = ground arith

free_parent-queue : (e : QueueEntry) (k : Kernel) → (free_parent e.thread k).scheduler ≡ k.scheduler
unfolding free_parent kfree
free_parent-queue e k = ground arith

-- What the head of the queue does to the loop.
data Look (e : QueueEntry) (q : List QueueEntry) (k : Kernel) (t : Turn) : Type 0 where
  runs : runnable e ≡ true → t ≡ run → Look e q k t
  passes : runnable e ≡ false → t ≡ again k → Look e q k t
  ends :
      (k' : Kernel) → lives e ≡ false → t ≡ again k' → k'.scheduler.ready_queue ≡ q → Look e q k t

delete_head-queue :
    (e : QueueEntry) (q : List QueueEntry) (k : Kernel)
    → k.scheduler.ready_queue ≡ e ∷ q
    → (delete_head e k).scheduler.ready_queue ≡ q
unfolding delete_head kfree queue_delete_first
delete_head-queue e q k h = rw h refl

look-cases :
    (e : QueueEntry) (q : List QueueEntry) (k : Kernel)
    → k.scheduler.ready_queue ≡ e ∷ q
    → Look e q k (look e k)
unfolding look
look-cases e q k h = elim (Bool-cases (has_state e.thread thread_terminate)) [
  | inl t ↦
      elim (Bool-cases (k.vmm.cur_directory == (k.processes e.thread.parent).page_directory)) [
        | inl c ↦ rw (t, c) (passes (rw t refl) refl)
        | inr c ↦
            let k1 = free_parent e.thread (free_kernel_stack e.thread k) in
            let same : k1.scheduler ≡ k.scheduler =
              free_parent-queue e (free_kernel_stack e.thread k) ∙ free_kernel_stack-queue e k in
            rw (t, c)
              (ends (delete_head e k1) (rw t refl) refl
                (delete_head-queue e q k1 (ap (λ (s : Scheduler). s.ready_queue) same ∙ h)))
      ]
  | inr t ↦ elim (Bool-cases (blocked e.thread)) [
    | inl b ↦ rw (t, b) (passes (rw (t, b) refl) refl)
    | inr b ↦ rw (t, b) (runs (rw (t, b) refl) refl)
  ]
]

pub List-cases :
    (q : List QueueEntry) → (q ≡ []) ⊎ ((h : QueueEntry) × ((r : List QueueEntry) × (q ≡ h ∷ r)))
List-cases [] = inl refl
List-cases (h ∷ r) = inr (h, (r, refl))

-- A kernel after the first turn.
abbrev pub rotated : Kernel → Kernel
rotated k = record k { scheduler = rotate k.scheduler }

-- What one unit of fuel is spent on, `q` being the queue after the turn.
pub data Step (f : ℕ) (k : Kernel) (q : List QueueEntry) : Type 0 where
  nothing : q ≡ [] → scheduler_dispatch (suc f) k ≡ no_thread → Step f k q
  returns :
      (h : QueueEntry) (r : List QueueEntry)
      → q ≡ h ∷ r
      → runnable h ≡ true
      → scheduler_dispatch (suc f) k ≡ done (rotated k)
      → Step f k q
  goes_on :
      (h : QueueEntry) (r : List QueueEntry)
      → q ≡ h ∷ r
      → runnable h ≡ false
      → scheduler_dispatch (suc f) k ≡ scheduler_dispatch f (rotated k)
      → Step f k q
  deletes :
      (h : QueueEntry) (r : List QueueEntry) (k' : Kernel)
      → q ≡ h ∷ r
      → lives h ≡ false
      → scheduler_dispatch (suc f) k ≡ scheduler_dispatch f k'
      → k'.scheduler.ready_queue ≡ r
      → Step f k q

pub step : (f : ℕ) (k : Kernel) → Step f k (rotate k.scheduler).ready_queue
unfolding scheduler_dispatch look_first
step f k =
    let see = λ (q : List QueueEntry). look_first q (rotated k) in
    elim (List-cases (rotate k.scheduler).ready_queue) [
      | inl n ↦ nothing n (rw (scheduler_dispatch, ap see n) refl)
      | inr (h, (r, c)) ↦ elim (look-cases h r (rotated k) c) [
        | runs a t ↦ returns h r c a (rw (scheduler_dispatch, ap see c ∙ t) refl)
        | passes a t ↦ goes_on h r c a (rw (scheduler_dispatch, ap see c ∙ t) refl)
        | ends k' a t d ↦ deletes h r k' c a (rw (scheduler_dispatch, ap see c ∙ t) refl) d
      ]
    ]

pub rotate-task :
    (q : List QueueEntry) (c : ℕ) (h : QueueEntry) (r : List QueueEntry)
    → (rotate (record { ready_queue = q; current_task = c })).ready_queue ≡ h ∷ r
    → (rotate (record { ready_queue = q; current_task = c })).current_task ≡ h.address
unfolding rotate queue_remove queue_insert_prioritized_entry enable_scheduling queue_get
rotate-task [] c h r d = absurd (cc d)
rotate-task (e ∷ q) c h r d = ap queue_get d

pub rotated-count :
    (p : QueueEntry → Bool) (k : Kernel)
    → count p (rotated k).scheduler.ready_queue ≡ count p k.scheduler.ready_queue
rotated-count p k = rotate-count p k.scheduler

pub rotated-length :
    (k : Kernel) → length (rotated k).scheduler.ready_queue ≡ length k.scheduler.ready_queue
rotated-length k =
    sym (count_all (rotate k.scheduler).ready_queue)
    ∙ rotate-count (λ e. true) k.scheduler
    ∙ count_all k.scheduler.ready_queue
  where
    count_all : (q : List QueueEntry) → count (λ e. true) q ≡ length q
    count_all [] = refl
    count_all (e ∷ q) = omega (arith, count_all q)

-- The entry that the step deletes is none of those counted.
pub deleted-count :
    (k k' : Kernel) (h : QueueEntry) (r : List QueueEntry)
    → (rotate k.scheduler).ready_queue ≡ h ∷ r
    → lives h ≡ false
    → k'.scheduler.ready_queue ≡ r
    → (p : QueueEntry → Bool)
    → count (λ e. lives e && p e) k'.scheduler.ready_queue
      ≡ count (λ e. lives e && p e) k.scheduler.ready_queue
deleted-count k k' h r c a d p =
    ap (count (λ e. lives e && p e)) d
    ∙ none_here
    ∙ sym (ap (count (λ e. lives e && p e)) c)
    ∙ rotate-count (λ e. lives e && p e) k.scheduler
  where
    none_here : count (λ e. lives e && p e) r ≡ count (λ e. lives e && p e) (h ∷ r)
    none_here = rw a (omega arith)
