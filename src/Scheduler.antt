-- ===== src/Scheduler.antt =====
-- kernel/scheduler.c: the ready queue, the threads' states and the timer's tick.
-- The linked list of queue entries is a list of them, each with its address, so that `_currentTask`,
-- a pointer to an entry's thread, keeps its meaning. What `kmalloc` returns for an entry is an
-- argument. Thread identifiers are positive and taken not to reach 2^31.
pub mod Queue
pub mod Tick
pub mod Pages
pub mod Behind
pub mod Fair
pub mod Dispatch
mod Tests
use osdev_graphical.Base.{
  ℕ, suc, ◌+◌, ◌-◌, ◌/◌, ◌^◌, ◌≤◌, bit_and, bit_or, Bool, true, false, Option, none, some, List, [],
  ◌∷◌, ◌++◌, map, if◌then◌else◌, ◌==◌, ltb, leb, length, take,
}

-- `struct _thread`; pointers are addresses.
pub record Thread : Type 0 where
  pub esp : ℕ
  pub ss : ℕ
  pub kernel_esp : ℕ
  pub kernel_ss : ℕ
  pub parent : ℕ
  pub priority : ℕ
  pub state : ℕ
  pub sleep_time_delta : ℕ
  pub initial_stack : ℕ
  pub next : ℕ
  pub tid : ℕ
  pub is_main : Bool

-- A `queueEntry`, whose thread is its first member.
pub record QueueEntry : Type 0 where
  pub address : ℕ
  pub thread : Thread

-- `_readyQueue` and `_currentTask`.
pub record Scheduler : Type 0 where
  pub ready_queue : List QueueEntry
  pub current_task : ℕ

abbrev pub thread_block_sleep : ℕ
thread_block_sleep = 2

abbrev pub thread_terminate : ℕ
thread_terminate = 4

abbrev pub thread_suspended : ℕ
thread_suspended = 8

pub thread_set_state : Thread → ℕ → Thread
thread_set_state t flags = record t { state = bit_or t.state flags }

pub thread_remove_state : Thread → ℕ → Thread
thread_remove_state t flags = record t { state = bit_and t.state (2 ^ 32 - 1 - flags) }

pub queue_get : List QueueEntry → ℕ
queue_get [] = 0
queue_get (e ∷ q) = e.address

pub disable_scheduling : Scheduler → Scheduler
disable_scheduling s = record s { current_task = 0 }

pub enable_scheduling : Scheduler → Scheduler
enable_scheduling s = record s { current_task = queue_get s.ready_queue }

-- What the functions on the queue share: scheduling is off while they change it.
pub with_queue : Scheduler → List QueueEntry → Scheduler
with_queue s q =
    let s' = record (disable_scheduling s) { ready_queue = q } in
    if s.current_task == 0 then s' else enable_scheduling s'

-- The loop to the first thread with identifier `tid`, which `f` changes.
pub change_by_id : (Thread → Thread) → List QueueEntry → ℕ → List QueueEntry
change_by_id f [] tid = []
change_by_id f (e ∷ q) tid =
    let rest = change_by_id f q tid in
    if e.thread.tid == tid then record e { thread = f e.thread } ∷ q else e ∷ rest

pub thread_set_state_by_id : Scheduler → ℕ → ℕ → Scheduler
thread_set_state_by_id s tid state =
    with_queue s (change_by_id (λ t. thread_set_state t state) s.ready_queue tid)

pub thread_remove_state_by_id : Scheduler → ℕ → ℕ → Scheduler
thread_remove_state_by_id s tid state =
    with_queue s (change_by_id (λ t. thread_remove_state t state) s.ready_queue tid)

pub remove_by_tid : Scheduler → ℕ → Scheduler
remove_by_tid s tid = thread_set_state_by_id s tid thread_terminate

-- A change to the thread that `_currentTask` points to.
pub change_current : (Thread → Thread) → Scheduler → Scheduler
change_current f s = record s {
  ready_queue =
      map (λ e. if e.address == s.current_task then record e { thread = f e.thread } else e)
        s.ready_queue;
}

-- `thread_sleep` up to the software interrupt of `schedule`; PHASE is 100.
pub thread_sleep : Scheduler → ℕ → Scheduler
thread_sleep s ms =
    change_current
      (λ t. record (thread_set_state t thread_block_sleep) { sleep_time_delta = ms / (1000 / 100) })
      s

pub thread_wake : Scheduler → Scheduler
thread_wake s =
    change_current (λ t. record (thread_remove_state t thread_block_sleep) { sleep_time_delta = 0 })
      s

pub thread_suspend : Scheduler → Scheduler
thread_suspend s = change_current (λ t. thread_set_state t thread_suspended) s

pub thread_unsuspend : Scheduler → Scheduler
thread_unsuspend s = change_current (λ t. thread_remove_state t thread_suspended) s

-- `id_of` is the identifier that a process's address leads to.
pub unsuspend_suspended_threads : (ℕ → ℕ) → Scheduler → ℕ → Scheduler
unsuspend_suspended_threads id_of s proc =
    let change = λ (e : QueueEntry).
      if id_of e.thread.parent == id_of proc
      then record e { thread = thread_remove_state e.thread thread_suspended }
      else e in
    if proc == 0 then s else with_queue s (map change s.ready_queue)

-- The entries go back to the heap.
pub clear_queue : Scheduler → Scheduler
clear_queue s = record s { ready_queue = [] }

pub queue_insert : Scheduler → ℕ → Thread → Scheduler
queue_insert s new t = with_queue s (s.ready_queue ++ (record { address = new; thread = t } ∷ []))

-- The walk of the prioritised insertions, which never inserts before the first entry.
pub insert_entry : List QueueEntry → QueueEntry → List QueueEntry
insert_entry [] new = new ∷ []
insert_entry (e ∷ []) new = e ∷ new ∷ []
insert_entry (e ∷ e2 ∷ q) new =
    let rest = insert_entry (e2 ∷ q) new in
    if leb e.thread.priority new.thread.priority then e ∷ rest else e ∷ new ∷ e2 ∷ q

pub queue_insert_prioritized : Scheduler → ℕ → Thread → Scheduler
queue_insert_prioritized s new t = record s {
  ready_queue = insert_entry s.ready_queue (record { address = new; thread = t });
}

pub queue_insert_prioritized_entry : Scheduler → QueueEntry → Scheduler
queue_insert_prioritized_entry s new = record s { ready_queue = insert_entry s.ready_queue new }

-- On an empty queue the source returns a variable that it never set.
pub queue_remove : Scheduler → Option QueueEntry × Scheduler
queue_remove s = elim s.ready_queue [
  | [] ↦ (none, s)
  | e ∷ q ↦ (some e, record s { ready_queue = q })
]

pub queue_get_last : List QueueEntry → ℕ
queue_get_last [] = 0
queue_get_last (e ∷ []) = e.address
queue_get_last (e ∷ e2 ∷ q) = queue_get_last (e2 ∷ q)

pub queue_delete_first : Scheduler → Scheduler
queue_delete_first s = elim s.ready_queue [ [] ↦ s | e ∷ q ↦ record s { ready_queue = q } ]

-- `none` is a read through the null pointer: a single entry is freed, and the walk then starts from it.
pub queue_delete_last : Scheduler → Option Scheduler
queue_delete_last s = elim s.ready_queue [
  | [] ↦ some s
  | e ∷ q ↦ elim q [
    | [] ↦ none
    | e2 ∷ q2 ↦ some (record s { ready_queue = take (length (e2 ∷ q2)) s.ready_queue })
  ]
]

pub get_thread_by_tid : List QueueEntry → ℕ → Option Thread
get_thread_by_tid [] tid = none
get_thread_by_tid (e ∷ q) tid =
    let rest = get_thread_by_tid q tid in if e.thread.tid == tid then some e.thread else rest

-- The loop, which raises `id` above each identifier.
pub free_tid_from : ℕ → List QueueEntry → ℕ
free_tid_from id [] = id
free_tid_from id (e ∷ q) = free_tid_from (if leb id e.thread.tid then suc e.thread.tid else id) q

pub get_free_tid : List QueueEntry → ℕ
get_free_tid q = free_tid_from 1 q

-- One turn of the round robin of `scheduler_dispatch`: the head is taken out and inserted again. An
-- empty queue, on which the source goes on with an unset variable, stays empty.
pub rotate : Scheduler → Scheduler
rotate s =
    let (tmp, s') = queue_remove s in
    elim tmp [ none ↦ s' | some e ↦ enable_scheduling (queue_insert_prioritized_entry s' e) ]

-- The body of the loop of `scheduler_tick`.
pub tick_thread : Thread → Thread
tick_thread t =
    let t' = record t { sleep_time_delta = t.sleep_time_delta - 1 } in
    if ltb 0 t.sleep_time_delta
    then (if t'.sleep_time_delta == 0
        then record (thread_remove_state t' thread_block_sleep) { sleep_time_delta = 0 }
        else t')
    else t

pub tick_entry : QueueEntry → QueueEntry
tick_entry e = record e { thread = tick_thread e.thread }

pub tick_queue : Scheduler → Scheduler
tick_queue s = record s { ready_queue = map tick_entry s.ready_queue }
