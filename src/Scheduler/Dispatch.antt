-- ===== src/Scheduler/Dispatch.antt =====
-- kernel/scheduler.c: `scheduler_dispatch` and `scheduler_tick`, with the end of terminated threads.
-- A `process` is what the dispatch uses of it, kept apart from the memory that holds page tables;
-- what is given to `kfree` is logged. Counts are of 32 bits.
pub mod Steps
pub mod Returns
mod Tests
use osdev_graphical.Base.{
  ℕ, zero, suc, ◌+◌, ◌-◌, ◌^◌, ◌%◌, bit_and, Bool, true, false, not, ◌||◌, ◌&&◌, List, [], ◌∷◌,
  if◌then◌else◌, ◌==◌,
}
use osdev_graphical.Vmm
use osdev_graphical.Vmm.{Vmm}
use osdev_graphical.Process.Space.{clear_kernel_space}
use osdev_graphical.Scheduler.{
  Thread, QueueEntry, Scheduler, thread_block_sleep, thread_terminate, thread_suspended,
  queue_delete_first, rotate, tick_queue,
}

-- `pageDirectory`, `livingThreads` and `name` of a process; pointers are addresses.
pub record ParentProcess : Type 0 where
  pub page_directory : ℕ
  pub living_threads : ℕ
  pub name : ℕ

pub record Kernel : Type 0 where
  pub scheduler : Scheduler
  pub vmm : Vmm
  pub processes : ℕ → ParentProcess
  pub freed : List ℕ

pub has_state : Thread → ℕ → Bool
has_state t flag = not (bit_and t.state flag == 0)

pub kfree : ℕ → Kernel → Kernel
kfree p k = record k { freed = p ∷ k.freed }

pub set_process : ℕ → ParentProcess → Kernel → Kernel
set_process p process k = record k { processes = λ q. if q == p then process else k.processes q }

-- The kernel stack's page goes back, and the thread no longer counts.
pub free_kernel_stack : Thread → Kernel → Kernel
free_kernel_stack t k =
    let parent = k.processes t.parent in
    if t.kernel_esp == 0
    then k
    else set_process t.parent
        (record parent { living_threads = (parent.living_threads + (2 ^ 32 - 1)) % 2 ^ 32 })
        (record k {
          vmm =
              Vmm.free_virt k.vmm parent.page_directory ((t.kernel_esp + (2 ^ 32 - 4096)) % 2 ^ 32);
        })

-- The last thread takes its process with it.
pub free_parent : Thread → Kernel → Kernel
free_parent t k =
    let parent = k.processes t.parent in
    let space = clear_kernel_space k.vmm parent.page_directory in
    let k1 = record k { vmm = Vmm.free_pdir space parent.page_directory } in
    let k2 = if parent.name == 0 then k1 else kfree parent.name k1 in
    if parent.living_threads == 0 then kfree t.parent k2 else k

-- `queue_delete_first` of the queue that starts with `e`.
pub delete_head : QueueEntry → Kernel → Kernel
delete_head e k = kfree e.address (record k { scheduler = queue_delete_first k.scheduler })

-- What a turn of the loop leads to; `fault` is the turn of an empty queue, on which the source goes on
-- with a variable that it never set.
pub data Turn : Type 0 where
  run : Turn
  again : Kernel → Turn
  fault : Turn

pub blocked : Thread → Bool
blocked t = has_state t thread_block_sleep || has_state t thread_suspended

-- The loop's body and its condition for the head `e` of the rotated queue.
pub look : QueueEntry → Kernel → Turn
look e k =
    let current = k.vmm.cur_directory == (k.processes e.thread.parent).page_directory in
    if has_state e.thread thread_terminate
    then (if current
        then again k
        else again (delete_head e (free_parent e.thread (free_kernel_stack e.thread k))))
    else if blocked e.thread
    then again k
    else run

pub look_first : List QueueEntry → Kernel → Turn
look_first [] k = fault
look_first (e ∷ q) k = look e k

-- `done` is the return of the dispatch.
pub data Outcome : Type 0 where
  done : Kernel → Outcome
  no_thread : Outcome
  out_of_fuel : Outcome

pub scheduler_dispatch : ℕ → Kernel → Outcome
scheduler_dispatch zero k = out_of_fuel
scheduler_dispatch (suc fuel) k =
    let k1 = record k { scheduler = rotate k.scheduler } in
    elim (look_first k1.scheduler.ready_queue k1) [
      | run ↦ done k1
      | again k2 ↦ scheduler_dispatch fuel k2
      | fault ↦ no_thread
    ]

pub scheduler_tick : ℕ → Kernel → Outcome
scheduler_tick fuel k = elim (scheduler_dispatch fuel k) [
  | done k' ↦ done (record k' { scheduler = tick_queue k'.scheduler })
  | no_thread ↦ no_thread
  | out_of_fuel ↦ out_of_fuel
]
