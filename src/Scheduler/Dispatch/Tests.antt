-- ===== src/Scheduler/Dispatch/Tests.antt =====
-- kernel/scheduler.c: the dispatch of three threads, of which one is terminated and one asleep.
use osdev_graphical.Base.{ℕ, ◌+◌, ◌*◌, ◌^◌, ◌≤◌, ◌≡◌, ◌≢◌, [], ◌∷◌, length, false}
use osdev_graphical.Scheduler.{QueueEntry}
use osdev_graphical.Scheduler.Queue.{count}
use osdev_graphical.Scheduler.Dispatch.{Kernel, done, scheduler_dispatch}
use osdev_graphical.Scheduler.Dispatch.Steps.{runnable}
use osdev_graphical.Scheduler.Dispatch.Returns.{DispatchLaw, scheduler_dispatch-DispatchLaw}

abbrev a_task : ℕ → ℕ → QueueEntry
a_task id flags = record {
  address = 0x8000 + 64 * id;
  thread = record {
    esp = 0;
    ss = 0x10;
    kernel_esp = 0;
    kernel_ss = 0x10;
    parent = 0x5000;
    priority = 2;
    state = flags;
    sleep_time_delta = 0;
    initial_stack = 0;
    next = 0;
    tid = id;
    is_main = false;
  };
}

abbrev three_tasks : Kernel
three_tasks = record {
  scheduler = record {
    ready_queue = a_task 1 1 ∷ a_task 2 5 ∷ a_task 3 3 ∷ [];
    current_task = 0x8040;
  };
  vmm = record {
    cur_directory = 0x9000;
    pmm = record { memory_size = 0; used_blocks = 0; max_blocks = 0; memory_map = λ a. 0 };
    memory = λ a. 0;
  };
  processes = λ p. record { page_directory = 0xA000; living_threads = 2; name = 0 };
  freed = [];
}

scheduler_dispatch-DispatchLaw_example :
    (1 ≤ count runnable three_tasks.scheduler.ready_queue
      → (fuel : ℕ) → 2 ^ length three_tasks.scheduler.ready_queue ≤ fuel
      → (k' : Kernel) × (scheduler_dispatch fuel three_tasks ≡ done k')
        × DispatchLaw three_tasks k')
    × (count runnable three_tasks.scheduler.ready_queue ≡ 0
        → (fuel : ℕ) (k' : Kernel) → scheduler_dispatch fuel three_tasks ≢ done k')
scheduler_dispatch-DispatchLaw_example = scheduler_dispatch-DispatchLaw three_tasks
