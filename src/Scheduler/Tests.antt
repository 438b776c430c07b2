-- ===== src/Scheduler/Tests.antt =====
-- kernel/scheduler.c on a queue of three threads with the priorities 2, 3 and 1.
use osdev_graphical.Base.{arith, ℕ, ◌+◌, ◌*◌, ◌^◌, ◌<◌, ◌≡◌, refl, false, List, [], ◌∷◌, length}
use osdev_graphical.Vmm.{Vmm, check_virt_present}
use osdev_graphical.Scheduler.Pages.{
  SearchLaw, pages_above, find_user_space_pages_by_pdir, find_user_space_pages-SearchLaw,
}
use osdev_graphical.Scheduler.{
  Thread, QueueEntry, Scheduler, thread_remove_state, thread_block_sleep, insert_entry,
  get_free_tid, free_tid_from,
}
use osdev_graphical.Scheduler.Tick.{ticks, ticks-wake}
use osdev_graphical.Scheduler.Fair.{rotations, rotations-fair}

abbrev a_thread : ℕ → ℕ → ℕ → ℕ → Thread
a_thread id prio flags delta = record {
  esp = 0;
  ss = 0x10;
  kernel_esp = 0;
  kernel_ss = 0x10;
  parent = 0x5000;
  priority = prio;
  state = flags;
  sleep_time_delta = delta;
  initial_stack = 0;
  next = 0;
  tid = id;
  is_main = false;
}

abbrev an_entry : ℕ → ℕ → QueueEntry
an_entry id prio = record { address = 0x8000 + 64 * id; thread = a_thread id prio 1 0 }

abbrev three : Scheduler
three = record {
  ready_queue = an_entry 1 2 ∷ an_entry 2 3 ∷ an_entry 3 1 ∷ [];
  current_task = 0x8040;
}

-- The walk compares with the entry that it stands on: 2 is inserted behind 3.
insert_entry-order :
    insert_entry (an_entry 1 1 ∷ an_entry 2 3 ∷ an_entry 3 3 ∷ []) (an_entry 4 2)
    ≡ an_entry 1 1 ∷ an_entry 2 3 ∷ an_entry 4 2 ∷ an_entry 3 3 ∷ []
unfolding insert_entry
insert_entry-order = refl

rotations-fair_example :
    (n : ℕ) × (n < 2 ^ length (an_entry 1 2 ∷ an_entry 2 3 ∷ []))
    × ((q : List QueueEntry) × ((rotations n three).ready_queue ≡ an_entry 3 1 ∷ q))
rotations-fair_example =
    rotations-fair three (an_entry 1 2 ∷ an_entry 2 3 ∷ []) [] (an_entry 3 1) refl

free_tid-three : get_free_tid three.ready_queue ≡ 4
unfolding get_free_tid free_tid_from
free_tid-three = refl

ticks-wake_example :
    (ticks 2 (a_thread 7 1 3 5) ≡ record (a_thread 7 1 3 5) { sleep_time_delta = 3 })
    × (ticks 5 (a_thread 7 1 3 5)
        ≡ record (thread_remove_state (a_thread 7 1 3 5) thread_block_sleep) {
          sleep_time_delta = 0;
        })
ticks-wake_example = ticks-wake (a_thread 7 1 3 5) 2 2 refl

abbrev a_space : Vmm
a_space = record {
  cur_directory = 0x9000;
  pmm = record { memory_size = 0; used_blocks = 0; max_blocks = 0; memory_map = λ a. 0 };
  memory = λ a. 0;
}

find_user_space_pages-SearchLaw_example :
    SearchLaw
      (check_virt_present a_space 0x9000)
      0xA0000000
      3
      (pages_above 0xA0000000)
      (find_user_space_pages_by_pdir a_space 0x9000 0xA0000000 3)
find_user_space_pages-SearchLaw_example =
    find_user_space_pages-SearchLaw a_space 0x9000 0xA0000000 3 (omega arith)
