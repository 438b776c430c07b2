-- ===== src/Input.antt =====
-- What drivers/keyboard.c and drivers/mouse.c share: the event for the working window, and the wake-up
-- of the process that the window belongs to. A working window is one of the list. `process_of` is what
-- `getProcessByID` leads to, an address or 0, and `id_of` the identifier that the address has.
pub mod Keyboard
pub mod Line
pub mod Mouse
mod Tests
use osdev_graphical.Base.{ℕ, bit_and, Bool, not, Option, none, some, List, map, if◌then◌else◌, ◌==◌}
use osdev_graphical.Scheduler.{Scheduler, unsuspend_suspended_threads}
use osdev_graphical.Windows.{Window, Windows, at_address}
use osdev_graphical.Windows.Events.{Event, EventHandler, enqueue_to_event_handler}

pub record InputSystem : Type 0 where
  pub windows : Windows
  pub scheduler : Scheduler

pub winsys_get_working_window : Windows → Option Window
winsys_get_working_window s =
    if s.working_window == 0 then none else at_address s.win_list s.working_window

-- `event_mask & flag`
pub accepts : EventHandler → ℕ → Bool
accepts h flag = not (bit_and h.event_mask flag == 0)

-- `winsys_enqueue_to_event_handler` on the handler inside the node at address `a`.
pub enqueue_at : List Window → ℕ → Event → List Window
enqueue_at ws a e =
    map
      (λ w.
        if w.address == a
        then record w { event_handler = enqueue_to_event_handler w.event_handler e }
        else w)
      ws

-- Both handlers' last part: the event of a kind, `flag`, goes to the working window if its mask has it.
pub deliver : (ℕ → ℕ) → (ℕ → ℕ) → ℕ → Event → InputSystem → InputSystem
deliver process_of id_of flag e s = elim (winsys_get_working_window s.windows) [
  | none ↦ s
  | some win ↦
      if accepts win.event_handler flag
      then record {
        windows = record s.windows { win_list = enqueue_at s.windows.win_list win.address e };
        scheduler = unsuspend_suspended_threads id_of s.scheduler (process_of win.parent_pid);
      }
      else s
]
