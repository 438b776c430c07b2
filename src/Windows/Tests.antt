-- ===== src/Windows/Tests.antt =====
-- kernel/window_sys.c on a terminal and a clock.
use osdev_graphical.Base.{
  ℕ, ◌-◌, ◌^◌, ◌≡◌, ◌⊎◌, refl, arith, true, false, none, some, [], ◌∷◌, ◌++◌, length, ltb,
  if◌then◌else◌,
}
use osdev_graphical.Windows.{Window, Windows, get_window_by_id, remove_window, last_window}
use osdev_graphical.Windows.Order.{Unique, others}
use osdev_graphical.Windows.Remove.{IsStack, remove_window-IsStack}
use osdev_graphical.Windows.Events.Queue.{IsQueue, rest_of, events-IsQueue}
use osdev_graphical.Windows.Events.{
  Event, EventHandler, is_empty, event_handler_queue_size, enqueue_to_event_handler,
  dequeue_from_event_handler,
}

abbrev no_event : Event
no_event = record { event_type = 1; event_data = 0 }

abbrev click : Event
click = record { event_type = 2; event_data = 300 }

abbrev key : Event
key = record { event_type = 4; event_data = 65 }

abbrev one_click : EventHandler
one_click = record {
  events =
      click ∷ no_event ∷ no_event ∷ no_event ∷ no_event ∷ no_event ∷ no_event ∷ no_event ∷ no_event
      ∷ no_event ∷ [];
  event_mask = 6;
}

abbrev a_window : ℕ → ℕ → ℕ → ℕ → Window
a_window address id x y = record {
  address = address;
  x = x;
  y = y;
  width = 100;
  height = 80;
  w_buffer = 0;
  wsys_buffer = 0;
  w_name = [];
  id = id;
  parent_pid = 1;
  is_user = false;
  closable = true;
  has_frame = false;
  event_handler = one_click;
}

abbrev clock : Window
clock = a_window 0x2000 2 10 10

abbrev terminal : Window
terminal = a_window 0x1000 1 50 40

abbrev desktop : Windows
desktop = record { win_list = clock ∷ terminal ∷ []; working_window = 0x1000 }

desktop-Unique : Unique desktop.win_list
desktop-Unique i = ground arith

desktop-IsStack : IsStack desktop
unfolding last_window
desktop-IsStack = record {
  ids = desktop-Unique;
  addresses = λ a. ground arith;
  real = refl;
  top = refl;
}

clock_found : get_window_by_id desktop.win_list 2 ≡ some clock
unfolding get_window_by_id
clock_found = refl

remove_window-IsStack_example :
    ((true ≡ true) × (others 2 desktop.win_list ≡ []) × (remove_window true desktop clock ≡ none))
    ⊎ ((s' : Windows) × (remove_window true desktop clock ≡ some s')
        × (s'.win_list ≡ others 2 desktop.win_list)
        × IsStack s')
remove_window-IsStack_example = remove_window-IsStack true clock desktop-IsStack clock_found

abbrev gone : Window
gone = a_window 0x3000 3 (2 ^ 32 - 300) 20

one_click-IsQueue : IsQueue one_click (click ∷ [])
one_click-IsQueue = record { size = refl; packed = refl; waiting = refl }

events-IsQueue_example :
    IsQueue (enqueue_to_event_handler one_click key) (
      if ltb (length (click ∷ [])) event_handler_queue_size
      then (click ∷ []) ++ (key ∷ [])
      else click ∷ [])
    × IsQueue (dequeue_from_event_handler one_click).1 (rest_of (click ∷ []))
    × ((((click ∷ []) ≡ []) × (is_empty (dequeue_from_event_handler one_click).0 ≡ true))
        ⊎ ((dequeue_from_event_handler one_click).0 ∷ rest_of (click ∷ []) ≡ click ∷ []))
events-IsQueue_example = events-IsQueue key one_click-IsQueue refl
