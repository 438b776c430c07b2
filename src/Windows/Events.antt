-- ===== src/Windows/Events.antt =====
-- The event queue of a window: ten slots, of which those with `EVENT_INVALID` are empty.
pub mod Queue
use mathlib.Core.Path.{subst}
use osdev_graphical.Base.{
  ℕ, suc, ◌+◌, ◌%◌, ◌≤◌, ◌<◌, ◌≡◌, refl, arith, ◌∙◌, ap, sym, Bool, Bool-cases, true, false, inl,
  inr, ◌⊎◌, List, [], ◌∷◌, ◌++◌, length, if◌then◌else◌, ◌==◌, ltb,
}

pub record Event : Type 0 where
  pub event_type : ℕ
  pub event_data : ℕ

pub record EventHandler : Type 0 where
  pub events : List Event
  pub event_mask : ℕ

abbrev pub event_handler_queue_size : ℕ
event_handler_queue_size = 10

-- `event_type & EVENT_INVALID`, the lowest bit.
abbrev pub is_empty : Event → Bool
is_empty e = e.event_type % 2 == 1

-- `handler->events[i].event_type = EVENT_INVALID`
abbrev pub emptied : Event → Event
emptied e = record e { event_type = 1 }

pub enqueue_slot : List Event → Event → List Event
enqueue_slot [] e = []
enqueue_slot (s ∷ slots) e =
    let rest = enqueue_slot slots e in if is_empty s then e ∷ slots else s ∷ rest

pub enqueue_to_event_handler : EventHandler → Event → EventHandler
enqueue_to_event_handler h e = record h { events = enqueue_slot h.events e }

-- The slots after the loop of the dequeue functions, the last one emptied.
pub shifted : List Event → List Event
shifted [] = []
shifted (s ∷ []) = emptied s ∷ []
shifted (s ∷ s2 ∷ slots) = s2 ∷ shifted (s2 ∷ slots)

pub dequeue_from_event_handler : EventHandler → Event × EventHandler
dequeue_from_event_handler h =
    let first : Event = elim h.events [
      | [] ↦ record { event_type = 1; event_data = 0 }
      | e ∷ es ↦ e
    ] in
    (first, record h { events = shifted h.events })
