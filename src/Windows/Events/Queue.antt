-- ===== src/Windows/Events/Queue.antt =====
-- The slots of a window's event handler as a bounded queue.
use mathlib.Core.Path.{subst}
use osdev_graphical.Base.{
  ℕ, suc, ◌+◌, ◌≤◌, ◌<◌, ◌≡◌, refl, arith, ◌∙◌, ap, sym, Bool-cases, true, false, inl, inr, ◌⊎◌,
  List, [], ◌∷◌, ◌++◌, length, if◌then◌else◌, ltb,
}
use osdev_graphical.Windows.Events.{
  Event, EventHandler, event_handler_queue_size, is_empty, enqueue_slot, enqueue_to_event_handler,
  shifted, dequeue_from_event_handler,
}

-- The events that wait.
abbrev pub pending : List Event → List Event
pending [] = []
pending (s ∷ slots) = if is_empty s then [] else s ∷ pending slots

abbrev pub used : List Event → ℕ
used [] = 0
used (s ∷ slots) = (if is_empty s then 0 else 1) + used slots

used-le : (slots : List Event) → used slots ≤ length slots
used-le [] = omega arith
used-le (s ∷ slots) = ground (arith, used-le slots)

-- All slots are empty.
none_used : (slots : List Event) → used slots ≡ 0 → pending slots ≡ []
none_used [] h = refl
none_used (s ∷ slots) h = elim (Bool-cases (is_empty s)) [
  | inl e ↦ rw e refl
  | inr e ↦ (let z : 1 + used slots ≡ 0 = rw e at h in absurd (omega arith))
]

pending-empty : (s : Event) (slots : List Event) → is_empty s ≡ true → pending (s ∷ slots) ≡ []
pending-empty s slots h = rw h refl

pending-event :
    (s : Event) (slots : List Event) → is_empty s ≡ false → pending (s ∷ slots) ≡ s ∷ pending slots
pending-event s slots h = rw h refl

enqueue-empty :
    (s : Event) (slots : List Event) (e : Event)
    → is_empty s ≡ true
    → enqueue_slot (s ∷ slots) e ≡ e ∷ slots
unfolding enqueue_slot
enqueue-empty s slots e h = rw h refl

enqueue-event :
    (s : Event) (slots : List Event) (e : Event)
    → is_empty s ≡ false
    → enqueue_slot (s ∷ slots) e ≡ s ∷ enqueue_slot slots e
unfolding enqueue_slot
enqueue-event s slots e h = rw h refl

used-event :
    (s : Event) (slots : List Event) → is_empty s ≡ false → used (s ∷ slots) ≡ suc (used slots)
used-event s slots h = rw h (omega arith)

used-empty : (s : Event) (slots : List Event) → is_empty s ≡ true → used (s ∷ slots) ≡ used slots
used-empty s slots h = rw h (omega arith)

pending-none : (slots : List Event) → used slots ≡ 0 → length (pending slots) ≡ 0
pending-none slots h = ap length (none_used slots h)

used-le-pending : (slots : List Event) → length (pending slots) ≤ used slots
used-le-pending [] = omega arith
used-le-pending (s ∷ slots) = ground (arith, used-le-pending slots)

abbrev EnqueueLaw : List Event → Event → List Event → Type 0
EnqueueLaw slots e out =
    (pending out ≡ (
      if ltb (length (pending slots)) (length slots)
      then pending slots ++ (e ∷ [])
      else pending slots))
    × (used out ≡ length (pending out))
    × (length out ≡ length slots)

enqueue_first :
    (s : Event) (slots : List Event) (e : Event)
    → used (s ∷ slots) ≡ length (pending (s ∷ slots))
    → is_empty e ≡ false
    → is_empty s ≡ true
    → EnqueueLaw (s ∷ slots) e (enqueue_slot (s ∷ slots) e)
enqueue_first s slots e p ne h =
    let z : used slots ≡ 0 =
      omega (arith, sym (used-empty s slots h), p, ap length (pending-empty s slots h)) in
    let none = none_used slots z in
    let room : ltb 0 (suc (length slots)) ≡ true = ground arith in
    subst (EnqueueLaw (s ∷ slots) e) (sym (enqueue-empty s slots e h))
      (rw (h, ne, none, room) (refl, omega (arith, z, ap length none), refl))

enqueue_behind :
    (s : Event) (slots : List Event) (e : Event)
    → is_empty s ≡ false
    → EnqueueLaw slots e (enqueue_slot slots e)
    → EnqueueLaw (s ∷ slots) e (enqueue_slot (s ∷ slots) e)
enqueue_behind s slots e h ih =
    let out = enqueue_slot slots e in
    subst (EnqueueLaw (s ∷ slots) e) (sym (enqueue-event s slots e h)) (
      pending-event s out h
          ∙ ap (λ (q : List Event). s ∷ q) ih.0
          ∙ elim (Bool-cases (ltb (length (pending slots)) (length slots))) [
            | inl l ↦
                let l' : ltb (suc (length (pending slots))) (suc (length slots)) ≡ true =
                  ground arith in
                rw (pending-event s slots h, l, l') refl
            | inr l ↦
                let l' : ltb (suc (length (pending slots))) (suc (length slots)) ≡ false =
                  ground arith in
                rw (pending-event s slots h, l, l') refl
          ],
      used-event s out h ∙ ap suc ih.1 ∙ sym (ap length (pending-event s out h)),
      ap suc ih.2,
    )

enqueue_lem :
    (slots : List Event) (e : Event)
    → used slots ≡ length (pending slots)
    → is_empty e ≡ false
    → (pending (enqueue_slot slots e) ≡ (
        if ltb (length (pending slots)) (length slots)
        then pending slots ++ (e ∷ [])
        else pending slots))
      × (used (enqueue_slot slots e) ≡ length (pending (enqueue_slot slots e)))
      × (length (enqueue_slot slots e) ≡ length slots)
unfolding enqueue_slot
enqueue_lem [] e p ne = (refl, refl, refl)
enqueue_lem (s ∷ slots) e p ne = elim (Bool-cases (is_empty s)) [
  | inl h ↦ enqueue_first s slots e p ne h
  | inr h ↦ enqueue_behind s slots e h (
      enqueue_lem slots e
        (omega (arith, sym (used-event s slots h), p, ap length (pending-event s slots h))) ne)
]

abbrev pub rest_of : List Event → List Event
rest_of [] = []
rest_of (e ∷ q) = q

none_behind :
    (s : Event) (t : List Event)
    → used (s ∷ t) ≡ length (pending (s ∷ t))
    → pending t ≡ []
    → used t ≡ 0
none_behind s t p gone = elim (Bool-cases (is_empty s)) [
  | inl h ↦ omega (arith, sym (used-empty s t h), p, ap length (pending-empty s t h))
  | inr h ↦
      omega (arith, sym (used-event s t h), p, ap length (pending-event s t h), ap length gone)
]

short : (s : Event) (t : List Event) → pending t ≡ [] → rest_of (pending (s ∷ t)) ≡ []
short s t gone = elim (Bool-cases (is_empty s)) [
  | inl h ↦ ap rest_of (pending-empty s t h)
  | inr h ↦ ap rest_of (pending-event s t h) ∙ gone
]

not_before :
    (s : Event) (t : List Event)
    → used (s ∷ t) ≡ length (pending (s ∷ t))
    → 0 < used t
    → is_empty s ≡ false
not_before s t p l = elim (Bool-cases (is_empty s)) [
  | inl h ↦ absurd (omega (arith, sym (used-empty s t h), p, ap length (pending-empty s t h)))
  | inr h ↦ h
]

shifted_lem :
    (slots : List Event)
    → used slots ≡ length (pending slots)
    → (pending (shifted slots) ≡ rest_of (pending slots))
      × (used (shifted slots) ≡ length (pending (shifted slots)))
      × (length (shifted slots) ≡ length slots)
unfolding shifted
shifted_lem [] p = (refl, refl, refl)
shifted_lem (s ∷ []) p = elim (Bool-cases (is_empty s)) [
  | inl h ↦ rw h (refl, refl, refl)
  | inr h ↦ rw h (refl, refl, refl)
]
shifted_lem (s ∷ s2 ∷ slots) p = elim (Bool-cases (is_empty s2)) [
  | inl h2 ↦
      let gone : pending (s2 ∷ slots) ≡ [] = pending-empty s2 slots h2 in
      let z : used (s2 ∷ slots) ≡ 0 = none_behind s (s2 ∷ slots) p gone in
      let ih = shifted_lem (s2 ∷ slots) (z ∙ sym (ap length gone)) in
      let none : pending (shifted (s2 ∷ slots)) ≡ [] = ih.0 ∙ ap rest_of gone in
      (
        pending-empty s2 (shifted (s2 ∷ slots)) h2 ∙ sym (short s (s2 ∷ slots) gone),
        used-empty s2 (shifted (s2 ∷ slots)) h2
            ∙ ih.1
            ∙ ap length none
            ∙ sym (ap length (pending-empty s2 (shifted (s2 ∷ slots)) h2)),
        ap suc ih.2,
      )
  | inr h2 ↦
      let seen = used-event s2 slots h2 in
      let waits : is_empty s ≡ false = not_before s (s2 ∷ slots) p (omega (arith, seen)) in
      let p' : used (s2 ∷ slots) ≡ length (pending (s2 ∷ slots)) = omega (
        arith,
        sym (used-event s (s2 ∷ slots) waits),
        p,
        ap length (pending-event s (s2 ∷ slots) waits),
      ) in
      let ih = shifted_lem (s2 ∷ slots) p' in
      (
        pending-event s2 (shifted (s2 ∷ slots)) h2
            ∙ ap (λ (q : List Event). s2 ∷ q) (ih.0 ∙ ap rest_of (pending-event s2 slots h2))
            ∙ sym (ap rest_of (pending-event s (s2 ∷ slots) waits) ∙ pending-event s2 slots h2),
        used-event s2 (shifted (s2 ∷ slots)) h2
            ∙ ap suc ih.1
            ∙ sym (ap length (pending-event s2 (shifted (s2 ∷ slots)) h2)),
        ap suc ih.2,
      )
]

-- The handler's slots hold the queue `q`, in order.
pub record IsQueue (h : EventHandler) (q : List Event) : Type 0 where
  pub size : length h.events ≡ event_handler_queue_size
  pub packed : used h.events ≡ length (pending h.events)
  pub waiting : pending h.events ≡ q

-- On slots that hold a queue, `winsys_enqueue_to_event_handler` of an event that is not marked invalid
-- puts it behind the queue, or drops it if ten events wait, and the slots hold the result.
-- `winsys_dequeue_from_event_handler` leaves the queue without its first event and returns that event,
-- or one marked invalid if the queue is empty.
pub events-IsQueue :
    {h : EventHandler} {q : List Event} (e : Event)
    → IsQueue h q
    → is_empty e ≡ false
    → IsQueue
        (enqueue_to_event_handler h e)
        (if ltb (length q) event_handler_queue_size then q ++ (e ∷ []) else q)
      × IsQueue (dequeue_from_event_handler h).1 (rest_of q)
      × (((q ≡ []) × (is_empty (dequeue_from_event_handler h).0 ≡ true))
          ⊎ ((dequeue_from_event_handler h).0 ∷ rest_of q ≡ q))
unfolding enqueue_to_event_handler dequeue_from_event_handler
events-IsQueue {h} {q} e w ne =
    let a = enqueue_lem h.events e w.packed ne in
    let b = shifted_lem h.events w.packed in
    (
      record { size = a.2 ∙ w.size; packed = a.1; waiting = a.0 ∙ rw (w.waiting, w.size) refl },
      record { size = b.2 ∙ w.size; packed = b.1; waiting = b.0 ∙ ap rest_of w.waiting },
      first h.events q w.waiting,
    )
  where
    first :
        (slots r : List Event)
        → pending slots ≡ r
        → let out : Event = elim slots [
          | [] ↦ record { event_type = 1; event_data = 0 }
          | e' ∷ es ↦ e'
        ] in
          ((r ≡ []) × (is_empty out ≡ true)) ⊎ (out ∷ rest_of r ≡ r)
    first [] r eq = inl (sym eq, refl)
    first (s ∷ slots) r eq = elim (Bool-cases (is_empty s)) [
      | inl z ↦ inl (sym eq ∙ pending-empty s slots z, z)
      | inr z ↦
          let whole = sym eq ∙ pending-event s slots z in
          inr (ap (λ (t : List Event). s ∷ rest_of t) whole ∙ sym whole)
    ]
