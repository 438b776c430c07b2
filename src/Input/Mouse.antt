-- ===== src/Input/Mouse.antt =====
-- drivers/mouse.c: the interrupt handler, from the packet of four bytes to the pointer's place, the
-- requests to the window system and the event for the working window. Coordinates are 16-bit patterns,
-- and a window's width is not negative. A window that is dragged is one of the list.
pub mod Screen
use osdev_graphical.Base.{
  ℕ, ◌+◌, ◌-◌, ◌*◌, ◌/◌, ◌%◌, ◌^◌, bit_and, bit_or, Bool, true, false, not, ◌&&◌, ◌||◌, Option,
  none, some, List, [], ◌∷◌, ◌++◌, if◌then◌else◌, ◌==◌, ltb, leb,
}
use osdev_graphical.Windows.{
  TitleHit, nothing, title, end_process, end_kernel_process, close_window, sub32, at_address,
  get_window_from_collision, get_window_from_title_collision,
}
use osdev_graphical.Windows.Events.{Event}
use osdev_graphical.Input.{InputSystem, winsys_get_working_window, deliver}

pub record Mouse : Type 0 where
  pub mouse_x : ℕ
  pub mouse_y : ℕ
  pub mouse_enabled : Bool
  pub mouse_installed : Bool
  pub dragging_window : ℕ

-- The four bytes that are read.
pub record Packet : Type 0 where
  pub flags : ℕ
  pub xmov : ℕ
  pub ymov : ℕ
  pub zmov : ℕ

-- `winsys_set_working_window`, `winsys_move_window` and `winsys_move_mouse_operation`.
pub data Request : Type 0 where
  set_working : ℕ → Request
  move_window : ℕ → ℕ → ℕ → Request
  move_mouse : ℕ → ℕ → Request

pub disable_mouse : Mouse → Mouse
disable_mouse m = if m.mouse_installed then record m { mouse_enabled = false } else m

pub enable_mouse : Mouse → Mouse
enable_mouse m = if m.mouse_installed then record m { mouse_enabled = true } else m

-- `int8_t rel_x` and `rel_y`: the byte that is left of a difference.
pub rel_x : Packet → ℕ
rel_x p = (p.xmov + 0x100 - bit_and (p.flags * 16) 0x100) % 256

pub rel_y : Packet → ℕ
rel_y p = (p.ymov + 0x100 - bit_and (p.flags * 8) 0x100) % 256

-- An `int8_t` as an `int16_t`.
abbrev pub widen : ℕ → ℕ
widen r = if ltb r 128 then r else r + (2 ^ 16 - 2 ^ 8)

-- A coordinate within bounds; a pattern from 2^15 on is negative.
abbrev pub clamp : ℕ → ℕ → ℕ → ℕ
clamp low high c =
    if leb (2 ^ 15) c then low else if ltb c low then low else if leb high c then high - 1 else c

pub move_x : ℕ → ℕ → ℕ
move_x x rel = clamp 0 1280 ((x + widen rel * 2) % 2 ^ 16)

pub move_y : ℕ → ℕ → ℕ
move_y y rel = clamp 16 1024 ((y + (2 ^ 17 - widen rel * 2)) % 2 ^ 16)

-- What both functions have in hand: the driver, the rest of the system, and the requests so far.
pub record Handling : Type 0 where
  pub mouse : Mouse
  pub system : InputSystem
  pub requests : List Request

-- The window to drag, if the click was on a title and not on its close button, whose effect is
-- `perform`.
pub drag_hit : (TitleHit → InputSystem → InputSystem) → Handling → TitleHit → Handling
drag_hit perform h nothing = h
drag_hit perform h (title w) = record h { mouse = record h.mouse { dragging_window = w.address } }
drag_hit perform h (end_process pid) = record h { system = perform (end_process pid) h.system }
drag_hit perform h (end_kernel_process pid) = record h {
  system = perform (end_kernel_process pid) h.system;
}
drag_hit perform h (close_window w) = record h { system = perform (close_window w) h.system }

pub start_drag : (TitleHit → InputSystem → InputSystem) → Handling → Handling
start_drag perform h =
    drag_hit perform h
      (get_window_from_title_collision h.system.windows.win_list h.mouse.mouse_x h.mouse.mouse_y)

-- The place that a dragged window is to have.
pub drag : Handling → Handling
drag h = elim (at_address h.system.windows.win_list h.mouse.dragging_window) [
  | none ↦ h
  | some w ↦
      let y = h.mouse.mouse_y + 15 in
      record h {
        requests =
            h.requests
            ++ (move_window w.address (sub32 h.mouse.mouse_x (w.width / 2))
                  (if ltb y 46 then 46 else y)
                ∷ []);
      }
]

pub left_click : (TitleHit → InputSystem → InputSystem) → Handling → Handling
left_click perform h =
    let found =
      get_window_from_collision h.system.windows.win_list h.mouse.mouse_x h.mouse.mouse_y in
    let same = if h.mouse.dragging_window == 0 then start_drag perform h else drag h in
    elim found [
      | none ↦ same
      | some w ↦
          if w.address == h.system.windows.working_window
          then same
          else record h { requests = h.requests ++ (set_working w.id ∷ []) }
    ]

-- `event_type` and `event_data` for a window at `wx`, `wy`.
pub mouse_event : Packet → Mouse → ℕ → ℕ → Event
mouse_event p m wx wy =
    let left = if bit_and p.flags 1 == 0 then 0 else 16 in
    let right = if bit_and p.flags 2 == 0 then left else bit_or left 32 in
    let moved = not (rel_x p == 0) || not (rel_y p == 0) in
    record {
      event_type = if moved then bit_or right 8 else right;
      event_data = bit_or (sub32 m.mouse_x wx % 2 ^ 16) (sub32 m.mouse_y wy % 2 ^ 16 * 2 ^ 16);
    }

-- From the working window on.
pub finish : (ℕ → ℕ) → (ℕ → ℕ) → Packet → Handling → Handling
finish process_of id_of p h = elim (winsys_get_working_window h.system.windows) [
  | none ↦ h
  | some w ↦
      let moved = not (rel_x p == 0) || not (rel_y p == 0) in
      record h {
        system = deliver process_of id_of 2 (mouse_event p h.mouse w.x w.y) h.system;
        requests =
            if moved
            then h.requests ++ (move_mouse h.mouse.mouse_x h.mouse.mouse_y ∷ [])
            else h.requests;
      }
]

-- The pointer after the packet.
pub moved_mouse : Packet → Mouse → Mouse
moved_mouse p m = record m {
  mouse_x = move_x m.mouse_x (rel_x p);
  mouse_y = move_y m.mouse_y (rel_y p);
}

pub mouse_handler :
    (ℕ → ℕ)
    → (ℕ → ℕ)
    → (TitleHit → InputSystem → InputSystem)
    → Packet
    → Mouse
    → InputSystem
    → Handling
mouse_handler process_of id_of perform p m s =
    let m' = moved_mouse p m in
    let left = not (bit_and p.flags 1 == 0) in
    let h : Handling = record { mouse = m'; system = s; requests = [] } in
    let still = rel_x p == 0 && rel_y p == 0 && bit_and p.flags 1 == 0 && bit_and p.flags 2 == 0 in
    let released : Handling = record h { mouse = record m' { dragging_window = 0 } } in
    if not m.mouse_enabled || not m.mouse_installed
    then record h { mouse = m }
    else if still
    then h
    else finish process_of id_of p (if left then left_click perform h else released)
