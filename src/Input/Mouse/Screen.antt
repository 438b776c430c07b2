-- ===== src/Input/Mouse/Screen.antt =====
-- The pointer stays on the screen and goes where the packet's low bytes say; the event tells where it is.
use osdev_graphical.Base.{
  ℕ, ◌+◌, ◌-◌, ◌*◌, ◌/◌, ◌%◌, ◌^◌, ◌≤◌, ◌<◌, min, max, ◌≡◌, refl, arith, ◌∙◌, ap, bit_and, true,
  false, Bool-cases, inl, inr, not, ◌||◌, ◌&&◌, Option-cases, if◌then◌else◌, ◌==◌, ltb, [],
}
use osdev_graphical.Bits.{or-place, and-pow, bit_at-le}
use osdev_graphical.Windows.{
  TitleHit, nothing, title, end_process, end_kernel_process, close_window, sub32, at_address,
  get_window_from_collision,
}
use osdev_graphical.Input.{InputSystem, winsys_get_working_window}
use osdev_graphical.Input.Mouse.{
  Mouse, Packet, Handling, rel_x, rel_y, move_x, move_y, moved_mouse, mouse_event, start_drag, drag,
  drag_hit, left_click, finish, mouse_handler,
}

-- `c` moved by twice the signed byte `d`, no lower than `low` and below `high`.
abbrev pub shifted : ℕ → ℕ → ℕ → ℕ → ℕ
shifted low high c d = if ltb d 128 then min (c + 2 * d) (high - 1) else max low (c - 2 * (256 - d))

-- The same by the negative of the byte: a vertical movement counts upwards.
abbrev pub shifted_back : ℕ → ℕ → ℕ → ℕ → ℕ
shifted_back low high c d =
    max low (if ltb d 128 then c - 2 * d else min (c + 2 * (256 - d)) (high - 1))

pub record IsOnScreen (m : Mouse) : Type 0 where
  pub column : m.mouse_x < 1280
  pub top : 16 ≤ m.mouse_y
  pub bottom : m.mouse_y < 1024

-- The sign bit of the packet falls away.
pub rel_x-byte : (p : Packet) → p.xmov < 256 → rel_x p ≡ p.xmov
unfolding rel_x
rel_x-byte p h = omega (arith, and-pow (p.flags * 16) 8, bit_at-le (p.flags * 16) 8)

pub rel_y-byte : (p : Packet) → p.ymov < 256 → rel_y p ≡ p.ymov
unfolding rel_y
rel_y-byte p h = omega (arith, and-pow (p.flags * 8) 8, bit_at-le (p.flags * 8) 8)

move_x_lem : (x d : ℕ) → x < 1280 → d < 256 → move_x x d ≡ shifted 0 1280 x d
unfolding move_x
move_x_lem x d hx hd = ground arith

move_y_lem : (y d : ℕ) → y < 1024 → d < 256 → move_y y d ≡ shifted_back 16 1024 y d
unfolding move_y
move_y_lem y d h hd = ground arith

-- The place of the pointer.
abbrev place : Handling → ℕ × ℕ
place h = (h.mouse.mouse_x, h.mouse.mouse_y)

drag_hit-place :
    (perform : TitleHit → InputSystem → InputSystem) (h : Handling) (t : TitleHit)
    → place (drag_hit perform h t) ≡ place h
unfolding drag_hit
drag_hit-place perform h nothing = refl
drag_hit-place perform h (title w) = refl
drag_hit-place perform h (end_process pid) = refl
drag_hit-place perform h (end_kernel_process pid) = refl
drag_hit-place perform h (close_window w) = refl

drag-place : (h : Handling) → place (drag h) ≡ place h
unfolding drag
drag-place h = elim (Option-cases (at_address h.system.windows.win_list h.mouse.dragging_window)) [
  | inl n ↦ rw (drag, n) refl
  | inr (w, e) ↦ rw (drag, e) refl
]

left_click-place :
    (perform : TitleHit → InputSystem → InputSystem) (h : Handling)
    → place (left_click perform h) ≡ place h
unfolding left_click start_drag
left_click-place perform h =
    let same : place (if h.mouse.dragging_window == 0 then start_drag perform h else drag h)
        ≡ place h =
      elim (Bool-cases (h.mouse.dragging_window == 0)) [
        | inl z ↦ rw z (drag_hit-place perform h _)
        | inr z ↦ rw z (drag-place h)
      ] in
    elim (Option-cases
      (get_window_from_collision h.system.windows.win_list h.mouse.mouse_x h.mouse.mouse_y)) [
        | inl n ↦ rw (left_click, n) same
        | inr (w, e) ↦ elim (Bool-cases (w.address == h.system.windows.working_window)) [
          | inl t ↦ rw (left_click, e, t) same
          | inr f ↦ rw (left_click, e, f) refl
        ]
      ]

finish-place :
    (process_of id_of : ℕ → ℕ) (p : Packet) (h : Handling)
    → place (finish process_of id_of p h) ≡ place h
unfolding finish
finish-place process_of id_of p h =
    elim (Option-cases (winsys_get_working_window h.system.windows)) [
      | inl n ↦ rw (finish, n) refl
      | inr (w, e) ↦ rw (finish, e) refl
    ]

handler-place :
    (process_of id_of : ℕ → ℕ) (perform : TitleHit → InputSystem → InputSystem) (p : Packet)
    (m : Mouse) (s : InputSystem)
    → m.mouse_enabled ≡ true
    → m.mouse_installed ≡ true
    → place (mouse_handler process_of id_of perform p m s)
      ≡ (move_x m.mouse_x (rel_x p), move_y m.mouse_y (rel_y p))
unfolding mouse_handler moved_mouse
handler-place process_of id_of perform p m s on here =
    let m' = moved_mouse p m in
    let h : Handling = record { mouse = m'; system = s; requests = [] } in
    let released : Handling = record h { mouse = record m' { dragging_window = 0 } } in
    let ready : (not m.mouse_enabled || not m.mouse_installed) ≡ false = ground (arith, on, here) in
    elim (Bool-cases
      (rel_x p == 0 && rel_y p == 0 && bit_and p.flags 1 == 0 && bit_and p.flags 2 == 0)) [
        | inl t ↦ rw (ready, t) refl
        | inr f ↦ elim (Bool-cases (bit_and p.flags 1 == 0)) [
          | inl u ↦ rw (ready, f, u) (finish-place process_of id_of p released)
          | inr u ↦
              rw (ready, f, u)
                (finish-place process_of id_of p (left_click perform h)
                  ∙ left_click-place perform h)
        ]
      ]

-- While the mouse is installed and enabled, and the pointer is in a column below 1280 and a row below
-- 1024, as at the start, any packet of bytes leaves the pointer on the screen, below the 16 rows at
-- the top: it moves by twice the signed low bytes of the movements, to the right by the first and
-- upwards by the second, and stops at the edges.
pub mouse_handler-moves :
    (process_of id_of : ℕ → ℕ) (perform : TitleHit → InputSystem → InputSystem) (p : Packet)
    (m : Mouse) (s : InputSystem)
    → m.mouse_enabled ≡ true
    → m.mouse_installed ≡ true
    → m.mouse_x < 1280
    → m.mouse_y < 1024
    → p.xmov < 256
    → p.ymov < 256
    → let m' = (mouse_handler process_of id_of perform p m s).mouse in
      (m'.mouse_x ≡ shifted 0 1280 m.mouse_x p.xmov)
      × (m'.mouse_y ≡ shifted_back 16 1024 m.mouse_y p.ymov)
      × IsOnScreen m'
mouse_handler-moves process_of id_of perform p m s on here column row hx hy =
    let h = mouse_handler process_of id_of perform p m s in
    let same = handler-place process_of id_of perform p m s on here in
    let x : h.mouse.mouse_x ≡ shifted 0 1280 m.mouse_x p.xmov =
      ap (λ (c : ℕ × ℕ). c.0) same
      ∙ ap (move_x m.mouse_x) (rel_x-byte p hx)
      ∙ move_x_lem m.mouse_x p.xmov column hx in
    let y : h.mouse.mouse_y ≡ shifted_back 16 1024 m.mouse_y p.ymov =
      ap (λ (c : ℕ × ℕ). c.1) same
      ∙ ap (move_y m.mouse_y) (rel_y-byte p hy)
      ∙ move_y_lem m.mouse_y p.ymov row hy in
    (
      x,
      y,
      record {
        column = ground (arith, x, column);
        top = ground (arith, y, row);
        bottom = ground (arith, y, row);
      },
    )

-- The two halves of the event's number are the pointer's coordinates in the window, as 16-bit patterns.
pub mouse_event-coordinates :
    (p : Packet) (m : Mouse) (wx wy : ℕ)
    → let d = (mouse_event p m wx wy).event_data in
      (d % 2 ^ 16 ≡ sub32 m.mouse_x wx % 2 ^ 16) × (d / 2 ^ 16 ≡ sub32 m.mouse_y wy % 2 ^ 16)
unfolding mouse_event
mouse_event-coordinates p m wx wy =
    let beside =
      or-place 16 (sub32 m.mouse_x wx % 2 ^ 16) (sub32 m.mouse_y wy % 2 ^ 16) (omega arith) in
    (omega (arith, beside), omega (arith, beside))
