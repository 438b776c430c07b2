-- ===== src/Windows.antt =====
-- kernel/window_sys.c: the list of windows with its order, and which window a point hits.
-- A `PWINDOW` is an address, 0 for null, and the linked list is a list of the nodes with their
-- addresses. An `int` is its 32-bit pattern. Painting is output and is left out.
pub mod Order
pub mod Remove
pub mod Hit
pub mod Listener
pub mod Events
mod Tests
use osdev_graphical.Base.{
  ℕ, zero, suc, ◌+◌, ◌-◌, ◌*◌, ◌%◌, ◌^◌, Bool, true, false, ◌&&◌, not, Option, none, some, List, [],
  ◌∷◌, ◌++◌, if◌then◌else◌, ◌==◌, ltb, leb, map,
}
use osdev_graphical.Windows.Events.{EventHandler}

pub record Window : Type 0 where
  pub address : ℕ
  pub x : ℕ
  pub y : ℕ
  pub width : ℕ
  pub height : ℕ
  pub w_buffer : ℕ
  pub wsys_buffer : ℕ
  pub w_name : List ℕ
  pub id : ℕ
  pub parent_pid : ℕ
  pub is_user : Bool
  pub closable : Bool
  pub has_frame : Bool
  pub event_handler : EventHandler

-- `win_list` from the bottom to the top, and `working_window`.
pub record Windows : Type 0 where
  pub win_list : List Window
  pub working_window : ℕ

abbrev pub title_bar_height : ℕ
title_bar_height = 30

abbrev pub win_frame_size : ℕ
win_frame_size = 2

abbrev pub char_width : ℕ
char_width = 8

abbrev pub add32 : ℕ → ℕ → ℕ
add32 a b = (a + b) % 2 ^ 32

abbrev pub sub32 : ℕ → ℕ → ℕ
sub32 a b = (a + 2 ^ 32 - b) % 2 ^ 32

-- `a < b` between `int`s.
abbrev pub slt : ℕ → ℕ → Bool
slt a b = ltb (add32 a (2 ^ 31)) (add32 b (2 ^ 31))

pub free_id_from : ℕ → List Window → ℕ
free_id_from id [] = id
free_id_from id (w ∷ ws) = free_id_from (if slt w.id id then id else add32 w.id 1) ws

pub get_free_id : List Window → ℕ
get_free_id ws = free_id_from 1 ws

pub get_window_by_id : List Window → ℕ → Option Window
get_window_by_id [] wid = none
get_window_by_id (w ∷ ws) wid =
    let rest = get_window_by_id ws wid in if w.id == wid then some w else rest

-- What both functions that create a window do with it once it is filled in: it gets its identifier
-- and goes to the end of the list. The request to make it the working window goes to the listener.
pub add_window : Windows → Window → Windows
add_window s win = record s {
  win_list = s.win_list ++ (record win { id = get_free_id s.win_list } ∷ []);
}

-- The walk to the node with identifier `id`, which is taken out; `none` is a walk off the end.
pub unlink : List Window → ℕ → Option (List Window)
unlink [] id = none
unlink (w ∷ ws) id =
    let rest = unlink ws id in
    if w.id == id then some ws else elim rest [ none ↦ none | some ws' ↦ some (w ∷ ws') ]

-- The node that was found is taken out and put at the end.
pub raise : Windows → Window → Windows
raise s win = elim (unlink s.win_list win.id) [
  | none ↦ s
  | some ws ↦ record s { win_list = ws ++ (win ∷ []) }
]

pub set_working_window_operation : Windows → ℕ → Bool × Windows
set_working_window_operation s wid = elim (get_window_by_id s.win_list wid) [
  | none ↦ (false, s)
  | some win ↦
      let s' = record s { working_window = win.address } in
      (true, if win.address == s.working_window then s' else raise s' win)
]

-- The node at an address.
pub at_address : List Window → ℕ → Option Window
at_address [] a = none
at_address (w ∷ ws) a = let rest = at_address ws a in if w.address == a then some w else rest

pub last_window : List Window → Option Window
last_window [] = none
last_window (w ∷ []) = some w
last_window (w ∷ w2 ∷ ws) = last_window (w2 ∷ ws)

-- The steps on the list of `winsys_remove_window_operation` and, with `user`, of
-- `winsys_remove_window_user`, which does not test that a window is left. `none` is a read through
-- the null pointer: of the list's end, of a working window that is not set, or of the empty list.
pub remove_window : Bool → Windows → Window → Option Windows
remove_window user s win = elim (unlink s.win_list win.id) [
  | none ↦ none
  | some ws ↦ elim (at_address s.win_list s.working_window) [
    | none ↦ none
    | some working ↦
        let cleared : Windows = record { win_list = ws; working_window = 0 } in
        if working.id == win.id
        then elim (last_window ws) [
          | none ↦ if user then none else some cleared
          | some top ↦ some (set_working_window_operation cleared top.id).1
        ]
        else some (record s { win_list = ws })
  ]
]

pub remove_window_operation : Windows → Option Window → Option Windows
remove_window_operation s none = some s
remove_window_operation s (some win) = remove_window win.is_user s win

-- The position that is written to the node.
pub place : List Window → ℕ → ℕ → ℕ → List Window
place ws a x y = map (λ w. if w.address == a then record w { x = x; y = y } else w) ws

pub move_window_operation : Windows → Option Window → ℕ → ℕ → Windows
move_window_operation s none x y = s
move_window_operation s (some win) x y =
    let s' = record s { win_list = place s.win_list win.address x y } in
    if win.address == s.working_window then s' else (set_working_window_operation s' win.id).1

-- `winsys_remove_windows_by_pid`: the first window of the process is asked to be removed.
pub window_of_pid : List Window → ℕ → Option Window
window_of_pid [] pid = none
window_of_pid (w ∷ ws) pid =
    let rest = window_of_pid ws pid in if w.parent_pid == pid then some w else rest

-- The comparison that the collision functions return.
pub check_collide_rect_rect : ℕ → ℕ → ℕ → ℕ → ℕ → ℕ → ℕ → ℕ → Bool
check_collide_rect_rect x1 y1 w1 h1 x2 y2 w2 h2 =
    slt x1 (add32 x2 w2) && slt y1 (add32 y2 h2) && slt x2 (add32 x1 w1) && slt y2 (add32 y1 h1)

pub check_collide : Window → Window → Bool
check_collide a b = check_collide_rect_rect a.x a.y a.width a.height b.x b.y b.width b.height

-- The outer rectangle of a window, with its frame and title bar.
pub whole_x : Window → ℕ
whole_x w = sub32 w.x win_frame_size

pub whole_y : Window → ℕ
whole_y w = sub32 w.y title_bar_height

pub whole_width : Window → ℕ
whole_width w = add32 w.width (win_frame_size * 2)

pub whole_height : Window → ℕ
whole_height w = add32 w.height (title_bar_height + win_frame_size)

pub check_collide_win_rect : Window → ℕ → ℕ → ℕ → ℕ → Bool
check_collide_win_rect a x y w h =
    check_collide_rect_rect (whole_x a) (whole_y a) (whole_width a) (whole_height a) x y w h

pub check_collide_whole : Window → Window → Bool
check_collide_whole a b =
    check_collide_win_rect a (whole_x b) (whole_y b) (whole_width b) (whole_height b)

-- `x < w_x + w_w` is between `uint32_t`s, since the width is one; `x > w_x` is between `int`s.
pub check_point : ℕ → ℕ → ℕ → ℕ → ℕ → ℕ → Bool
check_point w_x w_y w_w w_h x y =
    ltb x (add32 w_x w_w) && slt w_x x && ltb y (add32 w_y w_h) && slt w_y y

pub check_collide_coords : Window → ℕ → ℕ → Bool
check_collide_coords w x y =
    check_point (whole_x w) (whole_y w) (whole_width w) (whole_height w) x y

pub check_title_collide : Window → ℕ → ℕ → Bool
check_title_collide w x y = check_point (whole_x w) (whole_y w) (whole_width w) title_bar_height x y

pub check_close_collide : Window → ℕ → ℕ → Bool
check_close_collide w x y =
    w.closable
    && check_point (sub32 (add32 w.x w.width) char_width) (whole_y w) char_width title_bar_height x
        y

-- The two nested loops: the last window that the test accepts, `top` before.
pub top_from : (Window → Bool) → Option Window → List Window → Option Window
top_from test top [] = top
top_from test top (w ∷ ws) = top_from test (if test w then some w else top) ws

pub get_window_from_collision : List Window → ℕ → ℕ → Option Window
get_window_from_collision ws x y = top_from (λ w. check_collide_coords w x y) none ws

-- What a click on a title asks for: nothing, the window itself, or the end of what stands behind its
-- close button.
pub data TitleHit : Type 0 where
  nothing : TitleHit
  title : Window → TitleHit
  end_process : ℕ → TitleHit
  end_kernel_process : ℕ → TitleHit
  close_window : Window → TitleHit

pub get_window_from_title_collision : List Window → ℕ → ℕ → TitleHit
get_window_from_title_collision ws x y = elim (top_from (λ w. check_title_collide w x y) none ws) [
  | none ↦ nothing
  | some top ↦
      if check_close_collide top x y
      then (if top.is_user
          then end_process top.parent_pid
          else (if top.parent_pid == 0
              then close_window top
              else end_kernel_process top.parent_pid))
      else title top
]
