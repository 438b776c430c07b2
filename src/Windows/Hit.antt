-- ===== src/Windows/Hit.antt =====
-- Which window a point hits.
use osdev_graphical.Base.{
  ℕ, ◌^◌, ◌≤◌, ◌<◌, ◌≡◌, ◌≢◌, refl, arith, ◌∙◌, ap, Bool, true, ◌&&◌, Option, none, some, List, [],
  ◌∷◌, ◌++◌, if◌then◌else◌, ltb,
}
use osdev_graphical.Windows.{
  Window, Windows, add32, slt, get_window_by_id, set_working_window_operation, check_point,
  check_collide_coords, whole_x, whole_y, whole_width, whole_height, top_from,
  get_window_from_collision,
}
use osdev_graphical.Windows.Order.{Unique, set_working-top}

top_from-append :
    (p : Window → Bool) (top : Option Window) (ws : List Window) (w : Window)
    → p w ≡ true
    → top_from p top (ws ++ (w ∷ [])) ≡ some w
unfolding top_from
top_from-append p top [] w h = rw h refl
top_from-append p top (v ∷ ws) w h = top_from-append p (if p v then some v else top) ws w h

-- Once another window has been made the working one, a point that its test accepts hits it, whatever
-- windows lie below.
pub collision-set_working :
    (s : Windows) (wid : ℕ) (win : Window) (x y : ℕ)
    → Unique s.win_list
    → get_window_by_id s.win_list wid ≡ some win
    → win.address ≢ s.working_window
    → check_collide_coords win x y ≡ true
    → get_window_from_collision (set_working_window_operation s wid).1.win_list x y ≡ some win
unfolding get_window_from_collision
collision-set_working s wid win x y u h ne hit =
    ap (λ (o : Bool × Windows). get_window_from_collision (o.1.win_list) x y)
      (set_working-top s wid win u h ne)
    ∙ top_from-append (λ w. check_collide_coords w x y) none _ win hit

-- A window whose left and right edges are both left of the screen, at negative coordinates, is hit by
-- every point of the screen at its height: the comparison with the right edge is made on unsigned
-- numbers.
pub check_collide_coords-left :
    (w : Window) (x y : ℕ)
    → whole_x w < 2 ^ 32
    → 2 ^ 31 ≤ whole_x w
    → 2 ^ 31 ≤ add32 (whole_x w) (whole_width w)
    → x < 2 ^ 31
    → check_collide_coords w x y ≡ (ltb y (add32 (whole_y w) (whole_height w)) && slt (whole_y w) y)
unfolding check_collide_coords check_point
check_collide_coords-left w x y b l r h =
    let right : ltb x (add32 (whole_x w) (whole_width w)) ≡ true = ground arith in
    let left : slt (whole_x w) x ≡ true = ground arith in rw (right, left) refl
