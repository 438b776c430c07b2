-- ===== src/TextEditor/Remove.antt =====
-- root/bin/tedit.c: `remove_at_position` behind the first column of a line, on the regions from the
-- cursor's on. The join with the line above, in the first column, is not modelled.
pub mod Lower
pub mod Delete
use osdev_graphical.Base.{
  ℕ, zero, suc, ◌+◌, ◌-◌, ◌%◌, Bool, true, false, Option, none, some, List, [], ◌∷◌, if◌then◌else◌,
  ◌==◌, ltb,
}
use osdev_graphical.TextEditor.{TextRegion, text_region_buffer_size, put}

-- The loop from index `i` on, with `n` indices left; `next` is the region behind, if any.
pub shift_down : Option TextRegion → ℕ → ℕ → TextRegion → TextRegion
shift_down next i zero r = r
shift_down next i (suc n) r =
    let last : TextRegion = elim next [ none ↦ r | some nx ↦ put r i (nx.buffer 0) ] in
    let r' = if ltb (i + 1) text_region_buffer_size then put r i (r.buffer (i + 1)) else last in
    shift_down next (suc i) n r'

-- Both loops over the regions.
pub shift_regions : ℕ → List TextRegion → List TextRegion
shift_regions from [] = []
shift_regions from (r ∷ []) = shift_down none from (r.pos - from) r ∷ []
shift_regions from (r ∷ r2 ∷ line) =
    shift_down (some r2) from (r.pos - from) r ∷ shift_regions 0 (r2 ∷ line)

-- The last region: it loses a byte, or, when it is empty and not the line's first, goes itself.
-- `has_prev` says whether a region stands before the first of the list.
pub shrink_last : Bool → List TextRegion → Bool × List TextRegion
shrink_last has_prev [] = (true, [])
shrink_last has_prev (r ∷ []) =
    if r.pos == 0
    then (if has_prev then (true, []) else (false, r ∷ []))
    else (true, record r { pos = r.pos - 1 } ∷ [])
shrink_last has_prev (r ∷ r2 ∷ line) =
    let (done, rest) = shrink_last true (r2 ∷ line) in (done, r ∷ rest)

-- For a column that is not 0.
pub remove_at_position : Bool → List TextRegion → ℕ → Bool × List TextRegion
remove_at_position has_prev line cursor_col =
    shrink_last has_prev (shift_regions ((cursor_col - 1) % text_region_buffer_size) line)
