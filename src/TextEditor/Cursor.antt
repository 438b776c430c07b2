-- ===== src/TextEditor/Cursor.antt =====
-- root/bin/tedit.c: the cursor and its four movements. The region that the cursor's pointer names is a
-- place in the line, one behind the last for null. A `size_t` has 32 bits, and the byte at index -1 of
-- a buffer, which an empty region's test reads, is the one at the wrapped index.
pub mod Sideways
mod Tests
use osdev_graphical.Base.{
  ℕ, zero, suc, ◌+◌, ◌-◌, ◌*◌, ◌/◌, ◌%◌, ◌^◌, Bool, true, false, not, ◌&&◌, ◌||◌, Option, none,
  some, List, [], ◌∷◌, length, if◌then◌else◌, ◌==◌, ltb, leb,
}
use osdev_graphical.TextEditor.{TextRegion, text_region_buffer_size}

-- The lines above, from the nearest on, the cursor's line and those below.
pub record Cursor : Type 0 where
  pub above : List (List TextRegion)
  pub line : List TextRegion
  pub below : List (List TextRegion)
  pub region : ℕ
  pub cursor_line : ℕ
  pub cursor_col : ℕ

pub region_at : List TextRegion → ℕ → Option TextRegion
region_at [] k = none
region_at (r ∷ line) zero = some r
region_at (r ∷ line) (suc k) = region_at line k

-- `pos-1`, and whether the byte there is a newline.
pub last_index : TextRegion → ℕ
last_index tr = (tr.pos + (2 ^ 32 - 1)) % 2 ^ 32

pub ends_line : TextRegion → Bool
ends_line tr = tr.buffer (last_index tr) == 10

-- The condition under which the cursor goes to the next line.
pub is_at_end : TextRegion → ℕ → Bool
is_at_end tr cursor_col =
    let at = cursor_col % text_region_buffer_size in
    (at == last_index tr && ends_line tr) || (at == tr.pos && not (ends_line tr))

-- `none` is a read through null.
pub advance_cursor_right : Cursor → Option (Bool × Cursor)
advance_cursor_right c =
    let below : Bool × Cursor = elim c.below [
      | [] ↦ (false, c)
      | l ∷ ls ↦ (
        true,
        record {
          above = c.line ∷ c.above;
          line = l;
          below = ls;
          region = 0;
          cursor_line = c.cursor_line + 1;
          cursor_col = 0;
        },
      )
    ] in
    let next = c.cursor_col + 1 in
    let right : Cursor = record c {
      cursor_col = next;
      region = if next % text_region_buffer_size == 0 then c.region + 1 else c.region;
    } in
    elim (region_at c.line c.region) [
      | none ↦ none
      | some tr ↦ if is_at_end tr c.cursor_col then some below else some (true, right)
    ]

-- The bytes of a line.
pub line_length : List TextRegion → ℕ
line_length [] = 0
line_length (r ∷ line) = r.pos + line_length line

pub advance_cursor_left : Cursor → Bool × Cursor
advance_cursor_left c =
    let left : Cursor = record c {
      cursor_col = c.cursor_col - 1;
      region = if c.cursor_col % text_region_buffer_size == 0 then c.region - 1 else c.region;
    } in
    let up : Bool × Cursor = elim c.above [
      | [] ↦ (false, c)
      | l ∷ ls ↦ (
        true,
        record {
          above = ls;
          line = l;
          below = c.line ∷ c.below;
          region = length l - 1;
          cursor_line = c.cursor_line - 1;
          cursor_col = (line_length l + (2 ^ 32 - 2)) % 2 ^ 32;
        },
      )
    ] in
    if c.cursor_col == 0 then up else (true, left)

-- The loop to the region of a column: its place, `pos_read` with its bytes, and the region.
pub walk : TextRegion → List TextRegion → ℕ → ℕ → ℕ → ℕ × ℕ × TextRegion
walk tr [] k pos_read cursor_col = (k, pos_read + tr.pos, tr)
walk tr (r2 ∷ line) k pos_read cursor_col =
    let rest = walk r2 line (suc k) (pos_read + tr.pos) cursor_col in
    if ltb pos_read cursor_col then rest else (k, pos_read + tr.pos, tr)

-- The column in the line above or below; `pos_read - 2` wraps.
pub fit_column : TextRegion → ℕ → ℕ → ℕ
fit_column tr pos_read cursor_col =
    let before = (pos_read + (2 ^ 32 - 1)) % 2 ^ 32 in
    if ltb pos_read cursor_col
    then (if ends_line tr then before else pos_read)
    else if ltb ((pos_read + (2 ^ 32 - 2)) % 2 ^ 32) cursor_col
    then before
    else cursor_col

-- What both vertical movements do in the other line.
pub enter_line : Cursor → List TextRegion → Cursor
enter_line c [] = c
enter_line c (r ∷ line) =
    let (k, pos_read, tr) = walk r line 0 0 c.cursor_col in
    record c { line = r ∷ line; region = k; cursor_col = fit_column tr pos_read c.cursor_col }

pub advance_cursor_up : Cursor → Bool × Cursor
advance_cursor_up c = elim c.above [
  | [] ↦ (false, c)
  | l ∷ ls ↦ (
    true,
    record (enter_line c l) {
      above = ls;
      below = c.line ∷ c.below;
      cursor_line = c.cursor_line - 1;
    },
  )
]

pub advance_cursor_down : Cursor → Bool × Cursor
advance_cursor_down c = elim c.below [
  | [] ↦ (false, c)
  | l ∷ ls ↦ (
    true,
    record (enter_line c l) {
      above = c.line ∷ c.above;
      below = ls;
      cursor_line = c.cursor_line + 1;
    },
  )
]
