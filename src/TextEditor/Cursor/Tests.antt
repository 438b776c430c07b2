-- ===== src/TextEditor/Cursor/Tests.antt =====
-- root/bin/tedit.c: the cursor in a line of 127 bytes.
use osdev_graphical.Base.{ℕ, ◌≡◌, ◌≢◌, refl, arith, true, none, some, List, [], ◌∷◌}
use osdev_graphical.TextEditor.{
  TextRegion, append_at_position, with_room, shift_line, shift_up, grow_last, put,
}
use osdev_graphical.TextEditor.Cursor.{
  Cursor, region_at, last_index, ends_line, is_at_end, line_length, advance_cursor_right,
  advance_cursor_left,
}
use osdev_graphical.TextEditor.Cursor.Sideways.{advance_cursor_right-left}

-- A line of the bytes 0 to 126, without a newline but that of number 10.
abbrev most_full : TextRegion
most_full = record { buffer = λ i. i; pos = 127 }

abbrev a_cursor : ℕ → List TextRegion → Cursor
a_cursor col line = record {
  above = [];
  line = line;
  below = [];
  region = 0;
  cursor_line = 0;
  cursor_col = col;
}

advance_cursor_right-left_example :
    (advance_cursor_right (a_cursor 5 (most_full ∷ [])) ≡ some (true, a_cursor 6 (most_full ∷ [])))
    × (region_at (most_full ∷ []) 0 ≢ none)
    × (advance_cursor_left (a_cursor 6 (most_full ∷ [])) ≡ (true, a_cursor 5 (most_full ∷ [])))
unfolding region_at line_length
advance_cursor_right-left_example =
    advance_cursor_right-left (a_cursor 5 (most_full ∷ [])) most_full [] most_full refl
      (omega arith) refl refl (omega arith) (omega arith)

-- A character typed behind 127 others, and two steps to the right: the second reads through null.
typed_128 :
    (advance_cursor_right (a_cursor 127 (append_at_position (most_full ∷ []) 127 33))
      ≡ some
          (true, record (a_cursor 128 (append_at_position (most_full ∷ []) 127 33)) { region = 1 }))
    × (advance_cursor_right
          (record (a_cursor 128 (append_at_position (most_full ∷ []) 127 33)) { region = 1 })
        ≡ none)
unfolding advance_cursor_right region_at is_at_end ends_line last_index append_at_position with_room
    shift_line shift_up grow_last put
typed_128 = (refl, refl)
