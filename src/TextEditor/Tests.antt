-- ===== src/TextEditor/Tests.antt =====
-- root/bin/tedit.c on a file of two lines, and on a line that is full.
use osdev_graphical.Base.{ℕ, refl, true, false, ◌≡◌, arith, [], ◌∷◌}
use osdev_graphical.TextEditor.{
  Read, TextRegion, load_file, line_bytes, write_file, append_at_position,
}
use osdev_graphical.TextEditor.File.{write_file-load_file}
use osdev_graphical.TextEditor.Shift.{insert_at}
use osdev_graphical.TextEditor.Insert.{IsChain}
use osdev_graphical.TextEditor.Remove.{remove_at_position}
use osdev_graphical.TextEditor.Remove.Delete.{delete_at, remove_at_position-delete_at}
use osdev_graphical.TextEditor.Append.{append_at_position-insert_at}

abbrev gives : ℕ → ℕ → Read
gives byte answer = record { c = byte; result = answer }

write_file-load_file_example :
    write_file (load_file (gives 97 1 ∷ gives 10 1 ∷ gives 98 1 ∷ gives 99 0 ∷ []))
    ≡ 97 ∷ 10 ∷ 98 ∷ []
write_file-load_file_example =
    write_file-load_file (gives 97 1 ∷ gives 10 1 ∷ gives 98 1 ∷ gives 99 0 ∷ [])

abbrev full : TextRegion
full = record { buffer = λ i. i; pos = 128 }

append_at_position-insert_at_example :
    (line_bytes (append_at_position (full ∷ []) 5 33) ≡ insert_at 5 33 (line_bytes (full ∷ [])))
    × IsChain 128 (append_at_position (full ∷ []) 5 33)
append_at_position-insert_at_example =
    append_at_position-insert_at full [] 5 33 (omega arith) (omega arith)

abbrev two_bytes : TextRegion
two_bytes = record { buffer = λ i. i; pos = 2 }

remove_at_position-delete_at_example :
    ((remove_at_position false (full ∷ two_bytes ∷ []) 5).0 ≡ true)
    × (line_bytes (remove_at_position false (full ∷ two_bytes ∷ []) 5).1
        ≡ delete_at 4 (line_bytes (full ∷ two_bytes ∷ [])))
remove_at_position-delete_at_example =
    remove_at_position-delete_at false full (two_bytes ∷ []) 5 (refl, omega arith) (omega arith)
      (omega arith) (omega arith)
