-- ===== src/TextEditor/Append.antt =====
-- A character that is typed is inserted in the text of the line.
use mathlib.Core.Path.{subst}
use osdev_graphical.Base.{
  ℕ, ◌-◌, ◌%◌, ◌≤◌, ◌≡◌, refl, arith, ◌∙◌, sym, ap, Bool-cases, inl, inr, List, [], ◌∷◌, ◌++◌, ◌==◌,
}
use osdev_graphical.TextEditor.{
  TextRegion, alloc_text_region, put, bytes_from, region_bytes, line_bytes, shift_up, with_room,
  shift_line, grow_last, append_at_position,
}
use osdev_graphical.TextEditor.File.{append_empty, append_assoc}
use osdev_graphical.TextEditor.Shift.{insert_at}
use osdev_graphical.TextEditor.Insert.{
  IsChain, bytes-length, insert_at-append, last_region, full_region,
}

-- The line after `c` is put where the loops have made room.
record IsInserted (from c : ℕ) (line : List TextRegion) : Type 0 where
  first : TextRegion
  behind : List TextRegion
  shifted_line : shift_line from line ≡ first ∷ behind
  text : line_bytes (grow_last (put first from c ∷ behind)) ≡ insert_at from c (line_bytes line)
  chain : IsChain 128 (grow_last (put first from c ∷ behind))

IsChain-cons :
    (most : ℕ) (r : TextRegion) (line : List TextRegion)
    → r.pos ≡ 128
    → IsChain most line
    → IsChain most (r ∷ line)
IsChain-cons most r [] h c = absurd (omega arith)
IsChain-cons most r (r2 ∷ line) h c = (h, c)

insert_lem :
    (line : List TextRegion) (r : TextRegion) (from c : ℕ)
    → IsChain 127 (r ∷ line)
    → from ≤ r.pos
    → from ≤ 127
    → IsInserted from c (r ∷ line)
unfolding shift_line line_bytes grow_last put region_bytes
insert_lem [] r from c h l l' =
    let (bytes, size) = last_region r alloc_text_region from c h l in
    record {
      first = (shift_up from (r.pos - from) (r, alloc_text_region)).0;
      behind = [];
      shifted_line = refl;
      text = append_empty _ ∙ bytes ∙ ap (insert_at from c) (sym (append_empty (region_bytes r)));
      chain = omega (arith, size, h);
    }
insert_lem (r2 ∷ line) r from c h l l' =
    let w = insert_lem line r2 0 (r.buffer 127) h.1 (omega arith) (omega arith) in
    let (bytes, size, next) = full_region r w.first from c h.0 l' in
    let moved = shift_up from (r.pos - from) (r, w.first) in
    record {
      first = moved.0;
      behind = moved.1 ∷ w.behind;
      shifted_line = rw (shift_line, w.shifted_line) refl;
      text =
          ap
            (λ (n : TextRegion).
              region_bytes (put moved.0 from c) ++ line_bytes (grow_last (n ∷ w.behind)))
            next
          ∙ ap (λ (t : List ℕ). region_bytes (put moved.0 from c) ++ t) w.text
          ∙ sym (
              append_assoc (region_bytes (put moved.0 from c)) (r.buffer 127 ∷ [])
                (line_bytes (r2 ∷ line)))
          ∙ ap (λ (t : List ℕ). t ++ line_bytes (r2 ∷ line)) bytes
          ∙ sym (
              insert_at-append from c (region_bytes r) (line_bytes (r2 ∷ line))
                (omega (arith, l, bytes-length r.buffer 0 r.pos)));
      chain =
          IsChain-cons 128 (put moved.0 from c) (grow_last (moved.1 ∷ w.behind)) size
            (subst (λ (n : TextRegion). IsChain 128 (grow_last (n ∷ w.behind))) (sym next) w.chain);
    }

-- The line with room for a character in its last region.
record HasRoom (r : TextRegion) (line : List TextRegion) : Type 0 where
  roomy : List TextRegion
  is_roomy : with_room (r ∷ line) ≡ r ∷ roomy
  same : line_bytes (r ∷ roomy) ≡ line_bytes (r ∷ line)
  room : IsChain 127 (r ∷ roomy)

with_room_lem : (line : List TextRegion) (r : TextRegion) → IsChain 128 (r ∷ line) → HasRoom r line
unfolding with_room line_bytes alloc_text_region region_bytes bytes_from
with_room_lem [] r h = elim (Bool-cases (r.pos == 128)) [
  | inl f ↦ record {
    roomy = alloc_text_region ∷ [];
    is_roomy = rw f refl;
    same = refl;
    room = (ground arith, omega arith);
  }
  | inr f ↦ record { roomy = []; is_roomy = rw f refl; same = refl; room = ground arith }
]
with_room_lem (r2 ∷ line) r h =
    let w = with_room_lem line r2 h.1 in
    record {
      roomy = r2 ∷ w.roomy;
      is_roomy = ap (λ (t : List TextRegion). r ∷ t) w.is_roomy;
      same = ap (λ (t : List ℕ). region_bytes r ++ t) w.same;
      room = (h.0, w.room);
    }

-- In a line of full regions but for the last, a character that is neither a newline nor a backspace is
-- inserted before the cursor's place in the text from the cursor's region on, whatever bytes the
-- buffers hold beyond their ends, and the line is again one of full regions but for the last.
pub append_at_position-insert_at :
    (r : TextRegion) (line : List TextRegion) (cursor_col c : ℕ)
    → IsChain 128 (r ∷ line)
    → cursor_col % 128 ≤ r.pos
    → (line_bytes (append_at_position (r ∷ line) cursor_col c)
        ≡ insert_at (cursor_col % 128) c (line_bytes (r ∷ line)))
      × IsChain 128 (append_at_position (r ∷ line) cursor_col c)
unfolding append_at_position
append_at_position-insert_at r line cursor_col c h l =
    let a = with_room_lem line r h in
    let w = insert_lem a.roomy r (cursor_col % 128) c a.room l (omega arith) in
    rw (append_at_position, a.is_roomy, w.shifted_line)
      (w.text ∙ ap (insert_at (cursor_col % 128) c) a.same, w.chain)
