-- ===== src/TextEditor/Cursor/Sideways.antt =====
-- A step to the right inside a line, and back.
use osdev_graphical.Base.{
  ℕ, zero, suc, ◌+◌, ◌-◌, ◌*◌, ◌/◌, ◌%◌, ◌^◌, ◌≤◌, ◌<◌, ◌≡◌, ◌≢◌, refl, arith, ◌∙◌, sym, ap, ap₂,
  Bool-cases, ==_iff, true, false, inl, inr, none, some, List, [], ◌∷◌, if◌then◌else◌, ◌==◌,
}
use osdev_graphical.TextEditor.{TextRegion}
use osdev_graphical.TextEditor.Insert.{IsChain}
use osdev_graphical.TextEditor.Cursor.{
  Cursor, region_at, last_index, ends_line, is_at_end, line_length, advance_cursor_right,
  advance_cursor_left,
}

-- The region with place `k * 128 + at` of the line.
record IsFound (line : List TextRegion) (k at : ℕ) : Type 0 where
  found : TextRegion
  is_found : region_at line k ≡ some found
  room : found.pos ≤ 128
  inside : k * 128 + at < line_length line → at < found.pos

find_lem :
    (line : List TextRegion) (r : TextRegion) (k at : ℕ)
    → IsChain 127 (r ∷ line)
    → at < 128
    → k * 128 + at ≤ line_length (r ∷ line)
    → IsFound (r ∷ line) k at
unfolding region_at line_length
find_lem [] r zero at h l m = record {
  found = r;
  is_found = refl;
  room = omega arith;
  inside = λ u. omega arith;
}
find_lem [] r (suc k) at h l m = absurd (omega arith)
find_lem (r2 ∷ line) r zero at h l m = record {
  found = r;
  is_found = refl;
  room = omega (arith, h.0);
  inside = λ u. omega (arith, h.0);
}
find_lem (r2 ∷ line) r (suc k) at h l m =
    let w = find_lem line r2 k at h.1 l (omega (arith, h.0)) in
    record {
      found = w.found;
      is_found = w.is_found;
      room = w.room;
      inside = λ u. w.inside (omega (arith, h.0));
    }

-- The test for the line's end fails at a byte that is no newline.
not_at_end :
    (tr : TextRegion) (col : ℕ)
    → tr.pos ≤ 128
    → col % 128 < tr.pos
    → tr.buffer (col % 128) ≢ 10
    → is_at_end tr col ≡ false
unfolding is_at_end ends_line last_index
not_at_end tr col h l n =
    let other : (col % 128 == tr.pos) ≡ false = ground arith in
    elim (Bool-cases (col % 128 == (tr.pos + (2 ^ 32 - 1)) % 2 ^ 32)) [
      | inl e ↦
          let same = ap tr.buffer ((==_iff (col % 128) ((tr.pos + (2 ^ 32 - 1)) % 2 ^ 32)).0 e) in
          let letter : (tr.buffer ((tr.pos + (2 ^ 32 - 1)) % 2 ^ 32) == 10) ≡ false =
            ground (arith, same, n) in
          rw (is_at_end, e, letter, other) refl
      | inr e ↦ rw (is_at_end, e, other) refl
    ]

-- In a line of full regions but for the last, which has room, with the cursor's region that of its
-- column: at a byte of the line that is no newline, `advance_cursor_right` goes one column on, its
-- region is again that of the column and not null, and `advance_cursor_left` goes back to where the
-- cursor was.
pub advance_cursor_right-left :
    (c : Cursor) (r : TextRegion) (line : List TextRegion) (tr : TextRegion)
    → c.line ≡ r ∷ line
    → IsChain 127 (r ∷ line)
    → c.region ≡ c.cursor_col / 128
    → region_at c.line c.region ≡ some tr
    → c.cursor_col < line_length c.line
    → tr.buffer (c.cursor_col % 128) ≢ 10
    → let c' : Cursor = record c {
      region = (c.cursor_col + 1) / 128;
      cursor_col = c.cursor_col + 1;
    } in
      (advance_cursor_right c ≡ some (true, c'))
      × (region_at c'.line c'.region ≢ none)
      × (advance_cursor_left c' ≡ (true, c))
unfolding advance_cursor_right advance_cursor_left
advance_cursor_right-left c r line tr hl hc hr ht u n =
    let col = c.cursor_col in
    let len = ap line_length hl in
    let w = find_lem line r (col / 128) (col % 128) hc (omega arith) (omega (arith, u, len)) in
    let w' =
      find_lem line r ((col + 1) / 128) ((col + 1) % 128) hc (omega arith)
        (omega (arith, u, len)) in
    let at_place : region_at c.line c.region ≡ region_at (r ∷ line) (col / 128) =
      ap₂ region_at hl hr in
    let same : w.found ≡ tr = cc (sym at_place ∙ ht, w.is_found) in
    let size = ap (λ (t : TextRegion). t.pos) same in
    let in_region = w.inside (omega (arith, u, len)) in
    let going : is_at_end tr col ≡ false =
      not_at_end tr col (omega (arith, size, w.room)) (omega (arith, size, in_region)) n in
    let there : region_at c.line ((col + 1) / 128) ≡ some w'.found =
      ap (λ (l : List TextRegion). region_at l ((col + 1) / 128)) hl ∙ w'.is_found in
    let on : (if (col + 1) % 128 == 0 then c.region + 1 else c.region) ≡ (col + 1) / 128 =
      ground (arith, hr) in
    let back : (if (col + 1) % 128 == 0 then (col + 1) / 128 - 1 else (col + 1) / 128) ≡ c.region =
      ground (arith, hr) in
    let column : col + 1 - 1 ≡ col = omega arith in
    let inner : (col + 1 == 0) ≡ false = ground arith in
    (
      rw (advance_cursor_right, ht, going) (ap (λ (k : ℕ). some (true, moved k (col + 1))) on),
      λ e. cc (e, there),
      rw (advance_cursor_left, inner) (ap₂ (λ (k j : ℕ). (true, moved k j)) back column),
    )
  where
    moved : ℕ → ℕ → Cursor
    moved k j = record c { region = k; cursor_col = j }
