-- ===== src/TextEditor/Remove/Delete.antt =====
-- A byte that is removed is taken out of the text of the line.
use osdev_graphical.Base.{
  ℕ, zero, suc, ◌+◌, ◌-◌, ◌%◌, ◌≤◌, ◌<◌, ◌≡◌, refl, arith, ◌∙◌, sym, ap, ap₂, Bool, true, false,
  Option, none, some, List, [], ◌∷◌, ◌++◌, length, ◌==◌, ltb, leb, ◌&&◌,
}
use osdev_graphical.TextEditor.{TextRegion, bytes_from, region_bytes, line_bytes}
use osdev_graphical.TextEditor.File.{bytes_from-last, append_empty, append_assoc}
use osdev_graphical.TextEditor.Insert.{IsChain, bytes-length}
use osdev_graphical.TextEditor.Remove.{shift_down, shift_regions, shrink_last, remove_at_position}
use osdev_graphical.TextEditor.Remove.Lower.{lowered, end_byte, shift_down-lowered, shift_down-pos}

-- A list without its element number `k`.
abbrev pub delete_at : ℕ → List ℕ → List ℕ
delete_at k [] = []
delete_at zero (x ∷ l) = l
delete_at (suc k) (x ∷ l) = x ∷ delete_at k l

-- A buffer whose later bytes stand one lower reads as the bytes without one.
bytes_from-delete :
    (b b' : ℕ → ℕ) (i k n : ℕ)
    → k ≤ n
    → ((j : ℕ) → i ≤ j → j < i + k → b' j ≡ b j)
    → ((j : ℕ) → i + k ≤ j → j < i + n → b' j ≡ b (suc j))
    → bytes_from b' i n ≡ delete_at k (bytes_from b i (suc n))
unfolding bytes_from
bytes_from-delete b b' i zero zero h low high = refl
bytes_from-delete b b' i zero (suc n) h low high =
    ap₂ (λ (x : ℕ) (l : List ℕ). x ∷ l) (high i (omega arith) (omega arith))
      (bytes_from-delete (λ j. b j) b' (suc i) zero n (omega arith) (λ j l u. absurd (omega arith))
        (λ j l u. high j (omega arith) (omega arith)))
bytes_from-delete b b' i (suc k) zero h low high = absurd (omega arith)
bytes_from-delete b b' i (suc k) (suc n) h low high =
    ap₂ (λ (x : ℕ) (l : List ℕ). x ∷ l) (low i (omega arith) (omega arith))
      (bytes_from-delete b b' (suc i) k n (omega arith) (λ j l u. low j (omega arith) (omega arith))
        (λ j l u. high j (omega arith) (omega arith)))

delete_at-append : (k : ℕ) (l m : List ℕ) → k < length l → delete_at k (l ++ m) ≡ delete_at k l ++ m
delete_at-append k [] m h = absurd (omega arith)
delete_at-append zero (x ∷ l) m h = refl
delete_at-append (suc k) (x ∷ l) m h =
    ap (λ (t : List ℕ). x ∷ t) (delete_at-append k l m (omega arith))

first_byte :
    (b : ℕ → ℕ) (n : ℕ) (m : List ℕ)
    → 1 ≤ n
    → bytes_from b 0 n ++ m ≡ b 0 ∷ delete_at 0 (bytes_from b 0 n ++ m)
unfolding bytes_from
first_byte b zero m h = absurd (omega arith)
first_byte b (suc n) m h = refl

-- A region after its loop, without its last byte, and that byte.
shifted_region :
    (next : Option TextRegion) (r : TextRegion) (k n : ℕ)
    → r.pos ≡ suc n
    → k ≤ n
    → n ≤ 127
    → (bytes_from (shift_down next k (r.pos - k) r).buffer 0 n ≡ delete_at k (region_bytes r))
      × ((shift_down next k (r.pos - k) r).pos ≡ r.pos)
      × (n ≡ 127 → (shift_down next k (r.pos - k) r).buffer n ≡ end_byte next r)
unfolding region_bytes
shifted_region next r k n size h top =
    let (bytes, same) = shift_down-lowered next (r.pos - k) k r (omega arith) in
    (
      bytes_from-delete r.buffer (shift_down next k (r.pos - k) r).buffer 0 k n h
            (λ j l u. bytes j ∙ ground arith) (λ j l u. bytes j ∙ moved j l u)
          ∙ ap (λ (m : ℕ). delete_at k (bytes_from r.buffer 0 m)) (sym size),
      same,
      λ e. bytes n ∙ last e,
    )
  where
    moved :
        (j : ℕ)
        → 0 + k ≤ j
        → j < 0 + n
        → lowered (end_byte next r) k (r.pos - k) r.buffer j ≡ r.buffer (suc j)
    moved j l u =
        let within : (leb k j && ltb j (k + (r.pos - k))) ≡ true = ground arith in
        let inner : ltb (j + 1) 128 ≡ true = ground arith in
        let up : j + 1 ≡ suc j = omega arith in rw (within, inner) (ap r.buffer up)

    last : n ≡ 127 → lowered (end_byte next r) k (r.pos - k) r.buffer n ≡ end_byte next r
    last e =
        let within : (leb k n && ltb n (k + (r.pos - k))) ≡ true = ground arith in
        let outside : ltb (n + 1) 128 ≡ false = ground arith in rw (within, outside) refl

-- The last region has a byte.
abbrev pub IsFilled : List TextRegion → Type 0
IsFilled [] = 1 ≤ 0
IsFilled (r ∷ []) = 1 ≤ r.pos
IsFilled (r ∷ r2 ∷ line) = IsFilled (r2 ∷ line)

has_byte :
    (r : TextRegion) (line : List TextRegion)
    → IsChain 128 (r ∷ line)
    → IsFilled (r ∷ line)
    → 1 ≤ r.pos
has_byte r [] c f = f
has_byte r (r2 ∷ line) c f = omega (arith, c.0)

shrink_last-cons :
    (has_prev : Bool) (r1 : TextRegion) (k : ℕ) (r2 : TextRegion) (line : List TextRegion)
    → (shrink_last has_prev (r1 ∷ shift_regions k (r2 ∷ line))).1
      ≡ r1 ∷ (shrink_last true (shift_regions k (r2 ∷ line))).1
unfolding shrink_last shift_regions
shrink_last-cons has_prev r1 k r2 [] = refl
shrink_last-cons has_prev r1 k r2 (r3 ∷ line) = refl

-- The only region from the cursor's on.
delete_last :
    (has_prev : Bool) (r : TextRegion) (k n : ℕ)
    → r.pos ≡ suc n
    → k ≤ n
    → n ≤ 127
    → line_bytes (shrink_last has_prev (shift_regions k (r ∷ []))).1
      ≡ delete_at k (line_bytes (r ∷ []))
unfolding shrink_last shift_regions line_bytes region_bytes
delete_last has_prev r k n size h top =
    let (bytes, same, moved) = shifted_region none r k n size h top in
    let some_left : ((shift_down none k (r.pos - k) r).pos == 0) ≡ false =
      ground (arith, same, size) in
    let fewer : (shift_down none k (r.pos - k) r).pos - 1 ≡ n = omega (arith, same, size) in
    rw some_left (
      append_empty _
      ∙ ap (bytes_from (shift_down none k (r.pos - k) r).buffer 0) fewer
      ∙ bytes
      ∙ ap (delete_at k) (sym (append_empty (region_bytes r))))

-- A region that is full, before others that have lost their first byte.
delete_full :
    (r r2 : TextRegion) (line : List TextRegion) (k : ℕ) (rest : List TextRegion)
    → r.pos ≡ 128
    → k < 128
    → 1 ≤ r2.pos
    → line_bytes rest ≡ delete_at 0 (line_bytes (r2 ∷ line))
    → line_bytes (shift_down (some r2) k (r.pos - k) r ∷ rest)
      ≡ delete_at k (line_bytes (r ∷ r2 ∷ line))
unfolding line_bytes region_bytes
delete_full r r2 line k rest size h filled same_rest =
    let (bytes, same, moved) = shifted_region (some r2) r k 127 size (omega arith) (omega arith) in
    let r1 = shift_down (some r2) k (r.pos - k) r in
    ap (λ (m : ℕ). bytes_from r1.buffer 0 m ++ line_bytes rest) (same ∙ size)
    ∙ ap (λ (l : List ℕ). l ++ line_bytes rest) (bytes_from-last r1.buffer 0 127)
    ∙ append_assoc (bytes_from r1.buffer 0 127) (r1.buffer 127 ∷ []) (line_bytes rest)
    ∙ ap₂ (λ (l m : List ℕ). l ++ m) bytes
        (ap₂ (λ (x : ℕ) (l : List ℕ). x ∷ l) (moved refl) same_rest
          ∙ sym (first_byte r2.buffer r2.pos (line_bytes line) filled))
    ∙ sym (
        delete_at-append k (region_bytes r) (line_bytes (r2 ∷ line))
          (omega (arith, bytes-length r.buffer 0 r.pos)))

delete_regions :
    (has_prev : Bool) (r : TextRegion) (line : List TextRegion) (k : ℕ)
    → IsChain 128 (r ∷ line)
    → IsFilled (r ∷ line)
    → k < r.pos
    → line_bytes (shrink_last has_prev (shift_regions k (r ∷ line))).1
      ≡ delete_at k (line_bytes (r ∷ line))
unfolding shift_regions
delete_regions has_prev r [] k chain filled h =
    delete_last has_prev r k (r.pos - 1) (omega arith) (omega arith) (omega (arith, chain))
delete_regions has_prev r (r2 ∷ line) k chain filled h =
    let next : 1 ≤ r2.pos = has_byte r2 line chain.1 filled in
    ap line_bytes (shrink_last-cons has_prev (shift_down (some r2) k (r.pos - k) r) 0 r2 line)
    ∙ delete_full r r2 line k (shrink_last true (shift_regions 0 (r2 ∷ line))).1 chain.0
        (omega (arith, chain.0, h)) next
        (delete_regions true r2 line 0 chain.1 filled (omega (arith, next)))

delete_done :
    (has_prev : Bool) (r : TextRegion) (line : List TextRegion) (k : ℕ)
    → IsFilled (r ∷ line)
    → (shrink_last has_prev (shift_regions k (r ∷ line))).0 ≡ true
unfolding shrink_last shift_regions
delete_done has_prev r [] k filled =
    let same = (shift_down-pos none (r.pos - k) k r) in
    let some_left : ((shift_down none k (r.pos - k) r).pos == 0) ≡ false =
      ground (arith, same, filled) in
    rw some_left refl
delete_done has_prev r (r2 ∷ []) k filled = delete_done true r2 [] 0 filled
delete_done has_prev r (r2 ∷ r3 ∷ line) k filled = delete_done true r2 (r3 ∷ line) 0 filled

-- In a line whose regions are full but the last, which has at least one byte, a removal behind the first
-- column succeeds, and takes the byte before the cursor out of the text from the cursor's region on,
-- where the cursor's column in that region is not 0 and not behind its bytes.
pub remove_at_position-delete_at :
    (has_prev : Bool) (r : TextRegion) (line : List TextRegion) (cursor_col : ℕ)
    → IsChain 128 (r ∷ line)
    → IsFilled (r ∷ line)
    → 1 ≤ cursor_col % 128
    → cursor_col % 128 ≤ r.pos
    → ((remove_at_position has_prev (r ∷ line) cursor_col).0 ≡ true)
      × (line_bytes (remove_at_position has_prev (r ∷ line) cursor_col).1
          ≡ delete_at (cursor_col % 128 - 1) (line_bytes (r ∷ line)))
unfolding remove_at_position
remove_at_position-delete_at has_prev r line cursor_col chain filled h l =
    let column : (cursor_col - 1) % 128 ≡ cursor_col % 128 - 1 = omega arith in
    (
      delete_done has_prev r line ((cursor_col - 1) % 128) filled,
      delete_regions has_prev r line ((cursor_col - 1) % 128) chain filled (omega arith)
          ∙ ap (λ (k : ℕ). delete_at k (line_bytes (r ∷ line))) column,
    )
