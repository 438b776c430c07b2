-- ===== src/Input/Line/Typed.antt =====
-- The line editor as a line: what is typed is in the buffer, and nothing outside it changes.
use mathlib.Core.Path.{subst}
use osdev_graphical.Base.{
  ℕ, suc, ◌+◌, ◌-◌, ◌^◌, ◌%◌, ◌≤◌, ◌<◌, ◌≡◌, ◌≢◌, refl, arith, ◌∙◌, sym, ap, Bool, true, false,
  Bool-cases, ==_iff, ◌⊎◌, inl, inr, List, [], ◌∷◌, length, if◌then◌else◌, ◌==◌,
}
use osdev_graphical.Input.Line.{
  LineInput, put, clamp_row, clamp_col, finished, keyboard_input, keyboard_input_character,
}

-- A line, its last character first, after a key that is not the newline.
abbrev pub erase : List ℕ → List ℕ
erase [] = []
erase (c ∷ line) = line

abbrev pub edit : ℕ → List ℕ → ℕ → List ℕ
edit limit line c =
    if c == 8 then erase line else if suc (length line) == limit then line else c ∷ line

abbrev pub edits : ℕ → List ℕ → List ℕ → List ℕ
edits limit line [] = line
edits limit line (c ∷ cs) = edits limit (edit limit line c) cs

-- The editor after the keys, one by one.
abbrev pub type_keys : List ℕ → LineInput → LineInput
type_keys [] s = s
type_keys (c ∷ cs) s = type_keys cs (keyboard_input_character c s).1

-- The line's characters stand in memory from `a` on.
abbrev pub Holds : (ℕ → ℕ) → ℕ → List ℕ → Type 0
Holds m a [] = 0 ≤ 0
Holds m a (c ∷ line) = (m (a + length line) ≡ c) × Holds m a line

abbrev pub NoNewline : List ℕ → Type 0
NoNewline [] = 0 ≤ 0
NoNewline (c ∷ cs) = (c ≢ 10) × NoNewline cs

-- The editor stands behind `line`, which its buffer holds and has room for.
pub record IsEditing (s : LineInput) (line : List ℕ) : Type 0 where
  pub limit : s.buffer_limit < 2 ^ 32
  pub room : length line < s.buffer_limit
  pub index : s.buffer_index ≡ length line
  pub held : Holds s.memory s.input_buffer line

-- What no key changes.
abbrev SameBuffer : LineInput → LineInput → Type 0
SameBuffer s s' =
    (s'.input_buffer ≡ s.input_buffer)
    × (s'.buffer_limit ≡ s.buffer_limit)
    × ((b : ℕ)
        → (b < s.input_buffer) ⊎ (s.input_buffer + s.buffer_limit ≤ b)
        → s'.memory b ≡ s.memory b)

put-Holds :
    (m : ℕ → ℕ) (a i c : ℕ) (line : List ℕ)
    → length line ≤ i
    → Holds m a line
    → Holds (put m (a + i) c) a line
unfolding put
put-Holds m a i c [] h l = l
put-Holds m a i c (d ∷ line) h l = (ground (arith, l.0), put-Holds m a i c line (omega arith) l.1)

put-same : (m : ℕ → ℕ) (a c : ℕ) → put m a c a ≡ c
unfolding put
put-same m a c = ground arith

put-other : (m : ℕ → ℕ) (a c b : ℕ) → b ≢ a → put m a c b ≡ m b
unfolding put
put-other m a c b h = ground arith

-- What a key does to the editor and its buffer.
KeyLaw : LineInput → List ℕ → LineInput → Type 0
KeyLaw s line s' = IsEditing s' line × SameBuffer s s'

stays : (s : LineInput) (line : List ℕ) → IsEditing s line → KeyLaw s line s
unfolding KeyLaw
stays s line e = (e, (refl, refl, λ b h. refl))

erase_lem :
    (s : LineInput) (line : List ℕ)
    → IsEditing s line
    → KeyLaw s (erase line) (keyboard_input_character 8 s).1
unfolding keyboard_input_character KeyLaw
erase_lem s [] e =
    let none_left : (s.buffer_index == 0) ≡ true = ground (arith, e.index) in
    rw none_left (stays s [] e)
erase_lem s (c ∷ line) e =
    let some_left : (s.buffer_index == 0) ≡ false = ground (arith, e.index) in
    rw some_left (
      record {
        limit = e.limit;
        room = omega (arith, e.room);
        index = omega (arith, e.index);
        held = e.held.1;
      },
      (refl, refl, λ b h. refl),
    )

full :
    (s : LineInput)
    → 1 ≤ s.buffer_limit
    → s.buffer_limit < 2 ^ 32
    → (s.buffer_limit + (2 ^ 32 - 1)) % 2 ^ 32 ≡ s.buffer_limit - 1
full s h l = omega arith

letter_lem :
    (s : LineInput) (line : List ℕ) (c : ℕ)
    → IsEditing s line
    → (c == 8) ≡ false
    → (c == 10) ≡ false
    → KeyLaw s
        (if suc (length line) == s.buffer_limit then line else c ∷ line)
        (keyboard_input_character c s).1
unfolding keyboard_input_character KeyLaw
letter_lem s line c e n8 n10 = elim (Bool-cases (suc (length line) == s.buffer_limit)) [
  | inl f ↦
      let last : (s.buffer_index == (s.buffer_limit + (2 ^ 32 - 1)) % 2 ^ 32) ≡ true =
        ground (arith, e.index, full s (omega (arith, e.room)) e.limit) in
      rw (n8, n10, f, last) (stays s line e)
  | inr f ↦
      let last : (s.buffer_index == (s.buffer_limit + (2 ^ 32 - 1)) % 2 ^ 32) ≡ false =
        ground (arith, e.index, full s (omega (arith, e.room)) e.limit, e.room) in
      rw (n8, n10, f, last)
        (
          record {
            limit = e.limit;
            room = ground (arith, e.room);
            index = omega (arith, e.index);
            held = (
              ap (put s.memory (s.input_buffer + s.buffer_index) c) (omega (arith, e.index))
                  ∙ put-same s.memory (s.input_buffer + s.buffer_index) c,
              put-Holds s.memory s.input_buffer s.buffer_index c line (omega (arith, e.index))
                  e.held,
            );
          },
          (
            refl,
            refl,
            λ b h. put-other s.memory (s.input_buffer + s.buffer_index) c b (λ q. elim h [
              | inl l ↦ absurd (omega (arith, q))
              | inr l ↦ absurd (omega (arith, q, e.index, e.room))
            ]),
          ),
        )
]

key_lem :
    (s : LineInput) (line : List ℕ) (c : ℕ)
    → IsEditing s line
    → c ≢ 10
    → KeyLaw s (edit s.buffer_limit line c) (keyboard_input_character c s).1
key_lem s line c e n = elim (Bool-cases (c == 8)) [
  | inl b ↦
      subst (λ k. KeyLaw s (edit s.buffer_limit line k) (keyboard_input_character k s).1)
        (sym ((==_iff c 8).0 b)) (erase_lem s line e)
  | inr b ↦ rw b (letter_lem s line c e b (ground arith))
]

keys_lem :
    (cs : List ℕ) (s : LineInput) (line : List ℕ)
    → IsEditing s line
    → NoNewline cs
    → KeyLaw s (edits s.buffer_limit line cs) (type_keys cs s)
unfolding KeyLaw
keys_lem [] s line e n = stays s line e
keys_lem (c ∷ cs) s line e n =
    let s1 = (keyboard_input_character c s).1 in
    let (e1, (b1, l1, m1)) = key_lem s line c e n.0 in
    let (e2, (b2, l2, m2)) = keys_lem cs s1 (edit s.buffer_limit line c) e1 n.1 in
    (
      subst (λ l. IsEditing (type_keys cs s1) (edits l (edit s.buffer_limit line c) cs)) l1 e2,
      (b2 ∙ b1, l2 ∙ l1, λ b h. m2 b (rw (b1, l1) h) ∙ m1 b h),
    )

-- Enter, on an editor behind `line`.
newline_lem :
    (s : LineInput) (line : List ℕ)
    → IsEditing s line
    → let (r, s') = keyboard_input_character 10 s in
      (r ≡ finished)
      × (s'.taking_input ≡ false)
      × Holds s'.memory s.input_buffer line
      × (s'.memory (s.input_buffer + length line) ≡ 0)
      × ((b : ℕ)
          → (b < s.input_buffer) ⊎ (s.input_buffer + s.buffer_limit ≤ b)
          → s'.memory b ≡ s.memory b)
unfolding keyboard_input_character
newline_lem s line e = (
  refl,
  refl,
  put-Holds s.memory s.input_buffer s.buffer_index 0 line (omega (arith, e.index)) e.held,
  ap (put s.memory (s.input_buffer + s.buffer_index) 0) (omega (arith, e.index))
      ∙ put-same s.memory (s.input_buffer + s.buffer_index) 0,
  λ b h. put-other s.memory (s.input_buffer + s.buffer_index) 0 b (λ q. elim h [
    | inl l ↦ absurd (omega (arith, q))
    | inr l ↦ absurd (omega (arith, q, e.index, e.room))
  ]),
)

-- The keys, then Enter, on the editor `start`; `before` is the editor that `start` came from.
abbrev pub LineLaw : LineInput → ℕ → ℕ → List ℕ → LineInput → Type 0
LineLaw before buffer bf_size keys start =
    let line = edits bf_size [] keys in
    let (r, s') = keyboard_input_character 10 (type_keys keys start) in
    (r ≡ finished)
    × (s'.taking_input ≡ false)
    × (length line < bf_size)
    × Holds s'.memory buffer line
    × (s'.memory (buffer + length line) ≡ 0)
    × ((b : ℕ) → (b < buffer) ⊎ (buffer + bf_size ≤ b) → s'.memory b ≡ before.memory b)

line_lem :
    (s : LineInput) (keys : List ℕ)
    → IsEditing s []
    → NoNewline keys
    → LineLaw s s.input_buffer s.buffer_limit keys s
unfolding KeyLaw
line_lem s keys e n =
    let (e1, (b1, l1, m1)) = keys_lem keys s [] e n in
    let (r, i, w, z, m2) = newline_lem (type_keys keys s) (edits s.buffer_limit [] keys) e1 in
    let room = e1.room in
    (r, i, rw l1 at room, rw b1 at w, rw b1 at z, λ b q. m2 b (rw (b1, l1) q) ∙ m1 b q)

-- When no character is waited for, and the size is positive, an input of a line ends with Enter: the
-- keys that are not newlines, with erasures and with those refused for want of room taken account of,
-- stand in the buffer as a string with its closing zero, shorter than the size, and no byte outside
-- the buffer has changed.
pub keyboard_input-LineLaw :
    (s : LineInput) (cursor : ℕ × ℕ) (row col buffer bf_size : ℕ) (keys : List ℕ)
    → s.taking_char ≡ false
    → 1 ≤ bf_size
    → bf_size < 2 ^ 32
    → NoNewline keys
    → LineLaw s buffer bf_size keys (keyboard_input cursor row col buffer bf_size s)
unfolding keyboard_input
keyboard_input-LineLaw s cursor row col buffer bf_size keys t h l n =
    let s0 : LineInput = record s {
      taking_input = true;
      cursor_input_row = clamp_row cursor.0 row;
      cursor_input_col = clamp_col cursor.1 col;
      buffer_index = 0;
      buffer_limit = bf_size;
      input_buffer = buffer;
    } in
    subst (LineLaw s buffer bf_size keys) (sym (ap (λ (b : Bool). if b then s else s0) t)) (
      line_lem s0 keys (record { limit = l; room = omega arith; index = refl; held = omega arith })
        n)
