-- ===== src/TextEditor.antt =====
-- root/bin/tedit.c: the text of the editor, a list of lines, each a chain of regions of 128 bytes. A
-- region is its buffer and `pos`, the number of its bytes in use. The links and the line numbers are
-- the places in the lists, and an address of a region is its place in its line. The display is output
-- and is left out.
pub mod File
pub mod Shift
pub mod Insert
pub mod Append
pub mod Cursor
pub mod Remove
mod Tests
use osdev_graphical.Base.{
  ℕ, zero, suc, ◌+◌, ◌-◌, ◌*◌, ◌/◌, ◌%◌, ◌^◌, Bool, true, false, not, ◌&&◌, ◌||◌, Option, none,
  some, List, [], ◌∷◌, ◌++◌, if◌then◌else◌, ◌==◌, ltb, leb, map,
}

abbrev pub text_region_buffer_size : ℕ
text_region_buffer_size = 128

pub record TextRegion : Type 0 where
  pub buffer : ℕ → ℕ
  pub pos : ℕ

-- `calloc`
pub alloc_text_region : TextRegion
alloc_text_region = record { buffer = λ i. 0; pos = 0 }

-- `buffer[i] = c`
pub put : TextRegion → ℕ → ℕ → TextRegion
put r i c = record r { buffer = λ j. if j == i then c else r.buffer j }

-- The last region of the line gets a character at its end, and a region behind it once it is full.
pub push : List TextRegion → ℕ → List TextRegion
push [] c = []
push (r ∷ []) c =
    let r' = record (put r r.pos c) { pos = r.pos + 1 } in
    if r'.pos == text_region_buffer_size then r' ∷ alloc_text_region ∷ [] else r' ∷ []
push (r ∷ r2 ∷ line) c = r ∷ push (r2 ∷ line) c

-- A call of `fread(fd,&c,1)`: the byte that is then in `c`, and what the call returns.
pub record Read : Type 0 where
  pub c : ℕ
  pub result : ℕ

-- The loop of `load_file` on the calls of `fread` to come, in the line that was begun. It ends with the
-- call that returns 0, whose byte is dropped; behind the last of the list every call returns 0.
pub load_from : List TextRegion → List Read → List (List TextRegion)
load_from line [] = line ∷ []
load_from line (f ∷ fs) =
    let ended = push line f.c ∷ load_from (alloc_text_region ∷ []) fs in
    let goes_on = load_from (push line f.c) fs in
    if f.result == 0 then line ∷ [] else if f.c == 10 then ended else goes_on

pub load_file : List Read → List (List TextRegion)
load_file reads = load_from (alloc_text_region ∷ []) reads

-- `n` bytes of a buffer from `i` on.
pub bytes_from : (ℕ → ℕ) → ℕ → ℕ → List ℕ
bytes_from buffer i zero = []
bytes_from buffer i (suc n) = buffer i ∷ bytes_from buffer (suc i) n

-- What `fwrite(fd,tr->buffer,tr->pos)` writes.
pub region_bytes : TextRegion → List ℕ
region_bytes r = bytes_from r.buffer 0 r.pos

pub line_bytes : List TextRegion → List ℕ
line_bytes [] = []
line_bytes (r ∷ line) = region_bytes r ++ line_bytes line

-- What `write_file` writes, in order.
pub write_file : List (List TextRegion) → List ℕ
write_file [] = []
write_file (line ∷ lines) = line_bytes line ++ write_file lines

-- The copying loop of `append_at_position`, from index `from + n - 1` down to `from`: each byte goes one
-- up, the one from the last place to the next region's first.
pub shift_up : ℕ → ℕ → TextRegion × TextRegion → TextRegion × TextRegion
shift_up from zero (r, next) = (r, next)
shift_up from (suc n) (r, next) =
    let i = from + n in
    let moved =
      if i + 1 == text_region_buffer_size
      then (r, put next 0 (r.buffer i))
      else (put r (i + 1) (r.buffer i), next) in
    shift_up from n moved

-- The last region, with one behind it if it is full.
pub with_room : List TextRegion → List TextRegion
with_room [] = []
with_room (r ∷ []) = if r.pos == text_region_buffer_size then r ∷ alloc_text_region ∷ [] else r ∷ []
with_room (r ∷ r2 ∷ line) = r ∷ with_room (r2 ∷ line)

-- The loops from the last region back to the first of the list, which is shifted from `from` on. The
-- last region's own first argument for `next` is null and is not reached.
pub shift_line : ℕ → List TextRegion → List TextRegion
shift_line from [] = []
shift_line from (r ∷ []) = (shift_up from (r.pos - from) (r, alloc_text_region)).0 ∷ []
shift_line from (r ∷ r2 ∷ line) =
    let rest = shift_line 0 (r2 ∷ line) in
    elim rest [
      | [] ↦ r ∷ []
      | next ∷ behind ↦
          (let (r', next') = shift_up from (r.pos - from) (r, next) in r' ∷ next' ∷ behind)
    ]

-- `last_tr->pos++`
pub grow_last : List TextRegion → List TextRegion
grow_last [] = []
grow_last (r ∷ []) = record r { pos = r.pos + 1 } ∷ []
grow_last (r ∷ r2 ∷ line) = r ∷ grow_last (r2 ∷ line)

-- `append_at_position` for a character that is neither a newline nor a backspace, on the regions from
-- `tr` on.
pub append_at_position : List TextRegion → ℕ → ℕ → List TextRegion
append_at_position line cursor_col c =
    let from = cursor_col % text_region_buffer_size in
    elim (shift_line from (with_room line)) [
      | [] ↦ []
      | tr ∷ rest ↦ grow_last (put tr from c ∷ rest)
    ]
