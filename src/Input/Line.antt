-- ===== src/Input/Line.antt =====
-- The line editors: `keyboard_input_character` of drivers/keyboard.c and `gfx_keyboard_input_character`
-- of kernel/window_sys.c, with the functions that start them. The state is what both keep of the input;
-- the buffer is memory from `input_buffer` on. A `char` is its 8-bit pattern, an `int` argument its
-- 32-bit pattern.
pub mod Typed
use osdev_graphical.Base.{
  ℕ, ◌+◌, ◌-◌, ◌*◌, ◌/◌, ◌^◌, ◌%◌, Bool, true, false, List, [], ◌∷◌, if◌then◌else◌, ◌==◌, ltb, leb,
}

pub record LineInput : Type 0 where
  pub taking_input : Bool
  pub taking_char : Bool
  pub input_buffer : ℕ
  pub char_buffer : ℕ
  pub buffer_index : ℕ
  pub buffer_limit : ℕ
  pub cursor_input_row : ℕ
  pub cursor_input_col : ℕ
  pub memory : ℕ → ℕ

-- A store of a byte.
pub put : (ℕ → ℕ) → ℕ → ℕ → ℕ → ℕ
put m a c b = if b == a then c else m b

-- The sign bit of an `int`.
pub negative : ℕ → Bool
negative n = leb (2 ^ 31) n

-- `PIXEL_HEIGHT/CHAR_HEIGHT` rows, of which the first is not used, and `PIXEL_WIDTH/CHAR_WIDTH` columns.
abbrev pub max_rows : ℕ
max_rows = 64

abbrev pub max_cols : ℕ
max_cols = 160

-- The row that both functions use for a row argument, from a cursor at `cursor_row`.
pub clamp_row : ℕ → ℕ → ℕ
clamp_row cursor_row row =
    let row' = if negative row then cursor_row else row in
    if negative row'
    then 1
    else if ltb row' 1
    then 1
    else if leb max_rows row'
    then max_rows - 1
    else row'

pub clamp_col : ℕ → ℕ → ℕ
clamp_col cursor_col col =
    let col' = if negative col then cursor_col else col in
    if negative col' then 0 else if leb max_cols col' then max_cols - 1 else col'

-- `cursor` is where the screen's cursor stands, row and column.
pub keyboard_input : ℕ × ℕ → ℕ → ℕ → ℕ → ℕ → LineInput → LineInput
keyboard_input cursor row col buffer bf_size s = if s.taking_char then s else record s {
  taking_input = true;
  cursor_input_row = clamp_row cursor.0 row;
  cursor_input_col = clamp_col cursor.1 col;
  buffer_index = 0;
  buffer_limit = bf_size;
  input_buffer = buffer;
}

pub getchar : ℕ × ℕ → ℕ → ℕ → ℕ → LineInput → LineInput
getchar cursor row col buffer s = if s.taking_input then s else record s {
  taking_char = true;
  cursor_input_row = clamp_row cursor.0 row;
  cursor_input_col = clamp_col cursor.1 col;
  char_buffer = buffer;
}

pub keyboard_get_character : ℕ → LineInput → LineInput
keyboard_get_character character s = record s {
  taking_char = false;
  memory = put s.memory s.char_buffer character;
}

-- What the editor returns: -1, 0 or 1.
pub data Status : Type 0 where
  refused : Status
  continuing : Status
  finished : Status

-- The limit less one is on `unsigned int`s.
pub keyboard_input_character : ℕ → LineInput → Status × LineInput
keyboard_input_character character s =
    if character == 8
    then (if s.buffer_index == 0
        then (refused, s)
        else (continuing, record s { buffer_index = s.buffer_index - 1 }))
    else if character == 10
    then (
      finished,
      record s { memory = put s.memory (s.input_buffer + s.buffer_index) 0; taking_input = false },
    )
    else if s.buffer_index == (s.buffer_limit + (2 ^ 32 - 1)) % 2 ^ 32
    then (refused, s)
    else (
      continuing,
      record s {
        memory = put s.memory (s.input_buffer + s.buffer_index) character;
        buffer_index = s.buffer_index + 1;
      },
    )
