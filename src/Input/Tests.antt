-- ===== src/Input/Tests.antt =====
-- drivers/keyboard.c and drivers/mouse.c on a few keys and one packet.
use osdev_graphical.Base.{ℕ, ◌≡◌, refl, arith, true, false, List, [], ◌∷◌}
use osdev_graphical.Input.{InputSystem}
use osdev_graphical.Input.Keyboard.{check_ctrl, check_alt, check_shift, check_caps}
use osdev_graphical.Input.Keyboard.Modifiers.{Modifiers, encode, statuses, check-presses}
use osdev_graphical.Input.Line.{LineInput, keyboard_input}
use osdev_graphical.Input.Line.Typed.{LineLaw, keyboard_input-LineLaw}
use osdev_graphical.Input.Mouse.{Mouse, Packet, mouse_handler}
use osdev_graphical.Input.Mouse.Screen.{IsOnScreen, mouse_handler-moves}

abbrev no_keys : Modifiers
no_keys = record { ctrl = false; alt = false; shift = false; caps = false }

-- Shift is pressed, caps lock struck, A struck, shift released and control pressed.
abbrev some_codes : List ℕ
some_codes = 42 ∷ 58 ∷ 186 ∷ 30 ∷ 158 ∷ 170 ∷ 29 ∷ []

check-presses_example :
    (check_ctrl (statuses (encode no_keys) some_codes) ≡ true)
    × (check_alt (statuses (encode no_keys) some_codes) ≡ false)
    × (check_shift (statuses (encode no_keys) some_codes) ≡ false)
    × (check_caps (statuses (encode no_keys) some_codes) ≡ true)
check-presses_example = check-presses no_keys some_codes

abbrev an_input : LineInput
an_input = record {
  taking_input = false;
  taking_char = false;
  input_buffer = 0;
  char_buffer = 0;
  buffer_index = 0;
  buffer_limit = 0;
  cursor_input_row = 0;
  cursor_input_col = 0;
  memory = λ a. 0xEE;
}

-- Four places: the fourth letter is refused, and one is erased.
keyboard_input-LineLaw_example :
    LineLaw an_input 0x7000 4
      (97 ∷ 98 ∷ 99 ∷ 100 ∷ 8 ∷ [])
      (keyboard_input (3, 5) 7 0xFFFFFFFF 0x7000 4 an_input)
keyboard_input-LineLaw_example =
    keyboard_input-LineLaw an_input (3, 5) 7 0xFFFFFFFF 0x7000 4 (97 ∷ 98 ∷ 99 ∷ 100 ∷ 8 ∷ []) refl
      (omega arith) (omega arith)
      (omega arith, (omega arith, (omega arith, (omega arith, (omega arith, omega arith)))))

abbrev a_mouse : Mouse
a_mouse = record {
  mouse_x = 1200;
  mouse_y = 20;
  mouse_enabled = true;
  mouse_installed = true;
  dragging_window = 0;
}

-- 100 to the right and 50 up, to the corner.
abbrev a_packet : Packet
a_packet = record { flags = 8; xmov = 100; ymov = 50; zmov = 0 }

abbrev a_system : InputSystem
a_system = record {
  windows = record { win_list = []; working_window = 0 };
  scheduler = record { ready_queue = []; current_task = 0 };
}

mouse_handler-moves_example :
    let m' = (mouse_handler (λ p. p) (λ p. p) (λ t s. s) a_packet a_mouse a_system).mouse in
    (m'.mouse_x ≡ 1279) × (m'.mouse_y ≡ 16) × IsOnScreen m'
mouse_handler-moves_example =
    mouse_handler-moves (λ p. p) (λ p. p) (λ t s. s) a_packet a_mouse a_system refl refl
      (omega arith) (omega arith) (omega arith) (omega arith)
