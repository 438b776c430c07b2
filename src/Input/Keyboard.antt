-- ===== src/Input/Keyboard.antt =====
-- drivers/keyboard.c: the interrupt handler with its status byte, and the event that a key makes.
pub mod Modifiers
use osdev_graphical.Base.{
  ℕ, ◌+◌, ◌-◌, ◌^◌, bit_and, bit_or, Bool, true, false, ◌||◌, not, Option, none, some, List, [],
  ◌∷◌, if◌then◌else◌, ◌==◌,
}
use osdev_graphical.Windows.Events.{Event}
use osdev_graphical.Input.{InputSystem, deliver}

-- `kstatus |= flag` and `kstatus &= ~flag` on the byte.
abbrev pub with_flag : ℕ → ℕ → ℕ
with_flag kstatus flag = bit_or kstatus flag

abbrev pub without_flag : ℕ → ℕ → ℕ
without_flag kstatus flag = bit_and kstatus (255 - flag)

abbrev pub has_flag : ℕ → ℕ → Bool
has_flag kstatus flag = not (bit_and kstatus flag == 0)

pub enable_shift : ℕ → ℕ
enable_shift kstatus = with_flag kstatus 4

pub disable_shift : ℕ → ℕ
disable_shift kstatus = without_flag kstatus 4

pub check_shift : ℕ → Bool
check_shift kstatus = has_flag kstatus 4

pub enable_ctrl : ℕ → ℕ
enable_ctrl kstatus = with_flag kstatus 1

pub disable_ctrl : ℕ → ℕ
disable_ctrl kstatus = without_flag kstatus 1

pub check_ctrl : ℕ → Bool
check_ctrl kstatus = has_flag kstatus 1

pub enable_caps : ℕ → ℕ
enable_caps kstatus = with_flag kstatus 8

pub disable_caps : ℕ → ℕ
disable_caps kstatus = without_flag kstatus 8

pub check_caps : ℕ → Bool
check_caps kstatus = has_flag kstatus 8

pub enable_alt : ℕ → ℕ
enable_alt kstatus = with_flag kstatus 2

pub disable_alt : ℕ → ℕ
disable_alt kstatus = without_flag kstatus 2

pub check_alt : ℕ → Bool
check_alt kstatus = has_flag kstatus 2

-- `scancode & 0x80`
pub is_release : ℕ → Bool
is_release scancode = not (bit_and scancode 0x80 == 0)

-- The status byte after a code with the top bit.
pub status_of_release : ℕ → ℕ → ℕ
status_of_release kstatus scancode =
    if scancode == 170 || scancode == 182
    then disable_shift kstatus
    else if scancode == 157
    then disable_ctrl kstatus
    else if scancode == 184
    then disable_alt kstatus
    else if scancode == 186
    then (if check_caps kstatus then disable_caps kstatus else enable_caps kstatus)
    else kstatus

-- After a code without it, and whether the handler then returns.
pub status_of_press : ℕ → ℕ → ℕ × Bool
status_of_press kstatus scancode =
    if scancode == 42 || scancode == 54
    then (enable_shift kstatus, true)
    else if scancode == 29
    then (enable_ctrl kstatus, true)
    else if scancode == 56
    then (enable_alt kstatus, true)
    else if scancode == 58
    then (kstatus, true)
    else (kstatus, false)

-- Both branches.
pub status_of : ℕ → ℕ → ℕ × Bool
status_of kstatus scancode =
    if is_release scancode
    then (status_of_release kstatus scancode, false)
    else status_of_press kstatus scancode

pub kbd_event : ℕ → ℕ → Event
kbd_event kstatus scancode =
    let key = bit_and scancode 0x7F in
    let key1 = if check_caps kstatus then bit_or key 0x100 else key in
    let key2 = if check_shift kstatus then bit_or key1 0x200 else key1 in
    record {
      event_type = if is_release scancode then 4 else 2;
      event_data = if check_alt kstatus then bit_or key2 0x400 else key2;
    }

-- `status` is what the controller's status port reads, `scancode` what its data port reads.
pub keyboard_handler : (ℕ → ℕ) → (ℕ → ℕ) → ℕ → ℕ → ℕ × InputSystem → ℕ × InputSystem
keyboard_handler process_of id_of status scancode (kstatus, s) =
    let (kstatus', returns) = status_of kstatus scancode in
    if bit_and status 1 == 0 then (kstatus, s) else (
      kstatus',
      if returns then s else deliver process_of id_of 1 (kbd_event kstatus' scancode) s,
    )
