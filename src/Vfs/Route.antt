-- ===== src/Vfs/Route.antt =====
-- A registered file system gets the calls for its letter.
use osdev_graphical.Base.{
  ℕ, ◌+◌, ◌-◌, ◌%◌, ◌<◌, ◌≡◌, ◌≢◌, ◌⊎◌, inl, inr, Bool-cases, refl, arith, ◌∙◌, ap, true, false,
  ◌&&◌, not, none, some, List, ◌∷◌, ◌==◌, ltb, length, get_or-set_self, get_or-set_ne,
}
use osdev_graphical.Vfs.{
  File, FileSystem, Vfs, device_max, slot, has_letter, device_of, file_name_of,
  register_file_system, open_file, read_file, write_file, set_device,
}

device_of-letter : (c : ℕ) (path : List ℕ) → device_of (c ∷ b':' ∷ path) ≡ (c + 256 - b'a') % 256
unfolding device_of has_letter
device_of-letter c path = refl

file_name_of-letter : (c : ℕ) (path : List ℕ) → file_name_of (c ∷ b':' ∷ path) ≡ path
unfolding file_name_of has_letter
file_name_of-letter c path = refl

slot-register :
    (s : Vfs) (fsys d : ℕ)
    → length s.file_systems ≡ device_max
    → d < device_max
    → s.registered < device_max
    → fsys ≢ 0
    → slot (register_file_system s fsys d) d ≡ some fsys
unfolding slot register_file_system
slot-register s fsys d len hd hr ne =
    let a : ltb d 26 ≡ true = ground arith in
    let b : ltb s.registered 26 ≡ true = ground arith in
    let c : (fsys == 0) ≡ false = ground arith in
    rw (a, b, c)
      (ap (λ (f : ℕ). some f) (get_or-set_self s.file_systems d fsys 0 (omega (arith, len))))

slot-register_ne :
    (s : Vfs) (fsys d e : ℕ) → d ≢ e → slot (register_file_system s fsys d) e ≡ slot s e
unfolding slot register_file_system
slot-register_ne s fsys d e ne =
    elim (Bool-cases (ltb d 26 && ltb s.registered 26 && not (fsys == 0))) [
      | inl h ↦ rw (h, get_or-set_ne s.file_systems d e fsys 0 ne) refl
      | inr h ↦ rw h refl
    ]

-- What is read through a file goes to the file system of its device.
pub read_file-slot :
    {W : Type 0} (deref : ℕ → FileSystem W) (v : Vfs) (w : W) (f : File) (fsys buffer len : ℕ)
    → slot v f.device_id ≡ some fsys
    → fsys ≢ 0
    → let got = (deref fsys).read w f buffer len in
      read_file deref v w (some f) buffer len ≡ some (some got.0, got.1)
unfolding read_file
read_file-slot deref v w f fsys buffer len h ne =
    let real : (fsys == 0) ≡ false = ground arith in rw (read_file, h, real) refl

-- When a file system is registered for a device, while fewer than 26 have ever been registered: a path
-- with the device's letter is opened by it, without the letter, and the file carries the device; what
-- is read or written through a file of the device goes to it; and no other device's entry changes.
pub register-routes :
    {W : Type 0} (deref : ℕ → FileSystem W) (s : Vfs) (w : W) (unset file : File)
    (fsys d e buffer len : ℕ) (path : List ℕ)
    → length s.file_systems ≡ device_max
    → d < device_max
    → s.registered < device_max
    → fsys ≢ 0
    → file.device_id ≡ d
    → d ≢ e
    → let s' = register_file_system s fsys d in
      let out = (deref fsys).open_file w path in
      let got = (deref fsys).read w file buffer len in
      let put = (deref fsys).write w file buffer len in
      (open_file deref s' w unset (some ((b'a' + d) ∷ b':' ∷ path))
        ≡ some (set_device d out.0, out.1))
      × (read_file deref s' w (some file) buffer len ≡ some (some got.0, got.1))
      × (write_file deref s' w (some file) buffer len ≡ some (some put.0, put.1))
      × (slot s' e ≡ slot s e)
unfolding open_file read_file write_file
register-routes deref s w unset file fsys d e buffer len path hl hd hr ne hf he =
    let s' = register_file_system s fsys d in
    let out = (deref fsys).open_file w path in
    let here = slot-register s fsys d hl hd hr ne in
    let there : slot s' file.device_id ≡ some fsys = ap (slot s') hf ∙ here in
    let real : (fsys == 0) ≡ false = ground arith in
    let device : device_of ((b'a' + d) ∷ b':' ∷ path) ≡ d =
      device_of-letter (b'a' + d) path ∙ omega arith in
    (
      rw (open_file, ap (slot s') device ∙ here, real, file_name_of-letter (b'a' + d) path)
          (ap (λ (k : ℕ). some (set_device k out.0, out.1)) device),
      rw (read_file, there, real) refl,
      rw (write_file, there, real) refl,
      slot-register_ne s fsys d e he,
    )

-- A path whose first character, before a colon, is no letter from a to z makes `volOpenFile` read
-- outside the table.
pub open_file-outside :
    {W : Type 0} (deref : ℕ → FileSystem W) (s : Vfs) (w : W) (unset : File) (c : ℕ) (path : List ℕ)
    → c < 256
    → (c < b'a') ⊎ (b'z' < c)
    → open_file deref s w unset (some (c ∷ b':' ∷ path)) ≡ none
unfolding open_file slot
open_file-outside deref s w unset c path b h =
    let out : ltb (device_of (c ∷ b':' ∷ path)) 26 ≡ false =
      ground (arith, device_of-letter c path) in
    rw (open_file, out) refl
