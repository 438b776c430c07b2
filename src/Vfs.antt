-- ===== src/Vfs.antt =====
-- kernel/vfs.c: the table of file systems by device letter, and the calls it passes on.
-- A file system is a record of functions over a world `W` that they change, found by its address in
-- the table through `deref`. The spin locks are taken and given back within a call.
pub mod Route
mod Tests
use osdev_graphical.Base.{
  ℕ, zero, suc, ◌+◌, ◌-◌, ◌%◌, Bool, true, false, Option, none, some, List, [], ◌∷◌, if◌then◌else◌,
  ◌==◌, ltb, ◌&&◌, not, get_or, set, drop, map, length, replicate,
}

-- `FILE`.
pub record File : Type 0 where
  pub name : List ℕ
  pub flags : ℕ
  pub file_length : ℕ
  pub id : ℕ
  pub eof : ℕ
  pub position : ℕ
  pub abs_position : ℕ
  pub current_cluster : ℕ
  pub device_id : ℕ
  pub time_created : ℕ
  pub date_created : ℕ
  pub parent_cluster : ℕ

abbrev pub fs_file : ℕ
fs_file = 0

abbrev pub fs_directory : ℕ
fs_directory = 1

abbrev pub fs_invalid : ℕ
fs_invalid = 2

abbrev pub device_max : ℕ
device_max = 26

-- `FILESYSTEM`; a buffer is an address in the world.
pub record FileSystem (W : Type 0) : Type 0 where
  pub read : W → File → ℕ → ℕ → File × W
  pub write : W → File → ℕ → ℕ → File × W
  pub close : W → File → File × W
  pub open_file : W → List ℕ → File × W
  pub open_dir : W → List ℕ → List File × W
  pub create : W → File → List ℕ → ℕ → W

-- `_FileSystems`, 0 for no file system, and the counter of `volRegisterFileSystem`.
pub record Vfs : Type 0 where
  pub file_systems : List ℕ
  pub registered : ℕ

-- The static initial values.
pub start : Vfs
start = record { file_systems = replicate device_max 0; registered = 0 }

-- `_FileSystems [device]`; `none` is a read outside the table.
unfoldable pub slot : Vfs → ℕ → Option ℕ
slot s device = if ltb device device_max then some (get_or s.file_systems device 0) else none

pub has_letter : List ℕ → Bool
has_letter fname = get_or fname 1 0 == b':'

-- `unsigned char device`.
pub device_of : List ℕ → ℕ
device_of fname = if has_letter fname then (get_or fname 0 0 + 256 - b'a') % 256 else 0

pub file_name_of : List ℕ → List ℕ
file_name_of fname = if has_letter fname then drop 2 fname else fname

pub register_file_system : Vfs → ℕ → ℕ → Vfs
register_file_system s fsys device_id =
    if ltb device_id device_max && ltb s.registered device_max && not (fsys == 0)
    then record { file_systems = set s.file_systems device_id fsys; registered = suc s.registered }
    else s

pub unregister_file_system : Vfs → ℕ → Vfs
unregister_file_system s fsys = record s {
  file_systems = map (λ f. if f == fsys then 0 else f) s.file_systems;
}

pub unregister_file_system_by_id : Vfs → ℕ → Vfs
unregister_file_system_by_id s device_id =
    if ltb device_id device_max
    then record s { file_systems = set s.file_systems device_id 0 }
    else s

pub set_device : ℕ → File → File
set_device device f = record f { device_id = device }

module _ {W : Type 0} (deref : ℕ → FileSystem W) where
  -- `unset` is the local `FILE` before its flags are set; a null `fname` is `none`. The result `none`
  -- is a read outside the table.
  pub open_file : Vfs → W → File → Option (List ℕ) → Option (File × W)
  open_file s w unset none = some (record unset { flags = fs_invalid }, w)
  open_file s w unset (some fname) =
      let device = device_of fname in
      elim (slot s device) [
        | none ↦ none
        | some fsys ↦
            let out = (deref fsys).open_file w (file_name_of fname) in
            if fsys == 0
            then some (record unset { flags = fs_invalid }, w)
            else some (set_device device out.0, out.1)
      ]

  pub open_dir : Vfs → W → Option (List ℕ) → Option (List File × W)
  open_dir s w none = some ([], w)
  open_dir s w (some fname) =
      let device = device_of fname in
      elim (slot s device) [
        | none ↦ none
        | some fsys ↦
            let out = (deref fsys).open_dir w (file_name_of fname) in
            if fsys == 0 then some ([], w) else some (map (set_device device) out.0, out.1)
      ]

  -- The calls on a `PFILE`, where null is `none`.
  pub close_file : Vfs → W → Option File → Option (Option File × W)
  close_file s w none = some (none, w)
  close_file s w (some file) = elim (slot s file.device_id) [
    | none ↦ none
    | some fsys ↦
        let out = (deref fsys).close w file in
        some (if fsys == 0 then (some file, w) else (some out.0, out.1))
  ]

  pub read_file : Vfs → W → Option File → ℕ → ℕ → Option (Option File × W)
  read_file s w none buffer len = some (none, w)
  read_file s w (some file) buffer len = elim (slot s file.device_id) [
    | none ↦ none
    | some fsys ↦
        let out = (deref fsys).read w file buffer len in
        some (if fsys == 0 then (some file, w) else (some out.0, out.1))
  ]

  pub write_file : Vfs → W → Option File → ℕ → ℕ → Option (Option File × W)
  write_file s w none buffer len = some (none, w)
  write_file s w (some file) buffer len = elim (slot s file.device_id) [
    | none ↦ none
    | some fsys ↦
        let out = (deref fsys).write w file buffer len in
        some (if fsys == 0 then (some file, w) else (some out.0, out.1))
  ]

  pub create_file : Vfs → W → Option File → List ℕ → ℕ → Option W
  create_file s w none fname flags = some w
  create_file s w (some file) fname flags = elim (slot s file.device_id) [
    | none ↦ none
    | some fsys ↦ some (if fsys == 0 then w else (deref fsys).create w file fname flags)
  ]
