-- ===== src/Process/Io.antt =====
-- Reading and opening through a descriptor: the process's open files over the file systems' table.
use osdev_graphical.Base.{ℕ, ◌≡◌, ◌≢◌, refl, some, if◌then◌else◌, ◌==◌}
use osdev_graphical.Vfs.{File, FileSystem, Vfs, slot}
use osdev_graphical.Vfs.Route.{read_file-slot}
use osdev_graphical.Process.{Process, find_file, get_file_by_fd, fread, put_file}
use osdev_graphical.Process.Files.{find-set}

-- When the descriptor `fd` of a process finds the file `f`, whose device has a file system: `fread`
-- passes the file to that file system's `read`, its result is 0 when the file that comes back is at
-- its end and 1 otherwise, the descriptor then finds the file that came back, and every other
-- descriptor what it found before.
pub fread-find :
    {W : Type 0} (deref : ℕ → FileSystem W) (v : Vfs) (w : W) (proc : Process) (f : File)
    (fd fsys buffer len x : ℕ)
    → find_file proc.file_descs fd ≡ some f
    → slot v f.device_id ≡ some fsys
    → fsys ≢ 0
    → let got = (deref fsys).read w f buffer len in
      let proc' = put_file (some proc) fd (some got.0) in
      (fread deref v w (some proc) fd buffer len
        ≡ some (if got.0.eof == 0 then 1 else 0, (got.1, proc')))
      × (get_file_by_fd proc' x ≡ (if fd == x then some got.0 else get_file_by_fd (some proc) x))
unfolding fread put_file get_file_by_fd
fread-find deref v w proc f fd fsys buffer len x h hs ne = (
  rw (fread, h, read_file-slot deref v w f fsys buffer len hs ne) refl,
  find-set proc.file_descs fd x f ((deref fsys).read w f buffer len).0 h,
)
