-- ===== src/Vfs/Tests.antt =====
-- kernel/vfs.c with a file system that counts its calls.
use osdev_graphical.Base.{ℕ, suc, ◌+◌, ◌<◌, ◌≡◌, refl, arith, some, [], ◌∷◌, length}
use osdev_graphical.Vfs.{
  File, FileSystem, start, slot, set_device, register_file_system, open_file, read_file, write_file,
}
use osdev_graphical.Vfs.Route.{register-routes}

abbrev blank : File
blank = record {
  name = [];
  flags = 0;
  file_length = 0;
  id = 0;
  eof = 0;
  position = 0;
  abs_position = 0;
  current_cluster = 0;
  device_id = 3;
  time_created = 0;
  date_created = 0;
  parent_cluster = 0;
}

abbrev counting : ℕ → FileSystem ℕ
counting address = record {
  read = λ w f buffer len. (record f { position = f.position + len }, suc w);
  write = λ w f buffer len. (record f { position = f.position + len }, suc w);
  close = λ w f. (f, suc w);
  open_file = λ w path. (record blank { name = path }, suc w);
  open_dir = λ w path. ([], suc w);
  create = λ w f name flags. suc w;
}

started : length start.file_systems ≡ 26
unfolding start
started = refl

not_full : start.registered < 26
unfolding start
not_full = omega arith

-- The path `d:\x` after a registration for the fourth device.
register-routes_example :
    let s' = register_file_system start 0x9000 3 in
    let out = (counting 0x9000).open_file 5 (92 ∷ 120 ∷ []) in
    let got = (counting 0x9000).read 5 blank 0x4000 16 in
    let put = (counting 0x9000).write 5 blank 0x4000 16 in
    (open_file counting s' 5 blank (some (100 ∷ 58 ∷ 92 ∷ 120 ∷ []))
      ≡ some (set_device 3 out.0, out.1))
    × (read_file counting s' 5 (some blank) 0x4000 16 ≡ some (some got.0, got.1))
    × (write_file counting s' 5 (some blank) 0x4000 16 ≡ some (some put.0, put.1))
    × (slot s' 0 ≡ slot start 0)
register-routes_example =
    register-routes counting start 5 blank blank 0x9000 3 0 0x4000 16 (92 ∷ 120 ∷ []) started
      (omega arith) not_full (omega arith) refl (omega arith)
