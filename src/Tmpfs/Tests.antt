-- ===== src/Tmpfs/Tests.antt =====
-- drivers/tmpfsys.c on a file of one block and on one of two.
use osdev_graphical.Base.{
  ℕ, ◌+◌, ◌%◌, ◌^◌, ◌≡◌, arith, List, [], ◌∷◌, length, take, drop, replicate, length-replicate,
  if◌then◌else◌, ◌==◌, ltb,
}
use osdev_graphical.Vfs.{File}
use osdev_graphical.Tmpfs.{tfsys_write, tfsys_read}
use osdev_graphical.Tmpfs.Write.{IsPacked, contents, Written, tfsys_write-Written}
use osdev_graphical.Tmpfs.Read.{tfsys_read-first}

abbrev a_file : ℕ → ℕ → File
a_file place size = record {
  name = [];
  flags = 0;
  file_length = size;
  id = 4;
  eof = 0;
  position = place;
  abs_position = 0;
  current_cluster = 0;
  device_id = 19;
  time_created = 0;
  date_created = 0;
  parent_cluster = 0;
}

tfsys_write-Written_example :
    let out = tfsys_write (a_file 1 2) ((1 ∷ 2 ∷ []) ∷ []) (3 ∷ 4 ∷ []) in
    Written (if 1 == 0 then [] else contents ((1 ∷ 2 ∷ []) ∷ [])) (3 ∷ 4 ∷ []) out.1
    × (out.0 ≡ record (a_file 1 2) { position = (1 + length {A = ℕ} (3 ∷ 4 ∷ [])) % 2 ^ 32 })
tfsys_write-Written_example =
    tfsys_write-Written (a_file 1 2) ((1 ∷ 2 ∷ []) ∷ []) (3 ∷ 4 ∷ []) (omega arith)

abbrev full : List ℕ
full = replicate 4036 7

two_blocks-IsPacked : IsPacked (full ∷ (5 ∷ []) ∷ [])
two_blocks-IsPacked = (length-replicate {A = ℕ} 4036 7, omega arith)

tfsys_read-first_example :
    (tfsys_read (a_file 4036 4037) (full ∷ (5 ∷ []) ∷ []) 1).1
    ≡ (if ltb 4037 (4036 + 1) then [] else take 1 (drop 4036 full))
tfsys_read-first_example =
    tfsys_read-first (a_file 4036 4037) full ((5 ∷ []) ∷ []) 1 two_blocks-IsPacked (omega arith)
