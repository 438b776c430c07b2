-- ===== src/Fat/Tests.antt =====
-- drivers/fat12fsys.c on a disk whose table has one chain, that of cluster 2.
use osdev_graphical.Base.{
  ℕ, ◌+◌, ◌≡◌, ◌≢◌, ◌⊎◌, arith, true, false, some, [], if◌then◌else◌, ◌==◌, ◌&&◌,
}
use osdev_graphical.Vfs.{File}
use osdev_graphical.Fat.{
  Disk, Transfer, fat_entry, set_entry, entry_bits, get_word, load_fat, fat_sector, fat_offset,
  entry_offset, last_entry, end_of_file, occupy_free_cluster, transfer,
}
use osdev_graphical.Fat.Place.{IsBytes}
use osdev_graphical.Fat.Entries.{set_entry-entry}
use osdev_graphical.Fat.Occupy.{NoneFree, FirstFree, occupy-first}
use osdev_graphical.Fat.ReadBack.{advanced, transfer-read_back}

abbrev a_disk : Disk
a_disk s i = if (s == 1) && (i == 3) then 255 else (if (s == 1) && (i == 4) then 15 else 0)

a_disk-IsBytes : IsBytes a_disk
a_disk-IsBytes s i = ground arith

set_entry-entry_example :
    (fat_entry (set_entry a_disk 3 0x123) 2 ≡ (if 2 == 3 then 0x123 else fat_entry a_disk 2))
    × IsBytes (set_entry a_disk 3 0x123)
set_entry-entry_example = set_entry-entry a_disk 3 0x123 2 a_disk-IsBytes (omega arith)

one_cluster : fat_entry a_disk 2 ≢ 0
unfolding fat_entry entry_bits get_word load_fat fat_sector fat_offset entry_offset
one_cluster = omega arith

occupy-first_example :
    let r = occupy_free_cluster a_disk 2 in
    ((r.0 ≡ last_entry) × (r.1 ≡ a_disk) × NoneFree a_disk 2 last_entry)
    ⊎ (FirstFree a_disk r.0
        × ((n : ℕ)
            → fat_entry r.1 n
              ≡ (if n == 2 then r.0 else (if n == r.0 then end_of_file else fat_entry a_disk n)))
        × IsBytes r.1)
occupy-first_example = occupy-first a_disk 2 a_disk-IsBytes (omega arith) one_cluster

abbrev a_file : File
a_file = record {
  name = [];
  flags = 0;
  file_length = 40;
  id = 0;
  eof = 0;
  position = 10;
  abs_position = 10;
  current_cluster = 2;
  device_id = 0;
  time_created = 0;
  date_created = 0;
  parent_cluster = 0;
}

abbrev a_transfer : Transfer
a_transfer = record { disk = a_disk; memory = λ a. if a == 0x1003 then 7 else 0; file = a_file }

transfer-read_back_example :
    (w : Transfer) × (r : Transfer) × (transfer 5 true a_transfer 0x1000 20 ≡ some w)
    × (transfer 5 false (record w { file = a_file }) 0x2000 20 ≡ some r)
    × (r.memory (0x2000 + 3) ≡ a_transfer.memory (0x1000 + 3))
    × (w.file ≡ advanced a_file 20)
    × (r.file ≡ advanced a_file 20)
transfer-read_back_example =
    transfer-read_back 4 a_transfer 0x1000 0x2000 20 3
      (omega arith, omega arith, omega arith, omega arith) (omega arith)
