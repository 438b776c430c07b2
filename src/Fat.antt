-- ===== src/Fat.antt =====
-- drivers/fat12fsys.c: the entries of the file allocation table on the disk, and the clusters that
-- files are read from and written to.
-- A disk is its bytes by sector and offset: the floppy driver's read and write of a sector. The
-- boot sector's mount data, names and directories are left out.
pub mod Word
pub mod Place
pub mod Entries
pub mod Occupy
pub mod ReadBack
mod Tests
use osdev_graphical.Base.{
  ℕ, zero, suc, ◌+◌, ◌-◌, ◌*◌, ◌/◌, ◌%◌, ◌^◌, bit_and, bit_or, Bool, true, false, Option, none,
  some, if◌then◌else◌, ◌==◌, ltb, leb, ◌&&◌, not,
}
use osdev_graphical.Vfs.{File, fs_directory, fs_invalid}

abbrev pub Disk : Type 0
Disk = ℕ → ℕ → ℕ

-- Bytes of the kernel's memory, by address, or of a buffer, by offset.
abbrev pub Bytes : Type 0
Bytes = ℕ → ℕ

abbrev pub sector_size : ℕ
sector_size = 512

-- `flpydsk_write_sector`.
pub write_sector : Disk → ℕ → Bytes → Disk
write_sector d sector buffer s i = if (s == sector) && ltb i sector_size then buffer i else d s i

-- The global buffer `FAT` after the two reads.
pub load_fat : Disk → ℕ → Bytes
load_fat d sector i = if ltb i sector_size then d sector i else d (sector + 1) (i - sector_size)

-- The two writes.
pub save_fat : Disk → ℕ → Bytes → Disk
save_fat d sector fat =
    write_sector (write_sector d sector fat) (sector + 1) (λ i. fat (sector_size + i))

-- `*( uint16_t*) &FAT [o]`.
pub get_word : Bytes → ℕ → ℕ
get_word fat o = fat o + 256 * fat (o + 1)

pub put_word : Bytes → ℕ → ℕ → Bytes
put_word fat o v i = if i == o then v % 256 else (if i == o + 1 then v / 256 % 256 else fat i)

pub fat_offset : ℕ → ℕ
fat_offset c = c + c / 2

pub fat_sector : ℕ → ℕ
fat_sector c = 1 + fat_offset c / sector_size

pub entry_offset : ℕ → ℕ
entry_offset c = fat_offset c % sector_size

abbrev pub is_odd : ℕ → Bool
is_odd c = bit_and c 1 == 1

-- The entry's 12 bits of the word, the word's other bits, and the word with the entry made `v`.
pub entry_bits : ℕ → ℕ → ℕ
entry_bits c word = if is_odd c then word / 2 ^ 4 else bit_and word 0xfff

pub remnant : ℕ → ℕ → ℕ
remnant c word = if is_odd c then bit_and word 0xf else bit_and word 0xf000

pub marked : ℕ → ℕ → ℕ → ℕ
marked c v word =
    if is_odd c
    then bit_or (v * 2 ^ 4) (remnant c word) % 2 ^ 16
    else bit_or v (remnant c word) % 2 ^ 16

pub fat_entry : Disk → ℕ → ℕ
fat_entry d c = entry_bits c (get_word (load_fat d (fat_sector c)) (entry_offset c))

pub set_entry : Disk → ℕ → ℕ → Disk
set_entry d c v =
    let fat = load_fat d (fat_sector c) in
    let o = entry_offset c in
    save_fat d (fat_sector c) (put_word fat o (marked c v (get_word fat o)))

abbrev pub last_entry : ℕ
last_entry = 0xff0

abbrev pub end_of_file : ℕ
end_of_file = 0xff8

-- The loop from entry `c` on, with `left` to go.
pub find_free : ℕ → Disk → ℕ → ℕ × Disk
find_free zero d c = (c, d)
find_free (suc left) d c =
    let rest = find_free left d (suc c) in
    if fat_entry d c == 0 then (c, set_entry d c end_of_file) else rest

pub occupy_free_cluster : Disk → ℕ → ℕ × Disk
occupy_free_cluster d chain =
    let (c, d') = find_free (last_entry - 2) d 2 in
    if not (chain == 0) && not (c == last_entry) then (c, set_entry d' chain c) else (c, d')

-- `memcpy` of `n` bytes to `dst` of `to` from `src` of `from`.
pub copy_bytes : Bytes → ℕ → Bytes → ℕ → ℕ → Bytes
copy_bytes to dst from src n i =
    if leb dst i && ltb i (dst + n) then from (src + (i - dst)) else to i

-- What `fat12fsys_rw` changes.
pub record Transfer : Type 0 where
  pub disk : Disk
  pub memory : Bytes
  pub file : File

abbrev pub at_end : Transfer → Transfer
at_end t = record t { file = record (t.file) { eof = 1 } }

-- The bytes that one cluster takes.
pub share : ℕ → ℕ → ℕ
share room len = if leb room len then room else len

-- `fat12fsys_rw` with `write` for `floppy_dir_write`, on fuel for its recursion; `none` when the fuel
-- is out.
pub transfer : ℕ → Bool → Transfer → ℕ → ℕ → Option Transfer
transfer zero write t buffer len = if len == 0 then some t else none
transfer (suc fuel) write t buffer len =
    let file = t.file in
    let sector = (32 + (file.current_cluster + 2 ^ 32 - 1)) % 2 ^ 32 in
    let room = (sector_size + 2 ^ 32 - file.position) % 2 ^ 32 in
    let n = share room len in
    let t1 =
      if write
      then record t {
        disk =
            write_sector t.disk sector (copy_bytes (t.disk sector) file.position t.memory buffer n);
      }
      else record t { memory = copy_bytes t.memory buffer (t.disk sector) file.position n } in
    let position' = if ltb len room then (file.position + len) % 2 ^ 32 else file.position in
    let t2 = record t1 { file = record file { position = position' } } in
    let stays =
      ltb len room
      && (ltb position' sector_size
          && (leb position' file.file_length && not (file.flags == fs_directory))) in
    let next = fat_entry t1.disk file.current_cluster in
    let len' = (len + 2 ^ 32 - room) % 2 ^ 32 in
    let more = ltb 0 len' && write in
    let (cluster, disk') =
      if more && leb end_of_file next
      then occupy_free_cluster t1.disk file.current_cluster
      else (next, t1.disk) in
    let rest =
      transfer fuel write
        (record t1 { disk = disk'; file = record file { current_cluster = cluster; position = 0 } })
        ((buffer + room) % 2 ^ 32) len' in
    if len == 0
    then some t
    else (if stays
        then some t2
        else (if leb end_of_file next && not more
            then some (at_end t2)
            else (if next == 0 then some (at_end t2) else rest)))

pub close : File → File
close file = record file { flags = fs_invalid }
