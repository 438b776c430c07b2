-- ===== src/Fat/ReadBack.antt =====
-- What is written to a cluster is read back from it.
use osdev_graphical.Base.{
  ℕ, suc, ◌+◌, ◌-◌, ◌%◌, ◌^◌, ◌≤◌, ◌<◌, ◌≡◌, ◌≢◌, refl, arith, ◌∙◌, Bool, true, false, some,
  if◌then◌else◌, ◌==◌, ltb, leb,
}
use osdev_graphical.Vfs.{File, fs_directory}
use osdev_graphical.Fat.{Bytes, sector_size, write_sector, copy_bytes, Transfer, share, transfer}

-- A file that stays in its cluster after `len` more bytes.
abbrev pub IsInside : File → ℕ → Type 0
IsInside file len =
    (0 < len)
    × (file.position + len < sector_size)
    × (file.position + len ≤ file.file_length)
    × (file.flags ≢ fs_directory)

abbrev pub cluster_sector : File → ℕ
cluster_sector file = (32 + (file.current_cluster + 2 ^ 32 - 1)) % 2 ^ 32

abbrev pub advanced : File → ℕ → File
advanced file len = record file { position = file.position + len }

-- The tests that the transfer makes.
inside_tests :
    (file : File) (len : ℕ)
    → IsInside file len
    → ((len == 0) ≡ false)
      × ((sector_size + 2 ^ 32 - file.position) % 2 ^ 32 ≡ sector_size - file.position)
      × (ltb len (sector_size - file.position) ≡ true)
      × ((file.position + len) % 2 ^ 32 ≡ file.position + len)
      × (ltb (file.position + len) sector_size ≡ true)
      × (leb (file.position + len) file.file_length ≡ true)
      × ((file.flags == fs_directory) ≡ false)
      × (leb (sector_size - file.position) len ≡ false)
inside_tests file len h = (
  ground (arith, h.0),
  omega (arith, h.1),
  ground (arith, h.1),
  omega (arith, h.1),
  ground (arith, h.1),
  ground (arith, h.2),
  ground (arith, h.3),
  ground (arith, h.1),
)

transfer-inside :
    (fuel : ℕ) (write : Bool) (t : Transfer) (buffer len : ℕ)
    → IsInside t.file len
    → transfer (suc fuel) write t buffer len
      ≡ some (
          if write
          then record t {
            disk =
                write_sector t.disk
                  (cluster_sector t.file)
                  (copy_bytes (t.disk (cluster_sector t.file)) t.file.position t.memory buffer len);
            file = advanced t.file len;
          }
          else record t {
            memory =
                copy_bytes t.memory buffer (t.disk (cluster_sector t.file)) t.file.position len;
            file = advanced t.file len;
          })
unfolding transfer share
transfer-inside fuel true t buffer len h =
    (let (a, b, c, d, e, f, g, k) = inside_tests t.file len h in simp (a, b, c, d, e, f, g, k))
transfer-inside fuel false t buffer len h =
    (let (a, b, c, d, e, f, g, k) = inside_tests t.file len h in simp (a, b, c, d, e, f, g, k))

-- The bytes of a copy.
copied :
    (to from : Bytes) (dst src n i : ℕ)
    → i < n
    → copy_bytes to dst from src n (dst + i) ≡ from (src + i)
unfolding copy_bytes
copied to from dst src n i h =
    let a : leb dst (dst + i) ≡ true = ground arith in
    let b : ltb (dst + i) (dst + n) ≡ true = ground arith in
    let c : dst + i - dst ≡ i = omega arith in rw (copy_bytes, a, b, c) refl

-- For a file that is no directory and a number of bytes, not 0, that ends inside both the file's
-- length and its cluster: writing them and then reading as many from where the write began gives
-- every byte that was written, in its order, and both move the file by as much.
pub transfer-read_back :
    (fuel : ℕ) (t : Transfer) (buffer target len i : ℕ)
    → IsInside t.file len
    → i < len
    → (w : Transfer) × (r : Transfer) × (transfer (suc fuel) true t buffer len ≡ some w)
      × (transfer (suc fuel) false (record w { file = t.file }) target len ≡ some r)
      × (r.memory (target + i) ≡ t.memory (buffer + i))
      × (w.file ≡ advanced t.file len)
      × (r.file ≡ advanced t.file len)
unfolding write_sector
transfer-read_back fuel t buffer target len i h hi =
    let s = cluster_sector t.file in
    let p = t.file.position in
    let sent = copy_bytes (t.disk s) p t.memory buffer len in
    let w : Transfer = record t { disk = write_sector t.disk s sent; file = advanced t.file len } in
    let r : Transfer = record w {
      memory = copy_bytes t.memory target (write_sector t.disk s sent s) p len;
    } in
    let same : (s == s) ≡ true = ground arith in
    let inside : ltb (p + i) sector_size ≡ true = ground (arith, h.1) in
    (
      w,
      r,
      transfer-inside fuel true t buffer len h,
      transfer-inside fuel false (record w { file = t.file }) target len h,
      copied t.memory (write_sector t.disk s sent s) target p len i hi
          ∙ (rw (write_sector, same, inside) (copied (t.disk s) t.memory p buffer len i hi)),
      refl,
      refl,
    )
