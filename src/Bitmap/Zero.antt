-- ===== src/Bitmap/Zero.antt =====
-- `mmap_first_free_s` asked for a sequence of length 0.
use osdev_graphical.Base.{
  ℕ, zero, suc, ◌/◌, ◌^◌, ◌≤◌, ◌<◌, false, some, bit_and, ◌≡◌, ◌≢◌, arith, ◌==◌,
}
use osdev_graphical.Memory.{Words}
use osdev_graphical.Bitmap.{full_word, found, scan_word, scan_round, scan_from, first_free_s}
use osdev_graphical.Bitmap.Laws.{occ}
use osdev_graphical.Bitmap.First.{set_iff}

scan_round-zero :
    (m : Words)
    → (m 0 == full_word) ≡ false
    → (bit_and (m 0) (2 ^ 0) == 0) ≡ false
    → scan_round 0 m 0 0 0 ≡ found 0
unfolding scan_round scan_word
scan_round-zero m n b = rw (n, b)

scan_from-zero :
    (m : Words) (left : ℕ)
    → 0 < left
    → (m 0 == full_word) ≡ false
    → (bit_and (m 0) (2 ^ 0) == 0) ≡ false
    → scan_from 0 m left 0 0 0 ≡ some 0
unfolding scan_from
scan_from-zero m zero pos n b = absurd (omega arith)
scan_from-zero m (suc left) pos n b = rw (scan_round-zero m n b, scan_from)

-- The answer is block 0, taken, if the first word has a free block elsewhere.
pub first_free_s-zero :
    (blocks : ℕ) (m : Words)
    → 32 ≤ blocks
    → occ m 0 ≡ 1
    → m 0 ≢ full_word
    → first_free_s blocks m 0 ≡ some 0
unfolding first_free_s
first_free_s-zero blocks m h taken n =
    scan_from-zero m (blocks / 32) (omega arith) (ground arith) ((set_iff (m 0) 0).1 taken)
