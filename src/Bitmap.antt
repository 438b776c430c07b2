-- ===== src/Bitmap.antt =====
-- The occupancy bitmap of kernel/pmm.c, which kernel/heap.c repeats word for word over an array of
-- its own: one bit for a block, 32 blocks to a `uint32_t`, bit 0 of word 0 first.
-- The map is reached through a raw `uint32_t *`, so it is a store of words by index, with no end:
-- a write past the blocks in use lands in the words that follow.
pub mod Laws
pub mod First
pub mod Run
pub mod Count
pub mod Bytes
pub mod Zero
use osdev_graphical.Base.{
  ℕ, zero, suc, ◌+◌, ◌-◌, ◌*◌, ◌/◌, ◌%◌, ◌^◌, bit_and, bit_or, Bool, true, false, not, Option, none,
  some, if◌then◌else◌, ◌==◌,
}
use osdev_graphical.Memory.{Words, put}

abbrev pub full_word : ℕ
full_word = 0xffff_ffff

-- `mmap_set`
unfoldable pub set : Words → ℕ → Words
set m bit = put m (bit / 32) (bit_or (m (bit / 32)) (2 ^ (bit % 32)))

-- `mmap_unset`; `~(1 << k)` of 32 bits.
unfoldable pub unset : Words → ℕ → Words
unset m bit = put m (bit / 32) (bit_and (m (bit / 32)) (2 ^ 32 - 1 - 2 ^ (bit % 32)))

-- `mmap_test`
unfoldable pub test : Words → ℕ → Bool
test m bit = not (bit_and (m (bit / 32)) (2 ^ (bit % 32)) == 0)

-- The inner loop of `mmap_first_free`, with `left` rounds to go from bit `j`.
unfoldable pub first_clear : ℕ → ℕ → ℕ → Option ℕ
first_clear zero j w = none
first_clear (suc left) j w =
    let rest = first_clear left (suc j) w in if bit_and w (2 ^ j) == 0 then some j else rest

-- The outer loop, with `left` words to go from word `i`.
unfoldable pub first_free_from : ℕ → ℕ → Words → Option ℕ
first_free_from zero i m = none
first_free_from (suc left) i m =
    let rest = first_free_from left (suc i) m in
    if m i == full_word
    then rest
    else elim (first_clear 32 0 (m i)) [ some j ↦ some (i * 32 + j) | none ↦ rest ]

-- `mmap_first_free` over `blocks` blocks; `none` is -1.
unfoldable pub first_free : ℕ → Words → Option ℕ
first_free blocks m = first_free_from (blocks / 32) 0 m

-- How the search for a sequence stands: it has returned, or it goes on with
-- `current_seq_len` and `current_set_first_index`.
pub data Scan : Type 0 where
  found : ℕ → Scan
  going : ℕ → ℕ → Scan

-- The inner loop of `mmap_first_free_s` over bits `j..` of word `i`, which is `w`.
unfoldable pub scan_word : ℕ → ℕ → ℕ → ℕ → ℕ → ℕ → ℕ → Scan
scan_word seq_len i w zero j len first = going len first
scan_word seq_len i w (suc left) j len first =
    let clear = bit_and w (2 ^ j) == 0 in
    let first' = if clear then (if len == 0 then i * 32 + j else first) else first in
    let len' : ℕ = if clear then len + 1 else 0 in
    let rest = scan_word seq_len i w left (suc j) len' first' in
    if len' == seq_len then found first' else rest

-- One round of the outer loop.
unfoldable pub scan_round : ℕ → Words → ℕ → ℕ → ℕ → Scan
scan_round seq_len m i len first =
    if m i == full_word then going 0 first else scan_word seq_len i (m i) 32 0 len first

-- The outer loop.
unfoldable pub scan_from : ℕ → Words → ℕ → ℕ → ℕ → ℕ → Option ℕ
scan_from seq_len m zero i len first = none
scan_from seq_len m (suc left) i len first = elim (scan_round seq_len m i len first) [
  | found f ↦ some f
  | going len' first' ↦ scan_from seq_len m left (suc i) len' first'
]

-- `mmap_first_free_s`
unfoldable pub first_free_s : ℕ → Words → ℕ → Option ℕ
first_free_s blocks m seq_len = scan_from seq_len m (blocks / 32) 0 0 0

-- The loop of the block functions, `for (; seq_len > 0; seq_len--) mmap_set (frame++);`.
unfoldable pub set_range : Words → ℕ → ℕ → Words
set_range m frame zero = m
set_range m frame (suc left) = set_range (set m frame) (suc frame) left

unfoldable pub unset_range : Words → ℕ → ℕ → Words
unset_range m frame zero = m
unset_range m frame (suc left) = unset_range (unset m frame) (suc frame) left
