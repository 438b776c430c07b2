-- ===== src/Heap/Faults.antt =====
-- Where kernel/heap.c does not keep its promise: a size that wraps, a null pointer that is filled,
-- and a map that is cleared by a quarter.
use osdev_graphical.Base.{ℕ, ◌+◌, ◌/◌, ◌≤◌, ◌<◌, false, ◌≡◌, ◌≢◌, refl, arith}
use osdev_graphical.Memory.{load_byte}
use osdev_graphical.Memory.Laws.{put_self, load-memset_in}
use osdev_graphical.Bitmap.{full_word}
use osdev_graphical.Bitmap.Laws.{occ}
use osdev_graphical.Bitmap.Zero.{first_free_s-zero}
use osdev_graphical.Bitmap.Bytes.{occ-memset_zeros, occ-memset_out}
use osdev_graphical.Heap.{
  Heap, heap_base, max_blocks, get_free_block_count, is_nonpositive, load_word, kmalloc, kcalloc,
  heap_init, describe, alloc_blocks, store_word, mmap_first_free_s, occupy_range,
}

-- `heap_init` frees the first quarter of the blocks only: it clears a byte where the map has a word.
-- The other three quarters and the counter stay as they are.
pub heap_init-quarter :
    (h : Heap) (b : ℕ)
    → (b < max_blocks / 4 → occ (heap_init h).memory_map b ≡ 0)
      × (max_blocks / 4 ≤ b → occ (heap_init h).memory_map b ≡ occ h.memory_map b)
      × ((heap_init h).used_blocks ≡ h.used_blocks)
unfolding heap_init
heap_init-quarter h b = (
  λ l. occ-memset_zeros h.memory_map (max_blocks / 32) b (omega arith),
  λ l. occ-memset_out h.memory_map (max_blocks / 32) b 0 (omega arith),
  refl,
)

-- When `kmalloc` returns null, `kcalloc` returns null too, and it has set the `size` bytes from
-- address 0 on to zero.
pub kcalloc-null :
    (h : Heap) (size : ℕ)
    → (kmalloc h size).0 ≡ 0
    → ((kcalloc h size).0 ≡ 0) × ((a : ℕ) → a < size → load_byte (kcalloc h size).1.memory a ≡ 0)
unfolding kcalloc
kcalloc-null h size e = (
  e,
  λ a l. rw e (load-memset_in (kmalloc h size).1.memory 0 0 size a (omega arith) (omega arith)),
)

-- `kmalloc (0xfffffffc)` while block 0 is taken and its word of the map is not full, with blocks
-- left: the size wraps to nothing, and what comes back is the pointer of block 0, whose descriptor
-- is now 0.
pub kmalloc_wrapped :
    (h : Heap)
    → is_nonpositive (get_free_block_count h) ≡ false
    → occ h.memory_map 0 ≡ 1
    → h.memory_map 0 ≢ full_word
    → ((kmalloc h 0xffff_fffc).0 ≡ heap_base + 4)
      × (load_word (kmalloc h 0xffff_fffc).1.memory heap_base ≡ 0)
      × ((kmalloc h 0xffff_fffc).1.memory_map ≡ h.memory_map)
unfolding kmalloc alloc_blocks mmap_first_free_s describe store_word occupy_range
kmalloc_wrapped h left taken open_word =
    rw (left, first_free_s-zero max_blocks h.memory_map (omega arith) taken open_word)
      (refl, put_self h.memory (heap_base / 4) 0, refl)
