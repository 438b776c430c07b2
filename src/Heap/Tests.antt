-- ===== src/Heap/Tests.antt =====
-- kernel/heap.c from the empty heap: 10 bytes, a write into them, and their release.
use osdev_graphical.Base.{ℕ, ◌+◌, ◌/◌, ◌≤◌, ◌<◌, ◌≡◌, refl, arith, [], ◌∷◌}
use osdev_graphical.Memory.{Words, put}
use osdev_graphical.Bitmap.Laws.{occ}
use osdev_graphical.Bitmap
use osdev_graphical.Heap.{
  Heap, max_blocks, alloc_blocks, mmap_first_free_s, describe, occupy_range, kmalloc, kfree,
}
use osdev_graphical.Heap.Live.{Live}
use osdev_graphical.Heap.Valid.{IsHeap, pointer}
use osdev_graphical.Heap.Malloc.{MallocLaw, kmalloc-MallocLaw}
use osdev_graphical.Heap.Free.{kfree-IsHeap}
use osdev_graphical.Heap.Trace.{malloc, write, Reach, here, next, fresh, Reach-IsHeap}

abbrev blank : Words
blank i = 0

abbrev first : Live
first = record { start = 0; blocks = 2 }

pointer-kmalloc : (kmalloc (fresh blank) 10).0 ≡ pointer first
unfolding kmalloc alloc_blocks mmap_first_free_s describe occupy_range Bitmap.first_free_s
    Bitmap.scan_from Bitmap.scan_round Bitmap.scan_word
pointer-kmalloc = refl

after_malloc : Reach (fresh blank) [] (kmalloc (fresh blank) 10).1 (first ∷ [])
after_malloc =
    next here (malloc 10 first (omega arith) pointer-kmalloc (omega arith) (omega arith) refl refl)

-- The second word of the payload.
abbrev written : Heap
written =
    let h = (kmalloc (fresh blank) 10).1 in
    record h { memory = put h.memory (0xc030_0000 / 4 + 2) 77 }

after_write : Reach (fresh blank) [] written (first ∷ [])
after_write =
    next after_malloc (write [] [] first (0xc030_0000 / 4 + 2) 77 refl (omega arith) refl refl)

Reach-IsHeap_example : IsHeap written (first ∷ [])
Reach-IsHeap_example = Reach-IsHeap after_write

kmalloc-MallocLaw_example : MallocLaw written (first ∷ []) 100 (kmalloc written 100)
kmalloc-MallocLaw_example = kmalloc-MallocLaw 100 Reach-IsHeap_example (omega arith)

kfree-IsHeap_example :
    IsHeap (kfree written (pointer first)) []
    × ((b : ℕ) → 0 ≤ b → b < 2 → occ (kfree written (pointer first)).memory_map b ≡ 0)
    × ((kfree written (pointer first)).memory ≡ written.memory)
kfree-IsHeap_example = kfree-IsHeap [] [] first Reach-IsHeap_example

-- A heap whose counter says that it is full.
abbrev full : Heap
full = record { used_blocks = max_blocks; memory_map = λ i. 0; memory = blank }
