-- ===== src/Heap/Malloc.antt =====
-- `kmalloc` of kernel/heap.c.
use osdev_graphical.Base.{
  ℕ, ◌+◌, ◌*◌, ◌/◌, ◌^◌, ◌≤◌, ◌<◌, false, max, ◌≡◌, ◌≢◌, ◌⊎◌, inl, inr, refl, sym, ap, arith, ◌∙◌,
  List, ◌∷◌, dec_le, ◌==◌,
}
use osdev_graphical.Memory.{Words}
use osdev_graphical.Memory.Laws.{put_self, put_ne}
use osdev_graphical.Bitmap
use osdev_graphical.Bitmap.Laws.{occ, occ-set_range_in, occ-set_range_out, set_range-IsWords}
use osdev_graphical.Bitmap.Count.{occupied-set_range}
use osdev_graphical.Bitmap.Run.{Blocked, IsFirstRun}
use osdev_graphical.Heap.{
  Heap, heap_base, heap_block_size, block_amt_desc_size, max_blocks, store_word, blocks_for,
  describe, kmalloc,
}
use osdev_graphical.Heap.Alloc.{AllocLaw, alloc_blocks-AllocLaw}
use osdev_graphical.Heap.Live.{Live, Apart, Each, Each-map, Each-zip}
use osdev_graphical.Heap.Valid.{block_address, pointer, end_address, IsOwned, IsHeap, IsOwned-keep}

-- A run of free blocks keeps clear of what is owned.
free_Apart :
    {b m : Words} (f n : ℕ) (x : Live)
    → 0 < n
    → ((k : ℕ) → f ≤ k → k < f + n → occ b k ≡ 0)
    → IsOwned b m x
    → Apart (record { start = f; blocks = n }) x
free_Apart f n x pos free o = elim (dec_le (f + n) x.start) [
  | yes p ↦ inl p
  | no p ↦ elim (dec_le (x.start + x.blocks) f) [
    | yes q ↦ inr q
    | no q ↦ absurd (
        omega (
          arith,
          o.some_blocks,
          free (max f x.start) (omega arith) (omega arith),
          o.taken (max f x.start) (omega arith) (omega (arith, o.some_blocks)),
        ))
  ]
]

-- The state that a successful `kmalloc` of `n` blocks from `f` leaves.
abbrev taken_by : Heap → ℕ → ℕ → Heap
taken_by h f n = record {
  used_blocks = h.used_blocks + n;
  memory_map = Bitmap.set_range h.memory_map f n;
  memory = store_word h.memory (heap_base + f * heap_block_size) n;
}

keep-IsOwned :
    (h : Heap) (f n : ℕ) (x : Live)
    → 0 < n
    → Apart (record { start = f; blocks = n }) x
    → IsOwned h.memory_map h.memory x
    → IsOwned (taken_by h f n).memory_map (taken_by h f n).memory x
unfolding store_word
keep-IsOwned h f n x pos a o =
    IsOwned-keep x (λ k lo hi. occ-set_range_out h.memory_map f n k (omega arith))
      (put_ne h.memory ((heap_base + f * heap_block_size) / 4) n (block_address x / 4)
        (omega (arith, o.some_blocks)))
      o

taken_by-IsHeap :
    {h : Heap} {l : List Live} (f n : ℕ)
    → IsHeap h l
    → 0 < n
    → IsFirstRun (occ h.memory_map) n max_blocks f
    → IsHeap (taken_by h f n) (record { start = f; blocks = n } ∷ l)
unfolding store_word
taken_by-IsHeap {h} {l} f n v pos r = record {
  counted =
      ap (λ (u : ℕ). u + n) v.counted
      ∙ sym (occupied-set_range h.memory_map f n max_blocks r.fits r.clear);
  all_live = omega (arith, v.all_live);
  words = set_range-IsWords h.memory_map f n v.words;
  owned = (
    record {
      some_blocks = pos;
      inside = r.fits;
      taken = λ b lo hi. occ-set_range_in h.memory_map f n b lo hi;
      described = put_self h.memory ((heap_base + f * heap_block_size) / 4) n;
    },
    Each-zip (Apart (record { start = f; blocks = n })) (IsOwned h.memory_map h.memory)
        (IsOwned (taken_by h f n).memory_map (taken_by h f n).memory) l
        (λ x a o. keep-IsOwned h f n x pos a o) clear v.owned,
  );
  apart = (clear, v.apart);
}
  where
    clear : Each (Apart (record { start = f; blocks = n })) l
    clear =
        Each-map (IsOwned h.memory_map h.memory) (Apart (record { start = f; blocks = n })) l
          (λ x o. free_Apart f n x pos r.clear o) v.owned

-- The outcomes of `kmalloc`: null, with nothing changed and no room; or the pointer of a fresh
-- allocation `x` with room for the request.
pub record IsGranted (h : Heap) (l : List Live) (size : ℕ) (out : ℕ × Heap) (x : Live)
    : Type 0 where
  pub address : out.0 ≡ pointer x
  pub room : pointer x + size ≤ end_address x
  pub snug : end_address x < pointer x + size + heap_block_size
  pub valid : IsHeap out.1 (x ∷ l)
  pub others :
      (i : ℕ) → (i < block_address x / 4) ⊎ (end_address x / 4 ≤ i) → out.1.memory i ≡ h.memory i

abbrev pub MallocLaw : Heap → List Live → ℕ → ℕ × Heap → Type 0
MallocLaw h l size out =
    ((out ≡ (0, h))
      × ((g : ℕ)
          → g + blocks_for size ≤ max_blocks
          → Blocked (occ h.memory_map) (blocks_for size) g))
    ⊎ ((x : Live) × IsGranted h l size out x)

not_descriptor :
    (f n i : ℕ)
    → 0 < n
    → (i < (heap_base + f * heap_block_size) / 4)
      ⊎ ((heap_base + f * heap_block_size + n * heap_block_size) / 4 ≤ i)
    → i ≢ (heap_base + f * heap_block_size) / 4
not_descriptor f n i pos out = omega arith

granted :
    {h : Heap} {l : List Live} (size f : ℕ)
    → IsHeap h l
    → size + 12 ≤ 2 ^ 32
    → IsFirstRun (occ h.memory_map) (blocks_for size) max_blocks f
    → IsGranted h l size
        (heap_base + f * heap_block_size + block_amt_desc_size, taken_by h f (blocks_for size))
        (record { start = f; blocks = blocks_for size })
unfolding store_word
granted {h} size f v small r = record {
  address = refl;
  room = ground arith;
  snug = ground arith;
  valid = taken_by-IsHeap f (blocks_for size) v (ground arith) r;
  others = λ i out.
      put_ne h.memory ((heap_base + f * heap_block_size) / 4) (blocks_for size) i
        (not_descriptor f (blocks_for size) i (ground arith) out);
}

malloc_found :
    (h : Heap) (l : List Live) (size : ℕ) (out : ℕ × Heap)
    → IsHeap h l
    → size + 12 ≤ 2 ^ 32
    → AllocLaw h (blocks_for size) out
    → MallocLaw h l size (describe (blocks_for size) out)
unfolding describe
malloc_found h l size out v small (inl (e, full)) = inl (rw e, full)
malloc_found h l size out v small (inr (f, r, e)) =
    rw (e, not_null)
      (inr (record { start = f; blocks = blocks_for size }, granted size f v small r))
  where
    not_null : (heap_base + f * heap_block_size == 0) ≡ false
    not_null = ground arith

-- In a valid heap `kmalloc` of a size that does not wrap either returns null, changes nothing, and
-- no run of free blocks would hold the request; or returns the pointer of a new allocation that
-- holds the request with less than a block to spare, keeps the heap valid with it live beside the
-- others, and changes no word of memory outside it.
pub kmalloc-MallocLaw :
    {h : Heap} {l : List Live} (size : ℕ)
    → IsHeap h l
    → size + 12 ≤ 2 ^ 32
    → MallocLaw h l size (kmalloc h size)
unfolding kmalloc
kmalloc-MallocLaw {h} {l} size v small =
    malloc_found h l size _ v small
      (alloc_blocks-AllocLaw h (blocks_for size) v.counted (ground arith))
