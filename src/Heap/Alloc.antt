-- ===== src/Heap/Alloc.antt =====
-- `kmalloc_alloc_blocks`, `kmalloc_free_blocks` and their one-block forms in kernel/heap.c.
use osdev_graphical.Base.{
  ℕ, zero, suc, ◌+◌, ◌-◌, ◌*◌, ◌/◌, ◌%◌, ◌^◌, ◌≤◌, ◌<◌, true, Option, none, some, ◌≡◌, ◌⊎◌, inl,
  inr, refl, arith, ◌∙◌, Bool-cases,
}
use osdev_graphical.Memory.Laws.{eq_cases}
use osdev_graphical.Bits.{bit_at-le}
use osdev_graphical.Bitmap
use osdev_graphical.Bitmap.Laws.{occ}
use osdev_graphical.Bitmap.Count.{occupied, occupied-le, occupied-lt}
use osdev_graphical.Bitmap.Run.{Blocked, IsFirstRun, RunLaw, first_free_s-law}
use osdev_graphical.Heap.{
  Heap, heap_base, heap_block_size, max_blocks, is_nonpositive, get_free_block_count, occupy,
  release, occupy_range, release_range, alloc_blocks, mmap_first_free_s,
}

pub occupy_range_lem :
    (h : Heap) (f n : ℕ)
    → h.used_blocks + n < 2 ^ 32
    → occupy_range h f n
      ≡ record h { memory_map = Bitmap.set_range h.memory_map f n; used_blocks = h.used_blocks + n }
unfolding occupy_range occupy Bitmap.set_range
occupy_range_lem h f zero l = ground arith
occupy_range_lem h f (suc n) l =
    occupy_range_lem (occupy h f) (suc f) n (omega arith) ∙ ground arith

pub release_range_lem :
    (h : Heap) (f n : ℕ)
    → h.used_blocks < 2 ^ 32
    → n ≤ h.used_blocks
    → release_range h f n ≡ record h {
      memory_map = Bitmap.unset_range h.memory_map f n;
      used_blocks = h.used_blocks - n;
    }
unfolding release_range release Bitmap.unset_range
release_range_lem h f zero l k = ground arith
release_range_lem h f (suc n) l k =
    release_range_lem (release h f) (suc f) n (omega arith) (omega arith) ∙ ground arith

-- The counter is the number of taken blocks.
abbrev pub IsCounted : Heap → Type 0
IsCounted h = h.used_blocks ≡ occupied h.memory_map max_blocks

full_taken :
    (h : Heap)
    → IsCounted h
    → is_nonpositive (get_free_block_count h) ≡ true
    → (b : ℕ) → b < max_blocks
    → occ h.memory_map b ≡ 1
full_taken h c e b l = elim (eq_cases (occ h.memory_map b) 0) [
  | inl z ↦ absurd (none_left (occupied-lt h.memory_map max_blocks b l z))
  | inr ne ↦ omega (arith, bit_at-le (h.memory_map (b / 32)) (b % 32))
]
  where
    none_left : ¬ (occupied h.memory_map max_blocks < max_blocks)
    none_left k = ground arith

-- The block functions' two outcomes, as for kernel/pmm.c.
abbrev pub AllocLaw : Heap → ℕ → ℕ × Heap → Type 0
AllocLaw h n out =
    ((out ≡ (0, h)) × ((g : ℕ) → g + n ≤ max_blocks → Blocked (occ h.memory_map) n g))
    ⊎ ((f : ℕ) × IsFirstRun (occ h.memory_map) n max_blocks f
        × (out ≡ (
          heap_base + f * heap_block_size,
          record h {
            memory_map = Bitmap.set_range h.memory_map f n;
            used_blocks = h.used_blocks + n;
          },
        )))

alloc_found :
    (h : Heap) (n : ℕ) (o : Option ℕ)
    → IsCounted h
    → RunLaw (occ h.memory_map) n max_blocks o
    → AllocLaw h n
        (elim o [ none ↦ (0, h) | some f ↦ (heap_base + f * heap_block_size, occupy_range h f n) ])
alloc_found h n none c r = inl (refl, r)
alloc_found h n (some f) c r =
    inr (
      f,
      r,
      rw (occupy_range_lem h f n (omega (arith, r.fits, occupied-le h.memory_map max_blocks))),
    )

pub alloc_blocks-AllocLaw :
    (h : Heap) (n : ℕ) → IsCounted h → 0 < n → AllocLaw h n (alloc_blocks h n)
unfolding alloc_blocks mmap_first_free_s
alloc_blocks-AllocLaw h n c pos = elim (Bool-cases (is_nonpositive (get_free_block_count h))) [
  | inl full ↦
      rw full
        (inl (refl, λ g l. (g, omega arith, omega arith, full_taken h c full g (omega arith))))
  | inr left ↦ rw left (
      alloc_found h n (Bitmap.first_free_s max_blocks h.memory_map n) c
        (first_free_s-law h.memory_map n max_blocks pos))
]
