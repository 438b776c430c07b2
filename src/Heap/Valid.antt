-- ===== src/Heap/Valid.antt =====
-- The invariant that ties the kernel heap to its live allocations.
use osdev_graphical.Base.{ℕ, ◌+◌, ◌*◌, ◌/◌, ◌≤◌, ◌<◌, ◌≡◌, ◌∙◌, List}
use osdev_graphical.Memory.{Words}
use osdev_graphical.Memory.Laws.{IsWords}
use osdev_graphical.Bitmap.Laws.{occ}
use osdev_graphical.Bitmap.Count.{occupied}
use osdev_graphical.Heap.{Heap, heap_base, heap_block_size, block_amt_desc_size, max_blocks}
use osdev_graphical.Heap.Live.{Live, Each, AllApart, total}

-- Where an allocation begins, and the pointer that its owner has.
abbrev pub block_address : Live → ℕ
block_address x = heap_base + x.start * heap_block_size

abbrev pub pointer : Live → ℕ
pointer x = block_address x + block_amt_desc_size

-- The first address past it.
abbrev pub end_address : Live → ℕ
end_address x = block_address x + x.blocks * heap_block_size

-- The blocks of `x` lie in the heap and are taken, and its descriptor says how many they are.
pub record IsOwned (memory_map memory : Words) (x : Live) : Type 0 where
  pub some_blocks : 0 < x.blocks
  pub inside : x.start + x.blocks ≤ max_blocks
  pub taken : (b : ℕ) → x.start ≤ b → b < x.start + x.blocks → occ memory_map b ≡ 1
  pub described : memory (block_address x / 4) ≡ x.blocks

pub record IsHeap (h : Heap) (l : List Live) : Type 0 where
  pub counted : h.used_blocks ≡ occupied h.memory_map max_blocks
  pub all_live : h.used_blocks ≡ total l
  pub words : IsWords h.memory_map
  pub owned : Each (IsOwned h.memory_map h.memory) l
  pub apart : AllApart l

-- A word of `x`'s own, past its descriptor.
abbrev pub IsPayload : Live → ℕ → Type 0
IsPayload x i = (block_address x / 4 < i) × (i < end_address x / 4)

-- Writes to the map and the memory that leave `x`'s blocks and descriptor alone.
pub IsOwned-keep :
    {b m b' m' : Words} (x : Live)
    → ((k : ℕ) → x.start ≤ k → k < x.start + x.blocks → occ b' k ≡ occ b k)
    → m' (block_address x / 4) ≡ m (block_address x / 4)
    → IsOwned b m x
    → IsOwned b' m' x
IsOwned-keep x same desc o = record {
  some_blocks = o.some_blocks;
  inside = o.inside;
  taken = λ k lo hi. same k lo hi ∙ o.taken k lo hi;
  described = desc ∙ o.described;
}
