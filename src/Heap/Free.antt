-- ===== src/Heap/Free.antt =====
-- `kfree` of kernel/heap.c.
use osdev_graphical.Base.{
  ℕ, ◌+◌, ◌-◌, ◌%◌, ◌^◌, ◌≤◌, ◌<◌, false, ◌≡◌, refl, leb, arith, List, ◌∷◌, ◌++◌, ◌==◌,
}
use osdev_graphical.Bitmap
use osdev_graphical.Bitmap.Laws.{occ, occ-unset_range_in, occ-unset_range_out, unset_range-IsWords}
use osdev_graphical.Bitmap.Count.{occupied, occupied-le, occupied-unset_range}
use osdev_graphical.Heap.{
  Heap, block_amt_desc_size, max_blocks, frame_of, release_range, free_blocks, kfree,
}
use osdev_graphical.Heap.Alloc.{release_range_lem}
use osdev_graphical.Heap.Live.{
  Live, Apart, Each-zip, Each-pick, Each-drop, AllApart-drop, AllApart-pick, total-pick,
}
use osdev_graphical.Heap.Valid.{block_address, pointer, IsOwned, IsHeap, IsOwned-keep}

-- The descriptor gives `kfree` the run that `kmalloc` took.
kfree-release :
    (h : Heap) (x : Live)
    → IsOwned h.memory_map h.memory x
    → kfree h (pointer x) ≡ release_range h x.start x.blocks
unfolding kfree free_blocks
kfree-release h x o = rw (not_null, below, o.described, frame, counts) refl
  where
    bound : x.start < max_blocks
    bound = omega (arith, o.some_blocks, o.inside)

    not_null : (pointer x == 0) ≡ false
    not_null = ground arith

    counts : leb (2 ^ 31) x.blocks ≡ false
    counts = ground (arith, bound, o.inside)

    below : (pointer x + 2 ^ 32 - block_amt_desc_size) % 2 ^ 32 ≡ block_address x
    below = omega (arith, bound)

    frame : frame_of (block_address x) ≡ x.start
    frame = omega (arith, bound)

-- In a valid heap `kfree` of a live allocation keeps the heap valid with that one gone and the
-- others live, frees its blocks, and changes no memory.
pub kfree-IsHeap :
    {h : Heap} (pre post : List Live) (x : Live)
    → IsHeap h (pre ++ (x ∷ post))
    → IsHeap (kfree h (pointer x)) (pre ++ post)
      × ((b : ℕ)
          → x.start ≤ b
          → b < x.start + x.blocks
          → occ (kfree h (pointer x)).memory_map b ≡ 0)
      × ((kfree h (pointer x)).memory ≡ h.memory)
kfree-IsHeap {h} pre post x v =
    rw (kfree-release h x own, release_range_lem h x.start x.blocks small enough)
      (
        record {
          counted = omega (arith, left, v.counted);
          all_live = omega (arith, v.all_live, total-pick x post pre);
          words = unset_range-IsWords h.memory_map x.start x.blocks v.words;
          owned =
              Each-zip (Apart x) (IsOwned h.memory_map h.memory)
                (IsOwned (Bitmap.unset_range h.memory_map x.start x.blocks) h.memory) (pre ++ post)
                keep (AllApart-pick x post pre v.apart)
                (Each-drop x post (IsOwned h.memory_map h.memory) pre v.owned);
          apart = AllApart-drop x post pre v.apart;
        },
        λ b lo hi. occ-unset_range_in h.memory_map x.start x.blocks b lo hi,
        refl,
      )
  where
    own : IsOwned h.memory_map h.memory x
    own = Each-pick x post (IsOwned h.memory_map h.memory) pre v.owned

    left :
        occupied (Bitmap.unset_range h.memory_map x.start x.blocks) max_blocks + x.blocks
        ≡ occupied h.memory_map max_blocks
    left = occupied-unset_range h.memory_map x.start x.blocks max_blocks own.inside own.taken

    enough : x.blocks ≤ h.used_blocks
    enough = omega (arith, left, v.counted)

    small : h.used_blocks < 2 ^ 32
    small = omega (arith, v.counted, occupied-le h.memory_map max_blocks)

    keep :
        (y : Live)
        → Apart x y
        → IsOwned h.memory_map h.memory y
        → IsOwned (Bitmap.unset_range h.memory_map x.start x.blocks) h.memory y
    keep y a o =
        IsOwned-keep y
          (λ k lo hi. occ-unset_range_out h.memory_map x.start x.blocks k (omega arith)) refl o
