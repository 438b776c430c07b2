-- ===== src/Pmm/Tests.antt =====
-- kernel/pmm.c on a machine of 128 KiB, which is 32 blocks.
use osdev_graphical.Base.{ℕ, ◌<◌, ◌≡◌, refl, arith, if◌then◌else◌, ◌==◌}
use osdev_graphical.Memory.{Words, put, store_byte, memset}
use osdev_graphical.Bitmap
use osdev_graphical.Bitmap.Laws.{occ}
use osdev_graphical.Pmm.{
  Pmm, MemoryRegion, init, release, release_range, init_region, alloc_block, alloc_blocks,
}
use osdev_graphical.Pmm.Valid.{IsValid, IsReleased, AllocLaw}
use osdev_graphical.Pmm.Alloc.{alloc_block-AllocLaw, alloc_blocks-AllocLaw}
use osdev_graphical.Pmm.Region.{init-IsValid, init_region-IsReleased}

abbrev blank : Words
blank i = 0

abbrev booted : Pmm
booted = init 128 blank

-- 0x1000 to 0x3fff, rounded up from 0x3e00.
abbrev ready : Pmm
ready = init_region booted 0x1000 0x2e00

booted-IsValid : IsValid booted × ((b : ℕ) → b < booted.max_blocks → occ booted.memory_map b ≡ 1)
booted-IsValid = init-IsValid 128 blank (omega arith) (omega arith) refl (λ i. omega arith)

ready-IsReleased : IsReleased booted 3 1 ready
unfolding init
ready-IsReleased =
    init_region-IsReleased 0x1000 0x2e00 booted-IsValid.0 refl (omega arith) (omega arith)
      (λ b lo hi. booted-IsValid.1 b (omega arith))

alloc_block-AllocLaw_example : AllocLaw ready 1 (alloc_block ready)
alloc_block-AllocLaw_example = alloc_block-AllocLaw ready-IsReleased.valid

alloc_blocks-AllocLaw_example : AllocLaw ready 2 (alloc_blocks ready 2)
alloc_blocks-AllocLaw_example = alloc_blocks-AllocLaw 2 ready-IsReleased.valid (omega arith)

alloc_blocks-ready : (alloc_blocks ready 2).0 ≡ 0x1000
unfolding alloc_blocks init init_region release_range release memset store_byte put Bitmap.set
    Bitmap.unset Bitmap.first_free_s Bitmap.scan_from Bitmap.scan_round Bitmap.scan_word
alloc_blocks-ready = refl

alloc_block-ready : (alloc_block ready).0 ≡ 0x1000
unfolding alloc_block init init_region release_range release memset store_byte put Bitmap.set
    Bitmap.unset Bitmap.first_free Bitmap.first_free_from Bitmap.first_clear
alloc_block-ready = refl

abbrev table : ℕ → MemoryRegion
table i =
    if i == 0
    then record { start_lo = 0; size_lo = 0x1000; type = 1 }
    else if i == 1
    then record { start_lo = 0x2000; size_lo = 0x1000; type = 9 }
    else record { start_lo = 0; size_lo = 0; type = 0 }
