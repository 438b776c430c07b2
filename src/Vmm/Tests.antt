-- ===== src/Vmm/Tests.antt =====
-- kernel/vmm.c on a machine with three free blocks, from block 1 on.
use osdev_graphical.Base.{
  ℕ, ◌+◌, ◌*◌, ◌/◌, ◌%◌, ◌≡◌, ◌⊎◌, inl, inr, refl, arith, if◌then◌else◌, ◌==◌,
}
use osdev_graphical.Memory.{Words, put, store_byte, memset}
use osdev_graphical.Bitmap
use osdev_graphical.Pmm.{Pmm, init, init_region, alloc_block, release_range, release}
use osdev_graphical.Pmm.Valid as PmmValid
use osdev_graphical.Pmm.Region.{init-IsValid, init_region-IsReleased}
use osdev_graphical.Vmm.Boot.{initialize-IsSpace}
use osdev_graphical.Vmm.{initialize, Vmm, create_pdir, virt2phys_pdir, map_page, unmap_virt}
use osdev_graphical.Vmm.Spec.{IsSpace}
use osdev_graphical.Vmm.Create.{CreateLaw, create_pdir-CreateLaw}
use osdev_graphical.Vmm.Map.{map_page-IsSpace, map_page-virt2phys}
use osdev_graphical.Vmm.Unmap.{unmap_virt-virt2phys}

abbrev blank : Words
blank i = 0

abbrev booted : Pmm
booted = init 128 blank

abbrev start : Vmm
start = record { cur_directory = 0; pmm = init_region booted 0x1000 0x2e00; memory = blank }

start-IsValid : PmmValid.IsValid start.pmm
unfolding init
start-IsValid =
    let v = init-IsValid 128 blank (omega arith) (omega arith) refl (λ i. omega arith) in
    let r =
      init_region-IsReleased 0x1000 0x2e00 v.0 refl (omega arith) (omega arith)
        (λ b lo hi. v.1 b (omega arith)) in
    r.valid

alloc_block-start : (alloc_block start.pmm).0 ≡ 0x1000
unfolding alloc_block init init_region release_range release memset store_byte put Bitmap.set
    Bitmap.unset Bitmap.first_free Bitmap.first_free_from Bitmap.first_clear
alloc_block-start = refl

create_pdir-CreateLaw_example : CreateLaw start (create_pdir start)
create_pdir-CreateLaw_example = create_pdir-CreateLaw start start-IsValid (λ i. omega arith)

-- The directory that is made, and its address.
abbrev fresh : Vmm
fresh = (create_pdir start).1

abbrev dir : ℕ
dir = (create_pdir start).0

fresh-IsSpace : IsSpace fresh dir
fresh-IsSpace = elim (create_pdir-CreateLaw start start-IsValid (λ i. omega arith)) [
  | inl (e, null) ↦ absurd (omega (arith, null, alloc_block-start))
  | inr (w, unmapped) ↦ w
]

map_page-IsSpace_example : IsSpace (map_page fresh dir 0xb_8000 0xc000_0000 2 6) dir
map_page-IsSpace_example =
    map_page-IsSpace 0xb_8000 0xc000_0000 2 6 fresh-IsSpace (omega arith) (omega arith)
      (omega arith)

map_page-virt2phys_example :
    let s' = map_page fresh dir 0xb_8000 0xc000_0000 2 6 in
    ((s' ≡ fresh) × (virt2phys_pdir fresh dir 0xc000_0000 ≡ 0) × ((alloc_block fresh.pmm).0 ≡ 0))
    ⊎ (virt2phys_pdir s' dir 0xc000_0123 ≡ (
        if 0xc000_0123 / 4096 == 0xc000_0000 / 4096
        then 0xb_8000 / 4096 * 4096 + 0xc000_0123 % 4096
        else virt2phys_pdir fresh dir 0xc000_0123))
map_page-virt2phys_example =
    map_page-virt2phys 0xb_8000 0xc000_0000 2 6 0xc000_0123 fresh-IsSpace (omega arith)
      (omega arith) (omega arith) (omega arith) (omega arith)

unmap_virt-virt2phys_example :
    IsSpace (unmap_virt fresh dir 0xc000_0000) dir
    × (virt2phys_pdir (unmap_virt fresh dir 0xc000_0000) dir 0xc000_0123 ≡ (
        if 0xc000_0123 / 4096 == 0xc000_0000 / 4096
        then 0
        else virt2phys_pdir fresh dir 0xc000_0123))
unmap_virt-virt2phys_example =
    unmap_virt-virt2phys 0xc000_0000 0xc000_0123 fresh-IsSpace (omega arith) (omega arith)

initialize-IsSpace_example :
    ((initialize start 786432 ≡ start) × ((create_pdir start).0 ≡ 0))
    ⊎ IsSpace (initialize start 786432) (initialize start 786432).cur_directory
initialize-IsSpace_example = initialize-IsSpace start 786432 start-IsValid (λ i. omega arith)
