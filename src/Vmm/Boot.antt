-- ===== src/Vmm/Boot.antt =====
-- `vmmngr_mmap` and `vmmngr_initialize` keep to the invariant.
use osdev_graphical.Base.{
  ℕ, zero, suc, ◌+◌, ◌*◌, ◌/◌, ◌%◌, ◌^◌, ◌<◌, ◌≡◌, ◌⊎◌, inl, inr, refl, arith, if◌then◌else◌, ◌==◌,
  bit_or, false, sym,
}
use mathlib.Core.Path.{subst}
use osdev_graphical.Bits.{or-lt}
use osdev_graphical.Memory.Laws.{IsWords}
use osdev_graphical.Pmm.Valid as PmmValid
use osdev_graphical.Paging.{flag_writable, flag_pat}
use osdev_graphical.Vmm.{Vmm, create_pdir, map_page, mmap, switch_pdirectory, initialize}
use osdev_graphical.Vmm.Spec.{IsSpace}
use osdev_graphical.Vmm.Create.{create_pdir-CreateLaw}
use osdev_graphical.Vmm.Map.{map_page-IsSpace}

-- `vmmngr_mmap` of any number of pages from a 32-bit frame and address on, with flags below the
-- frame's bits, keeps an address space well formed, also when a table cannot be had on the way.
pub mmap-IsSpace :
    {s : Vmm} {dir : ℕ} (frame virt range pde_flags pte_flags : ℕ)
    → IsSpace s dir
    → frame < 2 ^ 32
    → pde_flags < 4096
    → pte_flags < 4096
    → IsSpace (mmap s dir frame virt range pde_flags pte_flags) dir
unfolding mmap
mmap-IsSpace {s = s} {dir = dir} frame virt zero d f w hp hd hf = w
mmap-IsSpace {s = s} {dir = dir} frame virt (suc left) d f w hp hd hf =
    mmap-IsSpace {s = map_page s dir frame virt d f} ((frame + 4096) % 2 ^ 32)
      ((virt + 4096) % 2 ^ 32) left d f (map_page-IsSpace frame virt d f w hp hd hf) (omega arith)
      hd hf

-- The current directory is no part of the invariant.
IsSpace-switch :
    {s : Vmm} {dir : ℕ} (c : ℕ) → IsSpace s dir → IsSpace (record s { cur_directory = c }) dir
IsSpace-switch c w = record {
  valid = w.valid;
  words = w.words;
  aligned = w.aligned;
  not_null = w.not_null;
  own = w.own;
  table_real = w.table_real;
  table_other = w.table_other;
  table_own = w.table_own;
  apart = w.apart;
}

-- `vmmngr_initialize` after its `vmmngr_create_pdir`.
abbrev boot_from : ℕ × Vmm → ℕ → Vmm
boot_from (dir, s0) pixels =
    let s1 = record s0 { cur_directory = dir } in
    let s2 = mmap s1 dir 0x1000 0x1000 1023 flag_writable flag_writable in
    let s3 = mmap s2 dir 0x10_0000 0xc000_0000 (1024 * 4) flag_writable flag_writable in
    let s4 =
      mmap s3 dir 0xfd00_0000 (0xc000_0000 + 0xd00_0000) (pixels * 3 / 4096 + 100) flag_writable
        (bit_or flag_writable flag_pat) in
    if dir == 0 then s0 else (switch_pdirectory s4 dir).1

boot_from-IsSpace :
    (dir : ℕ) (s0 : Vmm) (pixels : ℕ)
    → IsSpace s0 dir
    → IsSpace (boot_from (dir, s0) pixels) (boot_from (dir, s0) pixels).cur_directory
unfolding switch_pdirectory
boot_from-IsSpace dir s0 pixels w = rw real (
    IsSpace-switch dir (
      mmap-IsSpace 0xfd00_0000 (0xc000_0000 + 0xd00_0000) (pixels * 3 / 4096 + 100) 2
        (bit_or 2 0x80)
        (mmap-IsSpace 0x10_0000 0xc000_0000 (1024 * 4) 2 2
          (mmap-IsSpace 0x1000 0x1000 1023 2 2 (IsSpace-switch dir w) (omega arith) (omega arith)
            (omega arith))
          (omega arith) (omega arith) (omega arith))
        (omega arith) (omega arith) (or-lt 12 2 0x80 (omega arith) (omega arith))))
  where
    real : (dir == 0) ≡ false
    real = ground (arith, w.not_null)

-- From a valid physical memory manager and a memory of 32-bit words, for any screen size,
-- `vmmngr_initialize` changes nothing because no directory could be had, or leaves a well-formed
-- address space as the current directory.
pub initialize-IsSpace :
    (s : Vmm) (pixels : ℕ)
    → PmmValid.IsValid s.pmm
    → IsWords s.memory
    → ((initialize s pixels ≡ s) × ((create_pdir s).0 ≡ 0))
      ⊎ IsSpace (initialize s pixels) (initialize s pixels).cur_directory
unfolding initialize
initialize-IsSpace s pixels v w = elim (create_pdir-CreateLaw s v w) [
  | inl (e, full) ↦ inl (
    subst (λ o. boot_from o pixels ≡ s) (sym e) refl,
    subst (λ (o : ℕ × Vmm). o.0 ≡ 0) (sym e) refl,
  )
  | inr (space, unmapped) ↦ inr (boot_from-IsSpace (create_pdir s).0 (create_pdir s).1 pixels space)
]
