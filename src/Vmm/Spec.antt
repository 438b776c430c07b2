-- ===== src/Vmm/Spec.antt =====
-- What an address space means: the translation that its directory and tables hold, and the
-- invariant that keeps the tables apart.
use osdev_graphical.Base.{
  ℕ, ◌+◌, ◌*◌, ◌/◌, ◌%◌, ◌^◌, ◌<◌, ◌≡◌, ◌≢◌, inl, inr, refl, arith, ◌∙◌, Bool-cases, ==_iff,
  if◌then◌else◌, ◌==◌,
}
use osdev_graphical.Memory.{Words}
use osdev_graphical.Memory.Laws.{IsWords}
use osdev_graphical.Bitmap.Laws.{occ}
use osdev_graphical.Pmm.Valid as PmmValid
use osdev_graphical.Paging.{
  pd_entry_pfn, pt_entry_pfn, pd_entry_is_present, pt_entry_is_present, frame_offset,
}
use osdev_graphical.Paging.Laws.{
  pt-present, pd-present, pt-pfn, pd-pfn, directory_index, table_index, frame_offset_lem,
}
use osdev_graphical.Vmm.{Vmm, virt2phys_pdir, ptable_lookup_entry, pdirectory_lookup_entry}

-- Entry `i` of the directory at `dir`, and entry `j` of the table in block `fr`.
abbrev pub pde : Words → ℕ → ℕ → ℕ
pde m dir i = m (dir / 4096 * 1024 + i)

abbrev pub pte : Words → ℕ → ℕ → ℕ
pte m fr j = m (fr * 1024 + j)

abbrev pub frame : ℕ → ℕ
frame e = e / 4096

-- The physical address at offset `off` of page `j` of table `i`, or 0.
abbrev pub translate : Words → ℕ → ℕ → ℕ → ℕ → ℕ
translate m dir i j off =
    if pde m dir i % 2 == 1
    then (if pte m (frame (pde m dir i)) j % 2 == 1
        then frame (pte m (frame (pde m dir i)) j) * 4096 + off
        else 0)
    else 0

pub record IsSpace (s : Vmm) (dir : ℕ) : Type 0 where
  pub valid : PmmValid.IsValid s.pmm
  pub words : IsWords s.memory
  pub aligned : dir % 4096 ≡ 0
  pub not_null : 0 < dir
  pub own : occ s.pmm.memory_map (frame dir) ≡ 1
  pub table_real : (i : ℕ) → i < 1024 → pde s.memory dir i % 2 ≡ 1 → 0 < frame (pde s.memory dir i)
  pub table_other :
      (i : ℕ) → i < 1024 → pde s.memory dir i % 2 ≡ 1 → frame (pde s.memory dir i) ≢ frame dir
  pub table_own :
      (i : ℕ)
      → i < 1024
      → pde s.memory dir i % 2 ≡ 1
      → occ s.pmm.memory_map (frame (pde s.memory dir i)) ≡ 1
  pub apart :
      (i j : ℕ)
      → i < 1024
      → j < 1024
      → i ≢ j
      → pde s.memory dir i % 2 ≡ 1
      → pde s.memory dir j % 2 ≡ 1
      → frame (pde s.memory dir i) ≢ frame (pde s.memory dir j)

-- The indices of a virtual address.
abbrev pub dir_of : ℕ → ℕ
dir_of v = v / 2 ^ 22 % 1024

abbrev pub page_of : ℕ → ℕ
page_of v = v / 2 ^ 12 % 1024

pub directory_slot :
    (dir v : ℕ)
    → dir % 4096 ≡ 0
    → 0 < dir
    → pdirectory_lookup_entry dir v / 4 ≡ dir / 4096 * 1024 + dir_of v
unfolding pdirectory_lookup_entry
directory_slot dir v al pos = rw (directory_index v) (ground arith)

pub table_slot :
    (e v : ℕ)
    → e < 2 ^ 32
    → 0 < frame e
    → ptable_lookup_entry (pd_entry_pfn e) v / 4 ≡ frame e * 1024 + page_of v
unfolding ptable_lookup_entry
table_slot e v b pos = rw (pd-pfn e b, table_index v) (ground arith)

-- The value that is computed once both entries are found.
abbrev resolve : ℕ → ℕ → ℕ → ℕ
resolve de pe v =
    if pd_entry_is_present de
    then (if pt_entry_is_present pe then pt_entry_pfn pe + frame_offset v else 0)
    else 0

resolve_lem :
    (de pe v : ℕ)
    → pe < 2 ^ 32
    → resolve de pe v
      ≡ (if de % 2 == 1 then (if pe % 2 == 1 then frame pe * 4096 + v % 4096 else 0) else 0)
resolve_lem de pe v b = rw (pd-present de, pt-present pe, pt-pfn pe b, frame_offset_lem v)

virt2phys-resolve :
    (s : Vmm) (dir v d p : ℕ)
    → pdirectory_lookup_entry dir v / 4 ≡ d
    → ptable_lookup_entry (pd_entry_pfn (s.memory d)) v / 4 ≡ p
    → virt2phys_pdir s dir v ≡ resolve (s.memory d) (s.memory p) v
unfolding virt2phys_pdir
virt2phys-resolve s dir v d p ed ep = rw (← ep, ← ed)

-- In a well-formed address space `vmmngr_virt2phys_pdir` is the two-level translation written on the
-- words of memory: 0 if the directory's or the table's entry has bit 0 clear, else the entry's frame
-- with the address's offset in the page.
pub virt2phys-translate :
    {s : Vmm} {dir : ℕ} (v : ℕ)
    → IsSpace s dir
    → virt2phys_pdir s dir v ≡ translate s.memory dir (dir_of v) (page_of v) (v % 4096)
virt2phys-translate {s} {dir} v w = elim (Bool-cases (e % 2 == 1)) [
  | inl there ↦
      virt2phys-resolve s dir v _ _ slot
        (table_slot e v (w.words _) (w.table_real (dir_of v) (omega arith) ((==_iff _ 1).0 there)))
      ∙ resolve_lem e _ v (w.words _)
  | inr gone ↦ virt2phys-resolve s dir v _ _ slot refl ∙ resolve_lem e _ v (w.words _) ∙ rw gone
]
  where
    e : ℕ
    e = pde s.memory dir (dir_of v)

    slot : pdirectory_lookup_entry dir v / 4 ≡ dir / 4096 * 1024 + dir_of v
    slot = directory_slot dir v w.aligned w.not_null

-- A memory that keeps a directory entry's frame and present bit, and the page's entry below it,
-- keeps the translation.
pub translate_ext :
    (m m' : Words) (dir i j off : ℕ)
    → frame (pde m' dir i) ≡ frame (pde m dir i)
    → pde m' dir i % 2 ≡ pde m dir i % 2
    → (pde m dir i % 2 ≡ 1 → pte m' (frame (pde m dir i)) j ≡ pte m (frame (pde m dir i)) j)
    → translate m' dir i j off ≡ translate m dir i j off
translate_ext m m' dir i j off f p h = elim (Bool-cases (pde m dir i % 2 == 1)) [
  | inl there ↦ rw (p, there, f, h ((==_iff _ 1).0 there))
  | inr gone ↦ rw (p, gone)
]
