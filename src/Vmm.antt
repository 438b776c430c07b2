-- ===== src/Vmm.antt =====
-- kernel/vmm.c, the virtual memory manager: two-level page tables in physical memory.
-- A directory or table is reached at its physical address, which the kernel maps one to one, and an
-- entry by the address of its word. Loading CR3, flushing the TLB and switching paging on are
-- assembly and leave this state alone.
pub mod Clear
pub mod Spec
pub mod Write
pub mod Entered
pub mod Ensure
pub mod Entry
pub mod Create
pub mod Map
pub mod Unmap
pub mod Boot
mod Tests
use osdev_graphical.Base.{
  ℕ, zero, suc, ◌+◌, ◌-◌, ◌*◌, ◌/◌, ◌%◌, ◌^◌, Bool, true, false, Option, none, some, if◌then◌else◌,
  ◌==◌, bit_or,
}
use osdev_graphical.Memory.{Words, put, memset}
use osdev_graphical.Pmm
use osdev_graphical.Pmm.{Pmm}
use osdev_graphical.Paging.{
  flag_present, flag_writable, flag_pat, pt_entry_add_attrib, pt_entry_del_attrib,
  pt_entry_set_frame, pt_entry_is_present, pt_entry_pfn, pd_entry_add_attrib, pd_entry_set_frame,
  pd_entry_is_present, pd_entry_pfn, page_directory_index, page_table_index, frame_offset,
}

-- `_cur_directory`, with the memory and the physical memory manager that the functions work on.
pub record Vmm : Type 0 where
  pub cur_directory : ℕ
  pub pmm : Pmm
  pub memory : Words

-- `*e` and `*e = v` for a pointer to an entry.
abbrev pub load : Vmm → ℕ → ℕ
load s e = s.memory (e / 4)

pub store : Vmm → ℕ → ℕ → Vmm
store s e v = record s { memory = put s.memory (e / 4) v }

pub alloc_page : Vmm → ℕ → ℕ → Bool × Vmm
alloc_page s e pte_flags =
    let (p, pmm') = Pmm.alloc_block s.pmm in
    let s' = record s { pmm = pmm' } in
    let entry = pt_entry_add_attrib (pt_entry_set_frame (load s e) p) flag_present in
    if p == 0 then (false, s') else (true, store s' e (pt_entry_add_attrib entry pte_flags))

pub free_page : Vmm → ℕ → Vmm
free_page s e =
    let p = pt_entry_pfn (load s e) in
    let s' = if p == 0 then s else record s { pmm = Pmm.free_block s.pmm p } in
    store s' e (pt_entry_del_attrib (load s e) flag_present)

-- `&p->m_entries[PAGE_TABLE_INDEX (addr)]`, or null.
pub ptable_lookup_entry : ℕ → ℕ → ℕ
ptable_lookup_entry p addr = if p == 0 then 0 else p + 4 * page_table_index addr

pub pdirectory_lookup_entry : ℕ → ℕ → ℕ
pdirectory_lookup_entry p addr = if p == 0 then 0 else p + 4 * page_directory_index addr

-- The assembly call that loads CR3 is left out.
pub switch_pdirectory : Vmm → ℕ → Bool × Vmm
switch_pdirectory s dir = if dir == 0 then (false, s) else (true, record s { cur_directory = dir })

pub set_pdirectory_ptr : Vmm → ℕ → Vmm
set_pdirectory_ptr s dir = record s { cur_directory = dir }

pub pdirectory_clear : Vmm → ℕ → Vmm
pdirectory_clear s dir = record s { memory = memset s.memory dir 0 (1024 * 4) }

pub ptable_clear : Vmm → ℕ → Vmm
ptable_clear s table = record s { memory = memset s.memory table 0 (1024 * 4) }

pub create_pdir : Vmm → ℕ × Vmm
create_pdir s =
    let (dir, pmm') = Pmm.alloc_block s.pmm in
    let s' = record s { pmm = pmm' } in if dir == 0 then (0, s') else (dir, pdirectory_clear s' dir)

-- The loop over the entries from index `i`, with `left` to go.
pub free_tables : Vmm → ℕ → ℕ → ℕ → Vmm
free_tables s pdir zero i = s
free_tables s pdir (suc left) i =
    let e = load s (pdir + 4 * i) in
    let s' =
      if pd_entry_is_present e
      then record s { pmm = Pmm.free_block s.pmm (pd_entry_pfn e) }
      else s in
    free_tables s' pdir left (suc i)

pub free_pdir : Vmm → ℕ → Vmm
free_pdir s pdir =
    let s' = free_tables s pdir 1024 0 in record s' { pmm = Pmm.free_block s'.pmm pdir }

pub virt2phys_pdir : Vmm → ℕ → ℕ → ℕ
virt2phys_pdir s pdir virt =
    let directory_entry = load s (pdirectory_lookup_entry pdir virt) in
    let page_entry = load s (ptable_lookup_entry (pd_entry_pfn directory_entry) virt) in
    if pd_entry_is_present directory_entry
    then (if pt_entry_is_present page_entry then pt_entry_pfn page_entry + frame_offset virt else 0)
    else 0

pub virt2phys : Vmm → ℕ → ℕ
virt2phys s virt = virt2phys_pdir s s.cur_directory virt

-- "page table not present, allocate it": the block that `vmmngr_alloc_virt` and `vmmngr_map_page`
-- share. `false` is their early return.
pub ensure_table : Vmm → ℕ → Bool × Vmm
ensure_table s e =
    let (table, pmm') = Pmm.alloc_block s.pmm in
    let s1 = record s { pmm = pmm' } in
    let s2 = ptable_clear s1 table in
    let s3 = store s2 e (pd_entry_add_attrib (load s2 e) flag_present) in
    let s4 = store s3 e (pd_entry_set_frame (load s3 e) table) in
    if pd_entry_is_present (load s e)
    then (true, s)
    else (if table == 0 then (false, s1) else (true, s4))

-- What both do next: the flags of the directory entry, and the address of the page's entry.
pub enter_table : Vmm → ℕ → ℕ → ℕ → ℕ × Vmm
enter_table s e virt pde_flags =
    let s' = store s e (pd_entry_add_attrib (load s e) pde_flags) in
    (ptable_lookup_entry (pd_entry_pfn (load s' e)) virt, s')

pub alloc_virt : Vmm → ℕ → ℕ → ℕ → ℕ → Vmm
alloc_virt s dir virt pde_flags pte_flags =
    let e = pdirectory_lookup_entry dir virt in
    let (going, s1) = ensure_table s e in
    let (page, s2) = enter_table s1 e virt pde_flags in
    if going
    then (if pt_entry_is_present (load s2 page) then s2 else (alloc_page s2 page pte_flags).1)
    else s1

pub check_virt_present : Vmm → ℕ → ℕ → Bool
check_virt_present s dir virt =
    let e = load s (pdirectory_lookup_entry dir virt) in
    if pd_entry_is_present e
    then pt_entry_is_present (load s (ptable_lookup_entry (pd_entry_pfn e) virt))
    else false

pub free_virt : Vmm → ℕ → ℕ → Vmm
free_virt s dir virt =
    let e = load s (pdirectory_lookup_entry dir virt) in
    let page = ptable_lookup_entry (pd_entry_pfn e) virt in
    if pd_entry_is_present e
    then (if pt_entry_is_present (load s page) then free_page s page else s)
    else s

-- The three writes to the page's entry.
pub set_page : Vmm → ℕ → ℕ → ℕ → Vmm
set_page s page phys pte_flags =
    let s1 = store s page (pt_entry_set_frame (load s page) phys) in
    let s2 = store s1 page (pt_entry_add_attrib (load s1 page) pte_flags) in
    store s2 page (pt_entry_add_attrib (load s2 page) flag_present)

pub map_page : Vmm → ℕ → ℕ → ℕ → ℕ → ℕ → Vmm
map_page s dir phys virt pde_flags pte_flags =
    let e = pdirectory_lookup_entry dir virt in
    let (going, s1) = ensure_table s e in
    let (page, s2) = enter_table s1 e virt pde_flags in
    if going then set_page s2 page phys pte_flags else s1

pub mmap_virt2virt : Vmm → ℕ → ℕ → ℕ → ℕ → ℕ → ℕ → Vmm
mmap_virt2virt s orig new orig_virt new_virt pde_flags pte_flags =
    map_page s new (virt2phys_pdir s orig orig_virt) new_virt pde_flags pte_flags

pub unmap_virt : Vmm → ℕ → ℕ → Vmm
unmap_virt s dir virt =
    let e = load s (pdirectory_lookup_entry dir virt) in
    let page = ptable_lookup_entry (pd_entry_pfn e) virt in
    let s1 = store s page (pt_entry_set_frame (load s page) 0) in
    let s2 = store s1 page (pt_entry_del_attrib (load s1 page) flag_present) in
    if pd_entry_is_present e then s2 else s

-- `range` pages from `frame` and `virt` on, whose increments wrap.
pub mmap : Vmm → ℕ → ℕ → ℕ → ℕ → ℕ → ℕ → Vmm
mmap s dir frame virt zero pde_flags pte_flags = s
mmap s dir frame virt (suc left) pde_flags pte_flags =
    mmap (map_page s dir frame virt pde_flags pte_flags) dir ((frame + 4096) % 2 ^ 32)
      ((virt + 4096) % 2 ^ 32) left pde_flags pte_flags

-- `pixels` is PIXEL_WIDTH * PIXEL_HEIGHT.
pub initialize : Vmm → ℕ → Vmm
initialize s pixels =
    let (dir, s0) = create_pdir s in
    let s1 = record s0 { cur_directory = dir } in
    let s2 = mmap s1 dir 0x1000 0x1000 1023 flag_writable flag_writable in
    let s3 = mmap s2 dir 0x10_0000 0xc000_0000 (1024 * 4) flag_writable flag_writable in
    let s4 =
      mmap s3 dir 0xfd00_0000 (0xc000_0000 + 0xd00_0000) (pixels * 3 / 4096 + 100) flag_writable
        (bit_or flag_writable flag_pat) in
    if dir == 0 then s0 else (switch_pdirectory s4 dir).1
