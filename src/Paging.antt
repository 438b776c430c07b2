-- ===== src/Paging.antt =====
-- The entries of page tables and page directories: kernel/pte.c and kernel/pde.c, with the index and
-- offset macros of deps/vmm.h. An entry is a `uint32_t`.
pub mod Laws
use osdev_graphical.Base.{ℕ, ◌+◌, ◌-◌, ◌/◌, ◌^◌, bit_and, bit_or, Bool, not, ◌==◌}

-- I86_PTE_PRESENT and its kin; the directory's flags have the same values.
abbrev pub flag_present : ℕ
flag_present = 1

abbrev pub flag_writable : ℕ
flag_writable = 2

abbrev pub flag_user : ℕ
flag_user = 4

abbrev pub flag_pat : ℕ
flag_pat = 0x80

abbrev pub flag_4mb : ℕ
flag_4mb = 0x80

abbrev pub flag_cpu_global : ℕ
flag_cpu_global = 0x100

abbrev pub flag_lv4_global : ℕ
flag_lv4_global = 0x200

abbrev pub flag_frame : ℕ
flag_frame = 0xffff_f000

pub pt_entry_add_attrib : ℕ → ℕ → ℕ
pt_entry_add_attrib e attrib = bit_or e attrib

-- `~attrib` of 32 bits.
pub pt_entry_del_attrib : ℕ → ℕ → ℕ
pt_entry_del_attrib e attrib = bit_and e (2 ^ 32 - 1 - attrib)

pub pt_entry_set_frame : ℕ → ℕ → ℕ
pt_entry_set_frame e physical_addr =
    bit_or (pt_entry_del_attrib e flag_frame) (bit_and physical_addr flag_frame)

pub pt_entry_is_present : ℕ → Bool
pt_entry_is_present e = not (bit_and e flag_present == 0)

pub pt_entry_is_writable : ℕ → Bool
pt_entry_is_writable e = not (bit_and e flag_writable == 0)

pub pt_entry_pfn : ℕ → ℕ
pt_entry_pfn e = bit_and e flag_frame

pub pd_entry_add_attrib : ℕ → ℕ → ℕ
pd_entry_add_attrib e attrib = bit_or e attrib

pub pd_entry_del_attrib : ℕ → ℕ → ℕ
pd_entry_del_attrib e attrib = bit_and e (2 ^ 32 - 1 - attrib)

pub pd_entry_set_frame : ℕ → ℕ → ℕ
pd_entry_set_frame e physical_addr =
    bit_or (pd_entry_del_attrib e flag_frame) (bit_and physical_addr flag_frame)

pub pd_entry_is_present : ℕ → Bool
pd_entry_is_present e = not (bit_and e flag_present == 0)

pub pd_entry_is_user : ℕ → Bool
pd_entry_is_user e = not (bit_and e flag_user == 0)

pub pd_entry_is_4mb : ℕ → Bool
pd_entry_is_4mb e = not (bit_and e flag_4mb == 0)

pub pd_entry_is_writable : ℕ → Bool
pd_entry_is_writable e = not (bit_and e flag_writable == 0)

pub pd_entry_pfn : ℕ → ℕ
pd_entry_pfn e = bit_and e flag_frame

pub pd_entry_enable_global : ℕ → ℕ
pd_entry_enable_global e =
    pd_entry_add_attrib (pd_entry_add_attrib e flag_cpu_global) flag_lv4_global

-- PAGE_DIRECTORY_INDEX, PAGE_TABLE_INDEX and FRAME_OFFSET.
pub page_directory_index : ℕ → ℕ
page_directory_index x = bit_and (x / 2 ^ 22) 0x3ff

pub page_table_index : ℕ → ℕ
page_table_index x = bit_and (x / 2 ^ 12) 0x3ff

pub frame_offset : ℕ → ℕ
frame_offset x = bit_and x 0xfff
