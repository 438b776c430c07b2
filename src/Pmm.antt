-- ===== src/Pmm.antt =====
-- kernel/pmm.c, the physical memory manager: a bitmap of 4 KiB blocks and two counters.
-- `memory_size * 1024` is a product of ints, which C leaves undefined from 2 GiB on; below that
-- no block number or address wraps.
pub mod Range
pub mod Valid
pub mod Alloc
pub mod Free
pub mod Region
pub mod Table
mod Tests
use osdev_graphical.Base.{
  ℕ, zero, suc, ◌+◌, ◌-◌, ◌*◌, ◌/◌, ◌%◌, ◌^◌, Bool, true, false, ◌&&◌, ◌||◌, not, Option, none,
  some, if◌then◌else◌, ◌==◌, leb, ltb,
}
use osdev_graphical.Memory.{Words, memset}
use osdev_graphical.Bitmap

-- The static variables of the file.
pub record Pmm : Type 0 where
  pub memory_size : ℕ
  pub used_blocks : ℕ
  pub max_blocks : ℕ
  pub memory_map : Words

abbrev pub block_size : ℕ
block_size = 4096

abbrev pub blocks_per_byte : ℕ
blocks_per_byte = 8

-- `x++`, `x--` and `(int) x <= 0` at `uint32_t`.
abbrev pub inc32 : ℕ → ℕ
inc32 x = (x + 1) % 2 ^ 32

abbrev pub dec32 : ℕ → ℕ
dec32 x = (x + 2 ^ 32 - 1) % 2 ^ 32

abbrev pub is_nonpositive : ℕ → Bool
is_nonpositive x = x == 0 || leb (2 ^ 31) x

abbrev pub get_free_block_count : Pmm → ℕ
get_free_block_count p = (p.max_blocks + 2 ^ 32 - p.used_blocks) % 2 ^ 32

-- `pmmngr_init`; `m` is what the map's memory held.
unfoldable pub init : ℕ → Words → Pmm
init mem_size m =
    let blocks = mem_size * 1024 / block_size in
    record {
      memory_size = mem_size;
      used_blocks = blocks;
      max_blocks = blocks;
      memory_map = memset m 0 0xff (blocks / blocks_per_byte);
    }

-- `mmap_set (frame); used_blocks++` and its opposite.
pub occupy : Pmm → ℕ → Pmm
occupy p frame = record p {
  memory_map = Bitmap.set p.memory_map frame;
  used_blocks = inc32 p.used_blocks;
}

unfoldable pub release : Pmm → ℕ → Pmm
release p frame = record p {
  memory_map = Bitmap.unset p.memory_map frame;
  used_blocks = dec32 p.used_blocks;
}

-- The loops over a sequence of blocks.
pub occupy_range : Pmm → ℕ → ℕ → Pmm
occupy_range p frame zero = p
occupy_range p frame (suc left) = occupy_range (occupy p frame) (suc frame) left

unfoldable pub release_range : Pmm → ℕ → ℕ → Pmm
release_range p frame zero = p
release_range p frame (suc left) = release_range (release p frame) (suc frame) left

-- A size rounded up to whole blocks, at `uint32_t`.
abbrev pub round_up : ℕ → ℕ
round_up size =
    if size % block_size == 0 then size else (size + (block_size - size % block_size)) % 2 ^ 32

-- `align/8 >= pmmngr_get_block_count()/PMMNGR_BLOCKS_PER_BYTE`
abbrev pub is_above : Pmm → ℕ → Bool
is_above p align = leb (p.max_blocks / blocks_per_byte) (align / 8)

unfoldable pub init_region : Pmm → ℕ → ℕ → Pmm
init_region p base size =
    let align = base / block_size in
    let freed = release_range p align (round_up size / block_size) in
    if is_above p align then p else record freed { memory_map = Bitmap.set freed.memory_map 0 }

pub deinit_region : Pmm → ℕ → ℕ → Pmm
deinit_region p base size =
    let align = base / block_size in
    if is_above p align then p else occupy_range p align (round_up size / block_size)

-- An entry of the memory map that the boot loader leaves. The other fields are not read.
pub record MemoryRegion : Type 0 where
  pub start_lo : ℕ
  pub size_lo : ℕ
  pub type : ℕ

-- `if (region[i].type>4) region[i].type=1;`
pub sanitize : MemoryRegion → MemoryRegion
sanitize r = if ltb 4 r.type then record r { type = 1 } else r

-- Rounds `i` to 14 of the loop of `pmmngr_init_memory_regions`, with the table that they leave.
pub init_regions_from : ℕ → ℕ → Pmm → (ℕ → MemoryRegion) → Pmm × (ℕ → MemoryRegion)
init_regions_from zero i p table = (p, table)
init_regions_from (suc left) i p table =
    let r = sanitize (table i) in
    let table' = λ (j : ℕ). if j == i then r else table j in
    let p' = if r.type == 1 then init_region p r.start_lo r.size_lo else p in
    let rest = init_regions_from left (suc i) p' table' in
    if ltb 0 i && r.start_lo == 0 then (p, table') else rest

pub init_memory_regions : Pmm → (ℕ → MemoryRegion) → Pmm × (ℕ → MemoryRegion)
init_memory_regions p table = init_regions_from 15 0 p table

-- The address of the block with the state after; 0 is the null pointer.
unfoldable pub alloc_block : Pmm → ℕ × Pmm
alloc_block p =
    if is_nonpositive (get_free_block_count p)
    then (0, p)
    else elim (Bitmap.first_free p.max_blocks p.memory_map) [
      | none ↦ (0, p)
      | some frame ↦ (frame * block_size, occupy p frame)
    ]

pub alloc_blocks : Pmm → ℕ → ℕ × Pmm
alloc_blocks p seq_len =
    if is_nonpositive (get_free_block_count p)
    then (0, p)
    else elim (Bitmap.first_free_s p.max_blocks p.memory_map seq_len) [
      | none ↦ (0, p)
      | some frame ↦ (frame * block_size, occupy_range p frame seq_len)
    ]

pub free_block : Pmm → ℕ → Pmm
free_block p addr = release p (addr / block_size)

pub free_blocks : Pmm → ℕ → ℕ → Pmm
free_blocks p addr seq_len = release_range p (addr / block_size) seq_len
