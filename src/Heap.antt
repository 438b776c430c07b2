-- ===== src/Heap.antt =====
-- kernel/heap.c, the kernel heap: the bitmap allocator again, over blocks of 8 bytes between
-- HEAP_BASE and HEAP_CEILING, with the number of blocks kept in the word below each pointer.
-- The memory is the machine's, in aligned 32-bit words.
pub mod Alloc
pub mod Live
pub mod Valid
pub mod Malloc
pub mod Free
pub mod Trace
pub mod Faults
mod Tests
use osdev_graphical.Base.{
  ℕ, zero, suc, ◌+◌, ◌-◌, ◌*◌, ◌/◌, ◌%◌, ◌^◌, Bool, ◌||◌, Option, none, some, if◌then◌else◌, ◌==◌,
  leb,
}
use osdev_graphical.Memory.{Words, put, memset}
use osdev_graphical.Bitmap

-- The static variables, and the memory that the pointers lead to.
pub record Heap : Type 0 where
  pub used_blocks : ℕ
  pub memory_map : Words
  pub memory : Words

abbrev pub heap_base : ℕ
heap_base = 0xc030_0000

abbrev pub heap_ceiling : ℕ
heap_ceiling = 0xc050_0000

abbrev pub heap_block_size : ℕ
heap_block_size = 8

abbrev pub block_amt_desc_size : ℕ
block_amt_desc_size = 4

-- `_alloc_max_blocks`
abbrev pub max_blocks : ℕ
max_blocks = (heap_ceiling - heap_base) / heap_block_size

-- `(int) (_alloc_max_blocks - _alloc_used_blocks) <= 0`
abbrev pub get_free_block_count : Heap → ℕ
get_free_block_count h = (max_blocks + 2 ^ 32 - h.used_blocks) % 2 ^ 32

abbrev pub is_nonpositive : ℕ → Bool
is_nonpositive x = x == 0 || leb (2 ^ 31) x

-- `*(uint32_t *) a` and its assignment, at an aligned address.
abbrev pub load_word : Words → ℕ → ℕ
load_word m a = m (a / 4)

pub store_word : Words → ℕ → ℕ → Words
store_word m a v = put m (a / 4) v

-- `_alloc_mmap_first_free` and `_alloc_mmap_first_free_s`.
pub mmap_first_free : Heap → Option ℕ
mmap_first_free h = Bitmap.first_free max_blocks h.memory_map

pub mmap_first_free_s : Heap → ℕ → Option ℕ
mmap_first_free_s h seq_len = Bitmap.first_free_s max_blocks h.memory_map seq_len

-- `_alloc_mmap_set (frame); _alloc_used_blocks++` and its opposite.
pub occupy : Heap → ℕ → Heap
occupy h frame = record h {
  memory_map = Bitmap.set h.memory_map frame;
  used_blocks = (h.used_blocks + 1) % 2 ^ 32;
}

pub release : Heap → ℕ → Heap
release h frame = record h {
  memory_map = Bitmap.unset h.memory_map frame;
  used_blocks = (h.used_blocks + 2 ^ 32 - 1) % 2 ^ 32;
}

pub occupy_range : Heap → ℕ → ℕ → Heap
occupy_range h frame zero = h
occupy_range h frame (suc left) = occupy_range (occupy h frame) (suc frame) left

pub release_range : Heap → ℕ → ℕ → Heap
release_range h frame zero = h
release_range h frame (suc left) = release_range (release h frame) (suc frame) left

-- The address with the state after; 0 is the null pointer.
pub alloc_block : Heap → ℕ × Heap
alloc_block h =
    if is_nonpositive (get_free_block_count h) then (0, h) else elim (mmap_first_free h) [
      | none ↦ (0, h)
      | some frame ↦ (heap_base + frame * heap_block_size, occupy h frame)
    ]

pub alloc_blocks : Heap → ℕ → ℕ × Heap
alloc_blocks h seq_len =
    if is_nonpositive (get_free_block_count h) then (0, h) else elim (mmap_first_free_s h seq_len) [
      | none ↦ (0, h)
      | some frame ↦ (heap_base + frame * heap_block_size, occupy_range h frame seq_len)
    ]

-- `(addr - HEAP_BASE) / HEAP_BLOCK_SIZE` at `uint32_t`.
abbrev pub frame_of : ℕ → ℕ
frame_of addr = (addr + 2 ^ 32 - heap_base) % 2 ^ 32 / heap_block_size

pub free_block : Heap → ℕ → Heap
free_block h addr = release h (frame_of addr)

-- `seq_len` is an `int`.
pub free_blocks : Heap → ℕ → ℕ → Heap
free_blocks h addr seq_len =
    if leb (2 ^ 31) seq_len then h else release_range h (frame_of addr) seq_len

-- The number of blocks for `size` bytes and the descriptor, at `uint32_t`.
abbrev pub blocks_for : ℕ → ℕ
blocks_for size =
    let s = (size + block_amt_desc_size) % 2 ^ 32 in
    (if s % heap_block_size == 0 then s else (s + (heap_block_size - s % heap_block_size)) % 2 ^ 32)
    / heap_block_size

-- `if (!phys_addr) return 0;` and the descriptor.
pub describe : ℕ → ℕ × Heap → ℕ × Heap
describe block_amt (addr, h) =
    if addr == 0
    then (0, h)
    else (addr + block_amt_desc_size, record h { memory = store_word h.memory addr block_amt })

pub kmalloc : Heap → ℕ → ℕ × Heap
kmalloc h size = describe (blocks_for size) (alloc_blocks h (blocks_for size))

-- The pointer is not tested before it is filled.
pub kcalloc : Heap → ℕ → ℕ × Heap
kcalloc h size =
    let (ptr, h') = kmalloc h size in (ptr, record h' { memory = memset h'.memory ptr 0 size })

pub kfree : Heap → ℕ → Heap
kfree h phys_addr =
    let desc = (phys_addr + 2 ^ 32 - block_amt_desc_size) % 2 ^ 32 in
    if phys_addr == 0 then h else free_blocks h desc (load_word h.memory desc)

-- `memset` of `_alloc_max_blocks / 32` bytes; the counter stays.
pub heap_init : Heap → Heap
heap_init h = record h { memory_map = memset h.memory_map 0 0 (max_blocks / 32) }
