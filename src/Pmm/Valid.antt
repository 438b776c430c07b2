-- ===== src/Pmm/Valid.antt =====
-- The invariant of kernel/pmm.c: the counter is the number of set bits, and block 0 is taken.
use osdev_graphical.Base.{ℕ, ◌+◌, ◌^◌, ◌<◌, ◌≤◌, ◌≡◌, ◌⊎◌, ◌*◌, ◌/◌, arith}
use osdev_graphical.Memory.Laws.{IsWords}
use osdev_graphical.Bitmap.Laws.{occ}
use osdev_graphical.Bitmap.Count.{occupied, occupied-le}
use osdev_graphical.Bitmap.Run.{Blocked}
use osdev_graphical.Pmm.{Pmm, block_size}

pub record IsValid (p : Pmm) : Type 0 where
  pub bound : p.max_blocks < 2 ^ 19
  pub counted : p.used_blocks ≡ occupied p.memory_map p.max_blocks
  pub words : IsWords p.memory_map
  pub null_taken : occ p.memory_map 0 ≡ 1

pub used-le : {p : Pmm} → IsValid p → p.used_blocks ≤ p.max_blocks
used-le {p} v = omega (arith, v.counted, occupied-le p.memory_map p.max_blocks)

-- `out` is the result of taking the `n` blocks from `f`: they were free, they are taken, no other
-- block changed, and no lower run would have done.
pub record IsAllocated (p : Pmm) (n f : ℕ) (out : ℕ × Pmm) : Type 0 where
  pub address : out.0 ≡ f * block_size
  pub not_null : 0 < f
  pub inside : f + n ≤ p.max_blocks
  pub were_free : (b : ℕ) → f ≤ b → b < f + n → occ p.memory_map b ≡ 0
  pub lowest : (g : ℕ) → g < f → Blocked (occ p.memory_map) n g
  pub are_taken : (b : ℕ) → f ≤ b → b < f + n → occ out.1.memory_map b ≡ 1
  pub others : (b : ℕ) → (b < f) ⊎ (f + n ≤ b) → occ out.1.memory_map b ≡ occ p.memory_map b
  pub counted : out.1.used_blocks ≡ p.used_blocks + n
  pub same_max : out.1.max_blocks ≡ p.max_blocks
  pub same_size : out.1.memory_size ≡ p.memory_size
  pub valid : IsValid out.1

-- The two outcomes of a request for `n` blocks in a row: the lowest free run, or the null pointer
-- with nothing changed because every run among the whole words of the map holds a taken block.
abbrev pub AllocLaw : Pmm → ℕ → ℕ × Pmm → Type 0
AllocLaw p n out =
    ((out ≡ (0, p)) × ((g : ℕ) → g + n ≤ p.max_blocks / 32 * 32 → Blocked (occ p.memory_map) n g))
    ⊎ ((f : ℕ) × IsAllocated p n f out)

-- `q` is `p` after the `n` blocks from `f` were given back.
pub record IsReleased (p : Pmm) (n f : ℕ) (q : Pmm) : Type 0 where
  pub are_free : (b : ℕ) → f ≤ b → b < f + n → occ q.memory_map b ≡ 0
  pub others : (b : ℕ) → (b < f) ⊎ (f + n ≤ b) → occ q.memory_map b ≡ occ p.memory_map b
  pub counted : q.used_blocks + n ≡ p.used_blocks
  pub same_max : q.max_blocks ≡ p.max_blocks
  pub same_size : q.memory_size ≡ p.memory_size
  pub valid : IsValid q
