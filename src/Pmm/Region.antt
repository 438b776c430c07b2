-- ===== src/Pmm/Region.antt =====
-- `pmmngr_init`, `pmmngr_init_region` and `pmmngr_init_memory_regions` of kernel/pmm.c: how the
-- map comes to know the memory that exists.
use osdev_graphical.Base.{
  ℕ, ◌+◌, ◌*◌, ◌/◌, ◌%◌, ◌^◌, ◌≤◌, ◌<◌, false, ◌≡◌, ◌≢◌, ◌⊎◌, inl, inr, arith, ◌∙◌, sym,
}
use osdev_graphical.Memory.{Words, memset}
use osdev_graphical.Memory.Laws.{eq_cases, IsWords, memset-IsWords}
use osdev_graphical.Bitmap
use osdev_graphical.Bitmap.Laws.{
  occ, occ-unset_range_in, occ-unset_range_out, occ-set_self, occ-set_ne, set-IsWords,
}
use osdev_graphical.Bitmap.Count.{
  occupied, occupied_ext, occupied-set, occupied-unset_range, occupied-full,
}
use osdev_graphical.Bitmap.Bytes.{occ-memset_ones}
use osdev_graphical.Pmm.{Pmm, init, block_size, round_up, is_above, init_region}
use osdev_graphical.Pmm.Range.{release_range-map, release_range_lem}
use osdev_graphical.Pmm.Valid.{IsValid, used-le, IsReleased}
use osdev_graphical.Pmm.Free.{release-IsReleased}

module _ (p : Pmm) (base size : ℕ) (below : is_above p (base / block_size) ≡ false) where
  -- Whatever the size, `pmmngr_init_region` frees the blocks from `base` on for the rounded-up
  -- size, but for block 0, which it takes; it leaves the rest alone.
  pub init_region-map :
      (b : ℕ)
      → let f = base / block_size in
        let n = round_up size / block_size in
        let q = init_region p base size in
        (occ q.memory_map 0 ≡ 1)
        × (b ≢ 0 → f ≤ b → b < f + n → occ q.memory_map b ≡ 0)
        × (b ≢ 0 → (b < f) ⊎ (f + n ≤ b) → occ q.memory_map b ≡ occ p.memory_map b)
  unfolding init_region
  init_region-map b =
      rw (below, release_range-map p (base / block_size) (round_up size / block_size))
        (
          occ-set_self _ 0,
          λ ne lo hi.
              occ-set_ne _ 0 b (λ e. ne (sym e)) ∙ occ-unset_range_in p.memory_map _ _ b lo hi,
          λ ne out. occ-set_ne _ 0 b (λ e. ne (sym e)) ∙ occ-unset_range_out p.memory_map _ _ b out,
        )

-- Taking block 0 again changes no block.
occ-set_null : (m : Words) (b : ℕ) → occ m 0 ≡ 1 → occ (Bitmap.set m 0) b ≡ occ m b
occ-set_null m b h = elim (eq_cases 0 b) [
  | inl e ↦ rw (← e) (occ-set_self m 0 ∙ sym h)
  | inr ne ↦ occ-set_ne m 0 b ne
]

null_IsReleased :
    {p q : Pmm} (n f : ℕ)
    → IsReleased p n f q
    → IsReleased p n f (record q { memory_map = Bitmap.set q.memory_map 0 })
null_IsReleased {p} {q} n f g = record {
  are_free = λ b lo hi. same b ∙ g.are_free b lo hi;
  others = λ b h. same b ∙ g.others b h;
  counted = g.counted;
  same_max = g.same_max;
  same_size = g.same_size;
  valid = record {
    bound = g.valid.bound;
    counted =
        g.valid.counted
        ∙ occupied_ext q.memory_map (Bitmap.set q.memory_map 0) q.max_blocks (λ b l. sym (same b));
    words = set-IsWords q.memory_map 0 g.valid.words;
    null_taken = occ-set_self q.memory_map 0;
  };
}
  where
    same : (b : ℕ) → occ (Bitmap.set q.memory_map 0) b ≡ occ q.memory_map b
    same b = occ-set_null q.memory_map b g.valid.null_taken

-- In a valid state `pmmngr_init_region` on taken blocks that do not reach block 0 and end inside the
-- map frees those blocks and no others, lowers the counter by their number, and keeps the state
-- valid.
pub init_region-IsReleased :
    {p : Pmm} (base size : ℕ)
    → IsValid p
    → is_above p (base / block_size) ≡ false
    → 0 < base / block_size
    → base / block_size + round_up size / block_size ≤ p.max_blocks
    → ((b : ℕ)
        → base / block_size ≤ b
        → b < base / block_size + round_up size / block_size
        → occ p.memory_map b ≡ 1)
    → IsReleased p (round_up size / block_size) (base / block_size) (init_region p base size)
unfolding init_region
init_region-IsReleased {p} base size v below pos inside taken = rw below (
    null_IsReleased (round_up size / block_size) (base / block_size)
      (release-IsReleased (round_up size / block_size) (base / block_size) v pos inside taken))

-- In a valid state, initialising a region that starts in block 0 leaves the counter one short of
-- the number of taken blocks: block 0 is counted out with the rest, and taken again without being
-- counted in.
pub init_region_drift :
    {p : Pmm} (base size : ℕ)
    → IsValid p
    → is_above p 0 ≡ false
    → base < block_size
    → 0 < round_up size / block_size
    → round_up size / block_size ≤ p.max_blocks
    → ((b : ℕ) → b < round_up size / block_size → occ p.memory_map b ≡ 1)
    → (init_region p base size).used_blocks + 1
      ≡ occupied (init_region p base size).memory_map p.max_blocks
unfolding init_region
init_region_drift {p} base size v below low pos inside taken =
    rw (zero_block, below, release_range_lem p 0 n (omega (arith, used-le v, v.bound)) enough)
      (omega (
        arith,
        left,
        v.counted,
        occupied-set freed 0 p.max_blocks (omega arith)
            (occ-unset_range_in p.memory_map 0 n 0 (omega arith) (omega arith)),
      ))
  where
    n : ℕ
    n = round_up size / block_size

    freed : Words
    freed = Bitmap.unset_range p.memory_map 0 n

    zero_block : base / block_size ≡ 0
    zero_block = omega arith

    left : occupied freed p.max_blocks + n ≡ occupied p.memory_map p.max_blocks
    left =
        occupied-unset_range p.memory_map 0 n p.max_blocks (omega arith)
          (λ b lo hi. taken b (omega arith))

    enough : n ≤ p.used_blocks
    enough = omega (arith, left, v.counted)

-- `pmmngr_init` of a multiple of 32 KiB below 2 GiB leaves a valid state with every block taken.
pub init-IsValid :
    (mem_size : ℕ) (m : Words)
    → 0 < mem_size
    → mem_size < 2 ^ 21
    → mem_size % 32 ≡ 0
    → IsWords m
    → IsValid (init mem_size m)
      × ((b : ℕ) → b < (init mem_size m).max_blocks → occ (init mem_size m).memory_map b ≡ 1)
unfolding init
init-IsValid k m pos small whole w = (
  record {
    bound = omega arith;
    counted = sym (occupied-full (memset m 0 0xff bytes) (k * 1024 / 4096) taken);
    words = memset-IsWords m 0 0xff bytes w;
    null_taken = taken 0 (omega arith);
  },
  taken,
)
  where
    bytes : ℕ
    bytes = k * 1024 / 4096 / 8

    taken : (b : ℕ) → b < k * 1024 / 4096 → occ (memset m 0 0xff bytes) b ≡ 1
    taken b l = occ-memset_ones m bytes b (omega arith)
