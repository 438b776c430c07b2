-- ===== src/Pmm/Free.antt =====
-- `pmmngr_free_block` and `pmmngr_free_blocks` of kernel/pmm.c.
use osdev_graphical.Base.{
  ℕ, ◌+◌, ◌*◌, ◌/◌, ◌≤◌, ◌<◌, ◌≡◌, ◌≢◌, ◌⊎◌, inl, inr, refl, ap, arith, ◌∙◌, sym,
}
use osdev_graphical.Bitmap
use osdev_graphical.Bitmap.Laws.{
  occ, occ-unset_range_in, occ-unset_range_out, unset_range-IsWords, occ_ext,
}
use osdev_graphical.Bitmap.Count.{occupied, occupied-unset_range}
use osdev_graphical.Pmm.{
  Pmm, block_size, release_range, alloc_block, alloc_blocks, free_block, free_blocks,
}
use osdev_graphical.Pmm.Range.{release_range_lem}
use osdev_graphical.Pmm.Valid.{IsValid, used-le, IsAllocated, IsReleased}
use osdev_graphical.Pmm.Alloc.{alloc_block-AllocLaw, alloc_blocks-AllocLaw}

pub release-IsReleased :
    {p : Pmm} (n f : ℕ)
    → IsValid p
    → 0 < f
    → f + n ≤ p.max_blocks
    → ((b : ℕ) → f ≤ b → b < f + n → occ p.memory_map b ≡ 1)
    → IsReleased p n f (release_range p f n)
release-IsReleased {p} n f v pos inside taken =
    rw (release_range_lem p f n (omega (arith, used-le v, v.bound)) enough) (record {
      are_free = λ b lo hi. occ-unset_range_in p.memory_map f n b lo hi;
      others = λ b h. occ-unset_range_out p.memory_map f n b h;
      counted = omega (arith, enough);
      same_max = refl;
      same_size = refl;
      valid = record {
        bound = v.bound;
        counted = omega (arith, left, v.counted);
        words = unset_range-IsWords p.memory_map f n v.words;
        null_taken = occ-unset_range_out p.memory_map f n 0 (inl pos) ∙ v.null_taken;
      };
    })
  where
    left :
        occupied (Bitmap.unset_range p.memory_map f n) p.max_blocks + n
        ≡ occupied p.memory_map p.max_blocks
    left = occupied-unset_range p.memory_map f n p.max_blocks inside taken

    enough : n ≤ p.used_blocks
    enough = omega (arith, left, v.counted)

block_of : (f : ℕ) → f * block_size / block_size ≡ f
block_of f = omega arith

-- `pmmngr_free_blocks` on the address of a run of taken blocks that leaves out block 0: the run is
-- free, no other block changes, the counter falls by its length, and the state stays valid.
pub free_blocks-IsReleased :
    {p : Pmm} (f n : ℕ)
    → IsValid p
    → 0 < f
    → f + n ≤ p.max_blocks
    → ((b : ℕ) → f ≤ b → b < f + n → occ p.memory_map b ≡ 1)
    → IsReleased p n f (free_blocks p (f * block_size) n)
unfolding free_blocks
free_blocks-IsReleased f n v pos inside taken =
    rw (block_of f) (release-IsReleased n f v pos inside taken)

free_block-blocks : (p : Pmm) (a : ℕ) → free_block p a ≡ free_blocks p a 1
unfolding free_block free_blocks release_range
free_block-blocks p a = refl

-- What was taken and then given back is as it was.
restored :
    {p q r : Pmm} {a : ℕ} (n f : ℕ)
    → IsValid p
    → IsAllocated p n f (a, q)
    → IsReleased q n f r
    → r ≡ p
restored {p} {q} {r} n f v t g = λ i. record {
  memory_size = (g.same_size ∙ t.same_size) i;
  used_blocks = used i;
  max_blocks = (g.same_max ∙ t.same_max) i;
  memory_map = maps i;
}
  where
    used : r.used_blocks ≡ p.used_blocks
    used = omega (arith, g.counted, t.counted)

    block : (b : ℕ) → occ r.memory_map b ≡ occ p.memory_map b
    block b = elim (in_or_out f n b) [
      | inl (lo, hi) ↦ g.are_free b lo hi ∙ sym (t.were_free b lo hi)
      | inr out ↦ g.others b out ∙ t.others b out
    ]
      where
        in_or_out : (f n b : ℕ) → ((f ≤ b) × (b < f + n)) ⊎ ((b < f) ⊎ (f + n ≤ b))
        in_or_out f n b = ground arith

    maps : r.memory_map ≡ p.memory_map
    maps = occ_ext r.memory_map p.memory_map g.valid.words v.words block

undo : {p q : Pmm} {a : ℕ} (n f : ℕ) → IsValid p → IsAllocated p n f (a, q) → free_blocks q a n ≡ p
undo {p} {q} n f v t = rw t.address (
    restored n f v t (
      free_blocks-IsReleased f n t.valid t.not_null (omega (arith, t.inside, t.same_max))
        t.are_taken))

-- In a valid state, freeing the run that `pmmngr_alloc_blocks` has just returned brings back the
-- whole state, map and counters, unless the request failed.
pub free_blocks-alloc_blocks :
    {p : Pmm} (seq_len : ℕ)
    → IsValid p
    → 0 < seq_len
    → let (a, q) = alloc_blocks p seq_len in a ≢ 0 → free_blocks q a seq_len ≡ p
free_blocks-alloc_blocks {p} n v pos ok = elim (alloc_blocks-AllocLaw n v pos) [
  | inl (e, _) ↦ absurd (ok (ap (λ (o : ℕ × Pmm). o.0) e))
  | inr (f, t) ↦ undo n f v t
]

-- The same for one block.
pub free_block-alloc_block :
    {p : Pmm} → IsValid p → let (a, q) = alloc_block p in a ≢ 0 → free_block q a ≡ p
free_block-alloc_block {p} v ok = elim (alloc_block-AllocLaw v) [
  | inl (e, _) ↦ absurd (ok (ap (λ (o : ℕ × Pmm). o.0) e))
  | inr (f, t) ↦ free_block-blocks (alloc_block p).1 (alloc_block p).0 ∙ undo 1 f v t
]
