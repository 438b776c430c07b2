-- ===== src/Pmm/Alloc.antt =====
-- `pmmngr_alloc_block` and `pmmngr_alloc_blocks` of kernel/pmm.c.
use osdev_graphical.Base.{
  ℕ, ◌+◌, ◌*◌, ◌/◌, ◌%◌, ◌<◌, true, Option, none, some, ◌≡◌, inl, inr, refl, ap, arith, ◌∙◌, sym,
  Bool-cases,
}
use osdev_graphical.Memory.Laws.{eq_cases}
use osdev_graphical.Bits.{bit_at-le}
use osdev_graphical.Bitmap
use osdev_graphical.Bitmap.Laws.{occ, occ-set_range_in, occ-set_range_out, set_range-IsWords}
use osdev_graphical.Bitmap.Count.{occupied, occupied-lt, occupied-set_range}
use osdev_graphical.Bitmap.First.{Lowest, first_free-Lowest}
use osdev_graphical.Bitmap.Run.{IsFirstRun, RunLaw, first_free_s-law}
use osdev_graphical.Pmm.{
  Pmm, block_size, is_nonpositive, get_free_block_count, occupy, occupy_range, alloc_block,
  alloc_blocks,
}
use osdev_graphical.Pmm.Range.{occupy_range_lem}
use osdev_graphical.Pmm.Valid.{IsValid, used-le, IsAllocated, AllocLaw}

-- With the counter at its maximum every block is taken.
full_taken :
    {p : Pmm}
    → IsValid p
    → is_nonpositive (get_free_block_count p) ≡ true
    → (b : ℕ) → b < p.max_blocks
    → occ p.memory_map b ≡ 1
full_taken {p} v h b l = elim (eq_cases (occ p.memory_map b) 0) [
  | inl e ↦ absurd (none_left (occupied-lt p.memory_map p.max_blocks b l e))
  | inr ne ↦ omega (arith, bit_at-le (p.memory_map (b / 32)) (b % 32))
]
  where
    none_left : ¬ (occupied p.memory_map p.max_blocks < p.max_blocks)
    none_left k = ground (arith, v.counted, v.bound)

occupy_run :
    {p : Pmm} (n f : ℕ)
    → IsValid p
    → IsFirstRun (occ p.memory_map) n (p.max_blocks / 32 * 32) f
    → 0 < n
    → IsAllocated p n f (f * block_size, occupy_range p f n)
occupy_run {p} n f v r pos =
    rw (occupy_range_lem p f n (omega (arith, used-le v, v.bound, r.fits))) (record {
      address = refl;
      not_null = not_zero;
      inside = omega (arith, r.fits);
      were_free = r.clear;
      lowest = r.lowest;
      are_taken = λ b lo hi. occ-set_range_in p.memory_map f n b lo hi;
      others = λ b h. occ-set_range_out p.memory_map f n b h;
      counted = refl;
      same_max = refl;
      same_size = refl;
      valid = record {
        bound = v.bound;
        counted =
            ap (λ (u : ℕ). u + n) v.counted
            ∙ sym
                (occupied-set_range p.memory_map f n p.max_blocks (omega (arith, r.fits)) r.clear);
        words = set_range-IsWords p.memory_map f n v.words;
        null_taken = occ-set_range_out p.memory_map f n 0 (inl not_zero) ∙ v.null_taken;
      };
    })
  where
    not_zero : 0 < f
    not_zero = elim (eq_cases f 0) [
      | inl e ↦ absurd (omega (arith, v.null_taken, r.clear 0 (omega arith) (omega arith)))
      | inr ne ↦ omega arith
    ]

alloc_found :
    {p : Pmm} (n : ℕ) (o : Option ℕ)
    → IsValid p
    → 0 < n
    → RunLaw (occ p.memory_map) n (p.max_blocks / 32 * 32) o
    → AllocLaw p n (elim o [ none ↦ (0, p) | some f ↦ (f * block_size, occupy_range p f n) ])
alloc_found n none v pos h = inl (refl, h)
alloc_found n (some f) v pos h = inr (f, occupy_run n f v h pos)

-- `pmmngr_alloc_blocks` of at least one block, in a valid state: either it takes the lowest run of
-- that many free blocks, marks them and no others, adds them to the counter, returns the run's
-- address, which is not null, and leaves a valid state; or it returns null and changes nothing, and
-- every such run within the whole words of the map holds a taken block.
pub alloc_blocks-AllocLaw :
    {p : Pmm} (seq_len : ℕ) → IsValid p → 0 < seq_len → AllocLaw p seq_len (alloc_blocks p seq_len)
unfolding alloc_blocks
alloc_blocks-AllocLaw {p} n v pos = elim (Bool-cases (is_nonpositive (get_free_block_count p))) [
  | inl full ↦
      rw full (inl (refl, λ g l. (g, omega arith, omega arith, full_taken v full g (omega arith))))
  | inr left ↦ rw left (
      alloc_found n (Bitmap.first_free_s p.max_blocks p.memory_map n) v pos
        (first_free_s-law p.memory_map n p.max_blocks pos))
]

-- One block is a run of one.
Lowest-RunLaw : (o : ℕ → ℕ) (hi : ℕ) (r : Option ℕ) → Lowest o 0 hi r → RunLaw o 1 hi r
Lowest-RunLaw o hi none h = λ g l. (g, omega arith, omega arith, h g (omega arith) (omega arith))
Lowest-RunLaw o hi (some f) h = record {
  fits = omega (arith, h.1);
  clear = λ b lo up. let e : b ≡ f = omega arith in rw e h.2;
  lowest = λ g l. (g, omega arith, omega arith, h.3 g (omega arith) l);
}

occupy-one : (p : Pmm) (f : ℕ) → occupy_range p f 1 ≡ occupy p f
unfolding occupy_range
occupy-one p f = refl

one_found :
    {p : Pmm} (o : Option ℕ)
    → IsValid p
    → RunLaw (occ p.memory_map) 1 (p.max_blocks / 32 * 32) o
    → AllocLaw p 1 (elim o [ none ↦ (0, p) | some f ↦ (f * block_size, occupy p f) ])
one_found none v h = inl (refl, h)
one_found {p} (some f) v h = rw (← occupy-one p f) (inr (f, occupy_run 1 f v h (omega arith)))

-- `pmmngr_alloc_block` in a valid state: either it takes the lowest free block, marks it and no
-- other, adds one to the counter, returns its address, which is not null, and leaves a valid state;
-- or it returns null and changes nothing, and every block of the whole words of the map is taken.
pub alloc_block-AllocLaw : {p : Pmm} → IsValid p → AllocLaw p 1 (alloc_block p)
unfolding alloc_block
alloc_block-AllocLaw {p} v = elim (Bool-cases (is_nonpositive (get_free_block_count p))) [
  | inl full ↦
      rw full (inl (refl, λ g l. (g, omega arith, omega arith, full_taken v full g (omega arith))))
  | inr left ↦ rw left (
      one_found (Bitmap.first_free p.max_blocks p.memory_map) v (
        Lowest-RunLaw (occ p.memory_map) (p.max_blocks / 32 * 32) _
          (first_free-Lowest p.max_blocks p.memory_map)))
]
