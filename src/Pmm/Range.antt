-- ===== src/Pmm/Range.antt =====
-- The loops of kernel/pmm.c over a sequence of blocks, as one write to the map and one to the
-- counter.
use osdev_graphical.Base.{ℕ, zero, suc, ◌+◌, ◌-◌, ◌^◌, ◌≤◌, ◌<◌, ◌≡◌, refl, arith, ◌∙◌}
use osdev_graphical.Bitmap
use osdev_graphical.Pmm.{Pmm, occupy, release, occupy_range, release_range}

pub occupy_range_lem :
    (p : Pmm) (f n : ℕ)
    → p.used_blocks + n < 2 ^ 32
    → occupy_range p f n
      ≡ record p { memory_map = Bitmap.set_range p.memory_map f n; used_blocks = p.used_blocks + n }
unfolding occupy_range occupy Bitmap.set_range
occupy_range_lem p f zero h = ground arith
occupy_range_lem p f (suc n) h =
    occupy_range_lem (occupy p f) (suc f) n (omega arith) ∙ ground arith

pub release_range_lem :
    (p : Pmm) (f n : ℕ)
    → p.used_blocks < 2 ^ 32
    → n ≤ p.used_blocks
    → release_range p f n ≡ record p {
      memory_map = Bitmap.unset_range p.memory_map f n;
      used_blocks = p.used_blocks - n;
    }
unfolding release_range release Bitmap.unset_range
release_range_lem p f zero h l = ground arith
release_range_lem p f (suc n) h l =
    release_range_lem (release p f) (suc f) n (omega arith) (omega arith) ∙ ground arith

pub release_range-map :
    (p : Pmm) (f n : ℕ) → (release_range p f n).memory_map ≡ Bitmap.unset_range p.memory_map f n
unfolding release_range release Bitmap.unset_range
release_range-map p f zero = refl
release_range-map p f (suc n) = release_range-map (release p f) (suc f) n
