-- ===== src/Bitmap/Laws.antt =====
-- What the bitmap's writes do, block by block.
use mathlib.Core.Path.{fun_ext}
use native.Mathlib.Nat.{one-le-pow}
use osdev_graphical.Base.{
  ℕ, zero, suc, ◌+◌, ◌-◌, ◌*◌, ◌/◌, ◌%◌, ◌^◌, ◌≤◌, ◌<◌, bit_and, bit_or, true, ◌≡◌, ◌≢◌, ◌⊎◌, ◌↔◌,
  inl, inr, refl, arith, ◌==◌, ◌∙◌, ==_iff,
}
use osdev_graphical.Bits.{
  bit_at, bit_at-le, bit_at-or, bit_at-and, bit_at-pow_self, bit_at-pow_ne, bit_at-hole_self,
  bit_at-hole_ne, and-pow, bit_at_ext, and-le, or-lt, pow-lt,
}
use osdev_graphical.Memory.{Words, put}
use osdev_graphical.Memory.Laws.{put_self, put_ne, eq_cases, IsWords, put-IsWords}
use osdev_graphical.Bitmap.{set, unset, test, set_range, unset_range}

-- 1 if block `b` is occupied, else 0.
abbrev pub occ : Words → ℕ → ℕ
occ m b = bit_at (m (b / 32)) (b % 32)

-- Two blocks of the same word with the same bit are one.
same_block : (a b : ℕ) → a / 32 ≡ b / 32 → a % 32 ≡ b % 32 → a ≡ b
same_block a b p q = omega arith

pub occ-set_self : (m : Words) (b : ℕ) → occ (set m b) b ≡ 1
unfolding set
occ-set_self m b = rw (put_self m (b / 32) (bit_or (m (b / 32)) (2 ^ (b % 32)))) (
    omega (
      arith,
      bit_at-or (m (b / 32)) (2 ^ (b % 32)) (b % 32),
      bit_at-pow_self (b % 32),
      bit_at-le (m (b / 32)) (b % 32),
    ))

-- A write to the word of block `b` that keeps the other bits leaves the other blocks alone.
occ-put_ne :
    (m : Words) (b c v : ℕ)
    → (c % 32 ≢ b % 32 → bit_at v (c % 32) ≡ bit_at (m (b / 32)) (c % 32))
    → b ≢ c
    → occ (put m (b / 32) v) c ≡ occ m c
occ-put_ne m b c v keep h = elim (eq_cases (c / 32) (b / 32)) [
  | inl e ↦
      rw (e, put_self m (b / 32) v) (keep (λ q. h (same_block b c (omega arith) (omega arith))))
  | inr ne ↦ rw (put_ne m (b / 32) v (c / 32) ne)
]

pub occ-set_ne : (m : Words) (b c : ℕ) → b ≢ c → occ (set m b) c ≡ occ m c
unfolding set
occ-set_ne m b c h =
    occ-put_ne m b c _
      (λ q. omega (
        arith,
        bit_at-or (m (b / 32)) (2 ^ (b % 32)) (c % 32),
        bit_at-pow_ne (b % 32) (c % 32) (λ e. q (omega arith)),
      ))
      h

pub occ-unset_self : (m : Words) (b : ℕ) → occ (unset m b) b ≡ 0
unfolding unset
occ-unset_self m b = rw (put_self m (b / 32) (bit_and (m (b / 32)) (2 ^ 32 - 1 - 2 ^ (b % 32)))) (
    omega (
      arith,
      bit_at-and (m (b / 32)) (2 ^ 32 - 1 - 2 ^ (b % 32)) (b % 32),
      bit_at-hole_self 32 (b % 32) (omega arith),
    ))

pub occ-unset_ne : (m : Words) (b c : ℕ) → b ≢ c → occ (unset m b) c ≡ occ m c
unfolding unset
occ-unset_ne m b c h =
    occ-put_ne m b c _
      (λ q. omega (
        arith,
        bit_at-and (m (b / 32)) (2 ^ 32 - 1 - 2 ^ (b % 32)) (c % 32),
        bit_at-hole_ne 32 (b % 32) (c % 32) (omega arith) (omega arith) (λ e. q (omega arith)),
        bit_at-le (m (b / 32)) (c % 32),
      ))
      h

bit_at-mul : (w k p : ℕ) → (bit_at w k ≡ 0) ⊎ (bit_at w k * p ≡ p)
bit_at-mul w k p = elim (eq_cases (bit_at w k) 0) [
  | inl e ↦ inl e
  | inr ne ↦ inr (let e : bit_at w k ≡ 1 = omega (arith, bit_at-le w k) in rw e (omega arith))
]

-- `w & (1 << k)` is zero exactly when bit `k` is clear.
pub clear_iff : (w k : ℕ) → ((bit_and w (2 ^ k) == 0) ≡ true) ↔ (bit_at w k ≡ 0)
clear_iff w k = (
  λ h. omega (
    arith,
    (==_iff (bit_and w (2 ^ k)) 0).0 h,
    and-pow w k,
    bit_at-mul w k (2 ^ k),
    one-le-pow k 2,
  ),
  λ h. (==_iff (bit_and w (2 ^ k)) 0).1 (and-pow w k ∙ rw h (omega arith)),
)

-- `mmap_test` tells the occupied blocks.
pub test_iff : (m : Words) (b : ℕ) → (test m b ≡ true) ↔ (occ m b ≡ 1)
unfolding test
test_iff m b = ground (arith, clear_iff (m (b / 32)) (b % 32), bit_at-le (m (b / 32)) (b % 32))

pub occ-set_range_out :
    (m : Words) (f n b : ℕ) → (b < f) ⊎ (f + n ≤ b) → occ (set_range m f n) b ≡ occ m b
unfolding set_range
occ-set_range_out m f zero b h = refl
occ-set_range_out m f (suc n) b h =
    occ-set_range_out (set m f) (suc f) n b (omega arith) ∙ occ-set_ne m f b (omega arith)

pub occ-unset_range_out :
    (m : Words) (f n b : ℕ) → (b < f) ⊎ (f + n ≤ b) → occ (unset_range m f n) b ≡ occ m b
unfolding unset_range
occ-unset_range_out m f zero b h = refl
occ-unset_range_out m f (suc n) b h =
    occ-unset_range_out (unset m f) (suc f) n b (omega arith) ∙ occ-unset_ne m f b (omega arith)

-- A loop of `mmap_set` occupies the blocks that it counts, and no others.
pub occ-set_range_in : (m : Words) (f n b : ℕ) → f ≤ b → b < f + n → occ (set_range m f n) b ≡ 1
unfolding set_range
occ-set_range_in m f zero b p q = absurd (omega arith)
occ-set_range_in m f (suc n) b p q = elim (eq_cases f b) [
  | inl e ↦
      occ-set_range_out (set m f) (suc f) n b (inl (omega arith)) ∙ rw (← e) (occ-set_self m f)
  | inr ne ↦ occ-set_range_in (set m f) (suc f) n b (omega arith) (omega arith)
]

pub occ-unset_range_in : (m : Words) (f n b : ℕ) → f ≤ b → b < f + n → occ (unset_range m f n) b ≡ 0
unfolding unset_range
occ-unset_range_in m f zero b p q = absurd (omega arith)
occ-unset_range_in m f (suc n) b p q = elim (eq_cases f b) [
  | inl e ↦
      occ-unset_range_out (unset m f) (suc f) n b (inl (omega arith))
      ∙ rw (← e) (occ-unset_self m f)
  | inr ne ↦ occ-unset_range_in (unset m f) (suc f) n b (omega arith) (omega arith)
]

pub set-IsWords : (m : Words) (b : ℕ) → IsWords m → IsWords (set m b)
unfolding set
set-IsWords m b h =
    put-IsWords m (b / 32) _
      (or-lt 32 (m (b / 32)) (2 ^ (b % 32)) (h (b / 32)) (pow-lt 32 (b % 32) (omega arith))) h

pub unset-IsWords : (m : Words) (b : ℕ) → IsWords m → IsWords (unset m b)
unfolding unset
unset-IsWords m b h =
    put-IsWords m (b / 32) _
      (omega (arith, and-le (m (b / 32)) (2 ^ 32 - 1 - 2 ^ (b % 32)), h (b / 32))) h

pub set_range-IsWords : (m : Words) (f n : ℕ) → IsWords m → IsWords (set_range m f n)
unfolding set_range
set_range-IsWords m f zero h = h
set_range-IsWords m f (suc n) h = set_range-IsWords (set m f) (suc f) n (set-IsWords m f h)

pub unset_range-IsWords : (m : Words) (f n : ℕ) → IsWords m → IsWords (unset_range m f n)
unfolding unset_range
unset_range-IsWords m f zero h = h
unset_range-IsWords m f (suc n) h = unset_range-IsWords (unset m f) (suc f) n (unset-IsWords m f h)

-- A map is given by its blocks.
pub occ_ext : (m m' : Words) → IsWords m → IsWords m' → ((b : ℕ) → occ m b ≡ occ m' b) → m ≡ m'
occ_ext m m' h h' e = fun_ext (λ i. bit_at_ext 32 (m i) (m' i) (h i) (h' i) (λ k l. at i k l))
  where
    at : (i k : ℕ) → k < 32 → bit_at (m i) k ≡ bit_at (m' i) k
    at i k l =
        let q : (i * 32 + k) / 32 ≡ i = omega arith in
        let r : (i * 32 + k) % 32 ≡ k = omega arith in rw (q, r) at (e (i * 32 + k))
