-- ===== src/Bitmap/Count.antt =====
-- How many blocks are occupied, and how the bitmap's writes change that number.
use osdev_graphical.Base.{
  ℕ, zero, suc, ◌+◌, ◌/◌, ◌%◌, ◌≤◌, ◌<◌, ◌≡◌, ◌≢◌, inl, inr, refl, arith, ap₂, ◌∙◌,
}
use osdev_graphical.Memory.{Words}
use osdev_graphical.Memory.Laws.{eq_cases}
use osdev_graphical.Bits.{bit_at-le}
use osdev_graphical.Bitmap.{set, unset, set_range, unset_range}
use osdev_graphical.Bitmap.Laws.{occ, occ-set_self, occ-set_ne, occ-unset_self, occ-unset_ne}

-- The number of occupied blocks among the first `n`.
unfoldable pub occupied : Words → ℕ → ℕ
occupied m zero = 0
occupied m (suc n) = occupied m n + occ m n

pub occupied_ext :
    (m m' : Words) (n : ℕ) → ((b : ℕ) → b < n → occ m b ≡ occ m' b) → occupied m n ≡ occupied m' n
unfolding occupied
occupied_ext m m' zero h = refl
occupied_ext m m' (suc n) h =
    ap₂ ◌+◌ (occupied_ext m m' n (λ b l. h b (omega arith))) (h n (omega arith))

pub occupied-le : (m : Words) (n : ℕ) → occupied m n ≤ n
unfolding occupied
occupied-le m zero = omega arith
occupied-le m (suc n) = omega (arith, occupied-le m n, bit_at-le (m (n / 32)) (n % 32))

-- A map that differs from `m` in one block.
occupied-change :
    (m m' : Words) (f n : ℕ)
    → f < n
    → ((b : ℕ) → f ≢ b → occ m' b ≡ occ m b)
    → occupied m' n + occ m f ≡ occupied m n + occ m' f
unfolding occupied
occupied-change m m' f zero l h = absurd (omega arith)
occupied-change m m' f (suc n) l h = elim (eq_cases f n) [
  | inl e ↦ rw e (omega (arith, occupied_ext m' m n (λ b k. h b (omega arith))))
  | inr ne ↦ omega (arith, occupied-change m m' f n (omega arith) h, h n ne)
]

pub occupied-set :
    (m : Words) (f n : ℕ) → f < n → occ m f ≡ 0 → occupied (set m f) n ≡ occupied m n + 1
occupied-set m f n l e =
    omega (arith, occupied-change m (set m f) f n l (λ b h. occ-set_ne m f b h), occ-set_self m f)

pub occupied-unset :
    (m : Words) (f n : ℕ) → f < n → occ m f ≡ 1 → occupied (unset m f) n + 1 ≡ occupied m n
occupied-unset m f n l e =
    omega
      (arith, occupied-change m (unset m f) f n l (λ b h. occ-unset_ne m f b h), occ-unset_self m f)

-- A run of free blocks that is occupied adds its length.
pub occupied-set_range :
    (m : Words) (f k n : ℕ)
    → f + k ≤ n
    → ((b : ℕ) → f ≤ b → b < f + k → occ m b ≡ 0)
    → occupied (set_range m f k) n ≡ occupied m n + k
unfolding set_range
occupied-set_range m f zero n l h = omega arith
occupied-set_range m f (suc k) n l h = omega (
  arith,
  occupied-set_range (set m f) (suc f) k n (omega arith)
      (λ b lo hi. occ-set_ne m f b (omega arith) ∙ h b (omega arith) (omega arith)),
  occupied-set m f n (omega arith) (h f (omega arith) (omega arith)),
)

-- A run of occupied blocks that is freed takes its length away.
pub occupied-unset_range :
    (m : Words) (f k n : ℕ)
    → f + k ≤ n
    → ((b : ℕ) → f ≤ b → b < f + k → occ m b ≡ 1)
    → occupied (unset_range m f k) n + k ≡ occupied m n
unfolding unset_range
occupied-unset_range m f zero n l h = omega arith
occupied-unset_range m f (suc k) n l h = omega (
  arith,
  occupied-unset_range (unset m f) (suc f) k n (omega arith)
      (λ b lo hi. occ-unset_ne m f b (omega arith) ∙ h b (omega arith) (omega arith)),
  occupied-unset m f n (omega arith) (h f (omega arith) (omega arith)),
)

-- A map with every block occupied, and one with a free block.
pub occupied-full : (m : Words) (n : ℕ) → ((b : ℕ) → b < n → occ m b ≡ 1) → occupied m n ≡ n
unfolding occupied
occupied-full m zero h = refl
occupied-full m (suc n) h =
    omega (arith, occupied-full m n (λ b l. h b (omega arith)), h n (omega arith))

pub occupied-lt : (m : Words) (n b : ℕ) → b < n → occ m b ≡ 0 → occupied m n < n
unfolding occupied
occupied-lt m zero b l e = absurd (omega arith)
occupied-lt m (suc n) b l e = elim (eq_cases b n) [
  | inl q ↦ let e' : occ m n ≡ 0 = rw (← q) e in omega (arith, occupied-le m n)
  | inr ne ↦ omega (arith, occupied-lt m n b (omega arith) e, bit_at-le (m (n / 32)) (n % 32))
]

pub occupied-empty : (m : Words) (n : ℕ) → ((b : ℕ) → b < n → occ m b ≡ 0) → occupied m n ≡ 0
unfolding occupied
occupied-empty m zero h = refl
occupied-empty m (suc n) h =
    omega (arith, occupied-empty m n (λ b l. h b (omega arith)), h n (omega arith))
