-- ===== src/Bitmap/Bytes.antt =====
-- The bitmap as bytes: what a `memset` of the map makes of the blocks.
use osdev_graphical.Base.{ℕ, zero, suc, ◌+◌, ◌*◌, ◌/◌, ◌%◌, ◌≤◌, ◌<◌, ◌≡◌, inr, arith, ◌∙◌}
use osdev_graphical.Bits.{bit_at, bit_at-zero, bit_at-ones}
use osdev_graphical.Memory.{Words, byte_of, load_byte, memset}
use osdev_graphical.Memory.Laws.{load-memset_in, load-memset_out}
use osdev_graphical.Bitmap.Laws.{occ}

low_bits : (w k : ℕ) → k < 8 → bit_at w k ≡ bit_at (w % 256) k
low_bits w zero l = omega arith
low_bits w (suc zero) l = omega arith
low_bits w (suc (suc zero)) l = omega arith
low_bits w (suc (suc (suc zero))) l = omega arith
low_bits w (suc (suc (suc (suc zero)))) l = omega arith
low_bits w (suc (suc (suc (suc (suc zero))))) l = omega arith
low_bits w (suc (suc (suc (suc (suc (suc zero)))))) l = omega arith
low_bits w (suc (suc (suc (suc (suc (suc (suc zero))))))) l = omega arith
low_bits w (suc (suc (suc (suc (suc (suc (suc (suc k)))))))) l = absurd (omega arith)

bit_at-byte : (w k : ℕ) → bit_at w (8 + k) ≡ bit_at (w / 256) k
bit_at-byte w k =
    let e : w / 2 / 2 / 2 / 2 / 2 / 2 / 2 / 2 ≡ w / 256 = omega arith in
    let s : 8 + k ≡ suc (suc (suc (suc (suc (suc (suc (suc k))))))) = omega arith in rw (s, ← e)

byte_bits : (p w k : ℕ) → k < 8 → bit_at w (8 * p + k) ≡ bit_at (byte_of w p) k
byte_bits zero w k l = let s : 8 * 0 + k ≡ k = omega arith in rw s (low_bits w k l)
byte_bits (suc p) w k l =
    let s : 8 * suc p + k ≡ 8 + (8 * p + k) = omega arith in
    rw (s, bit_at-byte) (byte_bits p (w / 256) k l)

-- Block `b` is bit `b % 8` of byte `b / 8`.
occ-byte : (m : Words) (b : ℕ) → occ m b ≡ bit_at (load_byte m (b / 8)) (b % 8)
unfolding load_byte
occ-byte m b =
    let q : b / 8 / 4 ≡ b / 32 = omega arith in
    let r : 8 * (b / 8 % 4) + b % 8 ≡ b % 32 = omega arith in
    rw (← r, ← q) (byte_bits (b / 8 % 4) (m (b / 8 / 4)) (b % 8) (omega arith))

module _ (m : Words) (n b : ℕ) where
  pub occ-memset_ones : b < 8 * n → occ (memset m 0 0xff n) b ≡ 1
  occ-memset_ones l =
      occ-byte (memset m 0 0xff n) b
      ∙ rw (load-memset_in m 0 0xff n (b / 8) (omega arith) (omega arith))
          (bit_at-ones 8 (b % 8) (omega arith))

  pub occ-memset_zeros : b < 8 * n → occ (memset m 0 0 n) b ≡ 0
  occ-memset_zeros l =
      occ-byte (memset m 0 0 n) b
      ∙ rw (load-memset_in m 0 0 n (b / 8) (omega arith) (omega arith)) (bit_at-zero (b % 8))

  pub occ-memset_out : (v : ℕ) → 8 * n ≤ b → occ (memset m 0 v n) b ≡ occ m b
  occ-memset_out v l =
      occ-byte (memset m 0 v n) b
      ∙ rw (load-memset_out m 0 v n (b / 8) (inr (omega arith)), ← occ-byte m b)
