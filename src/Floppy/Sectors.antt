-- ===== src/Floppy/Sectors.antt =====
-- Where a sector lies on the disk, and what the buffer's transfer is set up with.
use osdev_graphical.Base.{
  ℕ, ◌+◌, ◌-◌, ◌*◌, ◌/◌, ◌^◌, ◌≤◌, ◌<◌, ◌≡◌, ◌≢◌, refl, arith, bit_and, Bool-cases, not, inl, inr,
  ◌||◌, [], ◌==◌,
}
use osdev_graphical.Bits.Places.{and-word}
use osdev_graphical.Dma.{dma_reset}
use osdev_graphical.Floppy.{FloppyDir, flpydsk_lba_to_chs, flpydsk_dma_init}

-- A disk of 80 tracks with two heads and 36 sectors a track has 5760 sectors. The head, track and sector
-- of each are those of the disk, and lead back to the sector's number, so that no two sectors share a
-- place.
pub flpydsk_lba_to_chs-lba :
    (lba : ℕ)
    → lba < 5760
    → let (head, track, sector) = flpydsk_lba_to_chs lba in
      (head < 2)
      × (track < 80)
      × (1 ≤ sector)
      × (sector ≤ 36)
      × ((track * 2 + head) * 36 + (sector - 1) ≡ lba)
unfolding flpydsk_lba_to_chs
flpydsk_lba_to_chs-lba lba h = (omega arith, omega arith, omega arith, omega arith, omega arith)

-- The transfer is set up exactly when the buffer of 512 bytes lies below 16 MiB and in one block of
-- 64 KiB.
pub flpydsk_dma_init-fits :
    (a : ℕ) (dir : FloppyDir)
    → (a < 2 ^ 24 → a / 2 ^ 16 ≡ (a + 511) / 2 ^ 16 → flpydsk_dma_init a dir ≢ [])
      × (flpydsk_dma_init a dir ≢ [] → (a < 2 ^ 24) × (a / 2 ^ 16 ≡ (a + 511) / 2 ^ 16))
unfolding flpydsk_dma_init dma_reset
flpydsk_dma_init-fits a dir =
    elim (Bool-cases (
      not (a / 2 ^ 24 == 0)
      || not (511 / 2 ^ 16 == 0)
      || not ((bit_and a 0xffff + 511) / 2 ^ 16 == 0))) [
        | inl t ↦ (λ l b. absurd (ground (arith, t, l, b, and-word a)), λ n. absurd (n (rw t refl)))
        | inr f ↦ (
          λ l b n. (let n' = rw f at n in cc n'),
          λ n. (ground (arith, f, and-word a), ground (arith, f, and-word a)),
        )
      ]
