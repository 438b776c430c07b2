-- ===== src/Vmm/Clear.antt =====
-- `vmmngr_ptable_clear` word by word.
use osdev_graphical.Base.{ℕ, ◌+◌, ◌*◌, ◌≤◌, ◌<◌, ◌≡◌, ◌⊎◌, arith, ◌∙◌, sym}
use osdev_graphical.Memory.{Words, memset}
use osdev_graphical.Memory.Laws.{
  IsWords, load-memset_in, load-memset_out, load_byte-zero, memset-IsWords, word_ext,
}

module _ (m : Words) (t k i : ℕ) (w : IsWords m) where
  pub cleared : t ≤ i → i < t + k → memset m (4 * t) 0 (4 * k) i ≡ 0
  cleared lo hi =
      word_ext (memset m (4 * t) 0 (4 * k)) (λ j. 0) i (memset-IsWords m (4 * t) 0 (4 * k) w)
        (λ j. omega arith)
        (λ a e.
          load-memset_in m (4 * t) 0 (4 * k) a (omega arith) (omega arith) ∙ sym (load_byte-zero a))

  pub uncleared : (i < t) ⊎ (t + k ≤ i) → memset m (4 * t) 0 (4 * k) i ≡ m i
  uncleared out =
      word_ext (memset m (4 * t) 0 (4 * k)) m i (memset-IsWords m (4 * t) 0 (4 * k) w) w
        (λ a e. load-memset_out m (4 * t) 0 (4 * k) a (omega arith))
