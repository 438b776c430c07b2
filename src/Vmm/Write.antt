-- ===== src/Vmm/Write.antt =====
-- Single writes to an address space: to a directory entry, and to a page's entry.
use osdev_graphical.Base.{
  ℕ, ◌+◌, ◌*◌, ◌%◌, ◌^◌, ◌<◌, ◌≡◌, ◌≢◌, ◌⊎◌, inl, inr, arith, ◌∙◌, ==_iff, if◌then◌else◌, ◌==◌, sym,
  ap,
}
use osdev_graphical.Memory.{Words}
use osdev_graphical.Memory.Laws.{IsWords, eq_cases}
use osdev_graphical.Vmm.{Vmm}
use osdev_graphical.Vmm.Spec.{pde, frame, translate, IsSpace, translate_ext}

-- `m'` is `m` but for word `p`.
abbrev pub Differs : Words → Words → ℕ → Type 0
Differs m m' p = (j : ℕ) → j ≢ p → m' j ≡ m j

pub Differs-IsWords :
    {m m' : Words} (p : ℕ) → Differs m m' p → m' p < 2 ^ 32 → IsWords m → IsWords m'
Differs-IsWords {m} {m'} p d b w j = elim (eq_cases j p) [
  | inl e ↦ rw e b
  | inr ne ↦ rw (d j ne) (w j)
]

-- The directory's frames and present bits carry the invariant over.
pub IsSpace-keep :
    {s : Vmm} {dir : ℕ} (m : Words)
    → IsSpace s dir
    → IsWords m
    → ((i : ℕ) → i < 1024 → frame (pde m dir i) ≡ frame (pde s.memory dir i))
    → ((i : ℕ) → i < 1024 → pde m dir i % 2 ≡ pde s.memory dir i % 2)
    → IsSpace (record s { memory = m }) dir
IsSpace-keep m w wm f p = record {
  valid = w.valid;
  words = wm;
  aligned = w.aligned;
  not_null = w.not_null;
  own = w.own;
  table_real = λ i l h. rw (f i l) (w.table_real i l (sym (p i l) ∙ h));
  table_other = λ i l h. rw (f i l) (w.table_other i l (sym (p i l) ∙ h));
  table_own = λ i l h. rw (f i l) (w.table_own i l (sym (p i l) ∙ h));
  apart = λ i j li lj ne hi hj.
      rw (f i li, f j lj) (w.apart i j li lj ne (sym (p i li) ∙ hi) (sym (p j lj) ∙ hj));
}

module _ {s : Vmm} {dir : ℕ} (w : IsSpace s dir) (m : Words) where
  -- A new directory entry with the frame and the present bit of the old one.
  module _ (k : ℕ) (lk : k < 1024) (d : Differs s.memory m (frame dir * 1024 + k))
      (f : frame (pde m dir k) ≡ frame (pde s.memory dir k))
      (p : pde m dir k % 2 ≡ pde s.memory dir k % 2) (b : pde m dir k < 2 ^ 32) where
    frames : (i : ℕ) → i < 1024 → frame (pde m dir i) ≡ frame (pde s.memory dir i)
    frames i l = elim (eq_cases i k) [
      | inl e ↦ rw e f
      | inr ne ↦ ap frame (d (frame dir * 1024 + i) (omega arith))
    ]

    presents : (i : ℕ) → i < 1024 → pde m dir i % 2 ≡ pde s.memory dir i % 2
    presents i l = elim (eq_cases i k) [
      | inl e ↦ rw e p
      | inr ne ↦ ap (λ (t : ℕ). t % 2) (d (frame dir * 1024 + i) (omega arith))
    ]

    pub IsSpace-pde : IsSpace (record s { memory = m }) dir
    IsSpace-pde =
        IsSpace-keep m w (Differs-IsWords (frame dir * 1024 + k) d b w.words) frames presents

    pub translate-pde :
        (i j off : ℕ)
        → i < 1024
        → j < 1024
        → translate m dir i j off ≡ translate s.memory dir i j off
    translate-pde i j off li lj =
        translate_ext s.memory m dir i j off (frames i li) (presents i li)
          (λ h. d _ (λ e. w.table_other i li h (omega arith)))

  -- A new entry for page `c` of the table of entry `k`.
  module _ (k c : ℕ) (lk : k < 1024) (lc : c < 1024) (there : pde s.memory dir k % 2 ≡ 1)
      (d : Differs s.memory m (frame (pde s.memory dir k) * 1024 + c))
      (b : m (frame (pde s.memory dir k) * 1024 + c) < 2 ^ 32) where
    same_pde : (i : ℕ) → i < 1024 → pde m dir i ≡ pde s.memory dir i
    same_pde i l = d _ (λ e. w.table_other k lk there (omega arith))

    pub IsSpace-pte : IsSpace (record s { memory = m }) dir
    IsSpace-pte =
        IsSpace-keep m w (Differs-IsWords (frame (pde s.memory dir k) * 1024 + c) d b w.words)
          (λ i l. ap frame (same_pde i l)) (λ i l. ap (λ (t : ℕ). t % 2) (same_pde i l))

    pub translate-pte_self :
        (off : ℕ)
        → let e = m (frame (pde s.memory dir k) * 1024 + c) in
          translate m dir k c off ≡ (if e % 2 == 1 then frame e * 4096 + off else 0)
    translate-pte_self off = rw (same_pde k lk, (==_iff _ 1).1 there)

    pub translate-pte_other :
        (i j off : ℕ)
        → i < 1024
        → j < 1024
        → (i ≢ k) ⊎ (j ≢ c)
        → translate m dir i j off ≡ translate s.memory dir i j off
    translate-pte_other i j off li lj ne =
        translate_ext s.memory m dir i j off (ap frame (same_pde i li))
          (ap (λ (t : ℕ). t % 2) (same_pde i li))
          (λ h. d _ (λ e. elim (eq_cases i k) [
            | inl q ↦ elim ne [
              | inl n ↦ n q
              | inr n ↦ n (
                  let r : frame (pde s.memory dir i) ≡ frame (pde s.memory dir k) = rw q in
                  omega arith)
            ]
            | inr n ↦ w.apart i k li lk n h there (omega arith)
          ]))
