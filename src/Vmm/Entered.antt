-- ===== src/Vmm/Entered.antt =====
-- An address space with a fresh, empty table entered in its directory.
use osdev_graphical.Base.{
  ℕ, ◌+◌, ◌*◌, ◌/◌, ◌%◌, ◌<◌, ◌≡◌, ◌≢◌, inl, inr, arith, ◌∙◌, ==_iff, ◌==◌, sym, ap, false,
}
use osdev_graphical.Memory.{Words}
use osdev_graphical.Memory.Laws.{IsWords, eq_cases}
use osdev_graphical.Bitmap.Laws.{occ}
use osdev_graphical.Pmm.{Pmm}
use osdev_graphical.Pmm.Valid.{IsAllocated}
use osdev_graphical.Vmm.{Vmm}
use osdev_graphical.Vmm.Spec.{pde, pte, frame, translate, IsSpace, translate_ext}

-- `m'` is `m` with block `f` cleared and entry `k` of the directory at `dir` leading to it.
pub record IsEntered (m m' : Words) (dir k f : ℕ) : Type 0 where
  pub entry_frame : frame (pde m' dir k) ≡ f
  pub entry_present : pde m' dir k % 2 ≡ 1
  pub empty : (j : ℕ) → j < 1024 → pte m' f j ≡ 0
  pub kept : (i : ℕ) → i / 1024 ≢ f → i ≢ frame dir * 1024 + k → m' i ≡ m i
  pub words : IsWords m'

module _ {s : Vmm} {dir : ℕ} (w : IsSpace s dir) (k f a : ℕ) (lk : k < 1024) (p' : Pmm)
    (absent : pde s.memory dir k % 2 ≢ 1) (g : IsAllocated s.pmm 1 f (a, p')) (m' : Words)
    (t : IsEntered s.memory m' dir k f) where
  -- The fresh block is none of those in use.
  fresh : (b : ℕ) → occ s.pmm.memory_map b ≡ 1 → b ≢ f
  fresh b h e = omega (
    arith,
    (let h' : occ s.pmm.memory_map f ≡ 1 = rw e at h in h'),
    g.were_free f (omega arith) (omega arith),
  )

  still : (b : ℕ) → occ s.pmm.memory_map b ≡ 1 → occ p'.memory_map b ≡ 1
  still b h = g.others b (let ne : b ≢ f = fresh b h in omega arith) ∙ h

  old_entry : (i : ℕ) → i < 1024 → i ≢ k → pde m' dir i ≡ pde s.memory dir i
  old_entry i l ne =
      t.kept (frame dir * 1024 + i) (λ e. fresh (frame dir) w.own (omega arith)) (omega arith)

  old_present : (i : ℕ) → i < 1024 → i ≢ k → pde m' dir i % 2 ≡ 1 → pde s.memory dir i % 2 ≡ 1
  old_present i l ne h = rw (old_entry i l ne) at h

  table_own' :
      (i : ℕ) → i < 1024 → pde m' dir i % 2 ≡ 1 → occ p'.memory_map (frame (pde m' dir i)) ≡ 1
  table_own' i l h = elim (eq_cases i k) [
    | inl e ↦ rw (e, t.entry_frame) (g.are_taken f (omega arith) (omega arith))
    | inr ne ↦
        rw (old_entry i l ne)
          (still (frame (pde s.memory dir i)) (w.table_own i l (old_present i l ne h)))
  ]

  table_other' : (i : ℕ) → i < 1024 → pde m' dir i % 2 ≡ 1 → frame (pde m' dir i) ≢ frame dir
  table_other' i l h = elim (eq_cases i k) [
    | inl e ↦ rw (e, t.entry_frame) (λ q. fresh (frame dir) w.own (sym q))
    | inr ne ↦ rw (old_entry i l ne) (w.table_other i l (old_present i l ne h))
  ]

  table_real' : (i : ℕ) → i < 1024 → pde m' dir i % 2 ≡ 1 → 0 < frame (pde m' dir i)
  table_real' i l h = elim (eq_cases i k) [
    | inl e ↦ rw (e, t.entry_frame) g.not_null
    | inr ne ↦ rw (old_entry i l ne) (w.table_real i l (old_present i l ne h))
  ]

  -- An old table is not the fresh one.
  old-ne : (i : ℕ) → i < 1024 → i ≢ k → pde m' dir i % 2 ≡ 1 → frame (pde m' dir i) ≢ f
  old-ne i l ne h = rw (old_entry i l ne) (fresh _ (w.table_own i l (old_present i l ne h)))

  apart' :
      (i j : ℕ)
      → i < 1024
      → j < 1024
      → i ≢ j
      → pde m' dir i % 2 ≡ 1
      → pde m' dir j % 2 ≡ 1
      → frame (pde m' dir i) ≢ frame (pde m' dir j)
  apart' i j li lj ne hi hj = elim (eq_cases i k) [
    | inl e ↦ rw (e, t.entry_frame) (λ q. old-ne j lj (λ r. ne (e ∙ sym r)) hj (sym q))
    | inr ni ↦ elim (eq_cases j k) [
      | inl e ↦ rw (e, t.entry_frame) (old-ne i li ni hi)
      | inr nj ↦
          rw (old_entry i li ni, old_entry j lj nj)
            (w.apart i j li lj ne (old_present i li ni hi) (old_present j lj nj hj))
    ]
  ]

  pub entered-IsSpace : IsSpace (record s { pmm = p'; memory = m' }) dir
  entered-IsSpace = record {
    valid = g.valid;
    words = t.words;
    aligned = w.aligned;
    not_null = w.not_null;
    own = still (frame dir) w.own;
    table_real = table_real';
    table_other = table_other';
    table_own = table_own';
    apart = apart';
  }

  pub entered-translate :
      (i j off : ℕ)
      → i < 1024
      → j < 1024
      → translate m' dir i j off ≡ translate s.memory dir i j off
  entered-translate i j off li lj = elim (eq_cases i k) [
    | inl e ↦
        rw (
          e,
          t.entry_frame,
          (==_iff (pde m' dir k % 2) 1).1 t.entry_present,
          t.empty j lj,
          not_there,
        )
    | inr ne ↦
        translate_ext s.memory m' dir i j off (ap frame (old_entry i li ne))
          (ap (λ (e : ℕ). e % 2) (old_entry i li ne))
          (λ h.
            t.kept _ (λ q. fresh (frame (pde s.memory dir i)) (w.table_own i li h) (omega arith))
              (λ q. w.table_other i li h (omega arith)))
  ]
    where
      not_there : (pde s.memory dir k % 2 == 1) ≡ false
      not_there = ground arith
