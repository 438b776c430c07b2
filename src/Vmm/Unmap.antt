-- ===== src/Vmm/Unmap.antt =====
-- `vmmngr_unmap_virt`: the page leads nowhere, and no other page moves.
use mathlib.Core.Path.{subst}
use osdev_graphical.Base.{
  ℕ, ◌+◌, ◌*◌, ◌/◌, ◌%◌, ◌^◌, ◌<◌, ◌≡◌, ◌≢◌, ◌⊎◌, inl, inr, refl, arith, ◌∙◌, Bool-cases, ==_iff,
  if◌then◌else◌, ◌==◌, sym, true, false,
}
use osdev_graphical.Memory.{Words, put}
use osdev_graphical.Memory.Laws.{put_self, put_ne}
use osdev_graphical.Paging.{pt_entry_set_frame, pt_entry_del_attrib, pd_entry_pfn}
use osdev_graphical.Paging.Laws.{pd-present, pt-set_frame, pt-del_present}
use osdev_graphical.Vmm.{
  Vmm, store, unmap_virt, virt2phys_pdir, pdirectory_lookup_entry, ptable_lookup_entry,
}
use osdev_graphical.Vmm.Spec.{
  pde, frame, translate, IsSpace, dir_of, page_of, directory_slot, table_slot, virt2phys-translate,
}
use osdev_graphical.Vmm.Write.{Differs, IsSpace-pte, translate-pte_self, translate-pte_other}
use osdev_graphical.Vmm.Map.{pages_differ, same_page}

-- The two writes to the page's entry at word `at`.
abbrev unset_at : Words → ℕ → Words
unset_at m at =
    let m1 = put m at (pt_entry_set_frame (m at) 0) in put m1 at (pt_entry_del_attrib (m1 at) 1)

unset_at_ne : (m : Words) (at : ℕ) → Differs m (unset_at m at) at
unset_at_ne m at j h =
    let m1 = put m at (pt_entry_set_frame (m at) 0) in
    put_ne m1 at (pt_entry_del_attrib (m1 at) 1) j h ∙ put_ne m at (pt_entry_set_frame (m at) 0) j h

unset_at_lem :
    (m : Words) (at : ℕ) → m at < 2 ^ 32 → (unset_at m at at % 2 ≡ 0) × (unset_at m at at < 2 ^ 32)
unset_at_lem m at b =
    rw (put_self, put_self)
      (pt-del_present (pt_entry_set_frame (m at) 0) (pt-set_frame (m at) 0 b (omega arith)).2)

-- The page `c` of table `k` gone from `m`.
abbrev IsUnset : Vmm → ℕ → ℕ → ℕ → Words → Type 0
IsUnset s dir k c m =
    IsSpace (record s { memory = m }) dir
    × ((off : ℕ) → translate m dir k c off ≡ 0)
    × ((i j off : ℕ)
        → i < 1024
        → j < 1024
        → (i ≢ k) ⊎ (j ≢ c)
        → translate m dir i j off ≡ translate s.memory dir i j off)

unset_at-IsUnset :
    {s : Vmm} {dir : ℕ} (k c : ℕ)
    → IsSpace s dir
    → k < 1024
    → c < 1024
    → pde s.memory dir k % 2 ≡ 1
    → IsUnset s dir k c (unset_at s.memory (frame (pde s.memory dir k) * 1024 + c))
unset_at-IsUnset {s} {dir} k c w lk lc there = (
  IsSpace-pte w m k c lk lc there d e.1,
  λ off. translate-pte_self w m k c lk lc there d e.1 off ∙ rw gone refl,
  translate-pte_other w m k c lk lc there d e.1,
)
  where
    at : ℕ
    at = frame (pde s.memory dir k) * 1024 + c

    m : Words
    m = unset_at s.memory at

    d : Differs s.memory m at
    d = unset_at_ne s.memory at

    e : (m at % 2 ≡ 0) × (m at < 2 ^ 32)
    e = unset_at_lem s.memory at (w.words at)

    gone : (m at % 2 == 1) ≡ false
    gone = rw e.0 refl

unmap-there :
    (s : Vmm) (dir virt d p : ℕ)
    → pdirectory_lookup_entry dir virt / 4 ≡ d
    → ptable_lookup_entry (pd_entry_pfn (s.memory d)) virt / 4 ≡ p
    → (s.memory d % 2 == 1) ≡ true
    → unmap_virt s dir virt ≡ record s { memory = unset_at s.memory p }
unfolding unmap_virt store
unmap-there s dir virt d p ed ep h =
    subst
      (λ d'.
        ptable_lookup_entry (pd_entry_pfn (s.memory d')) virt / 4 ≡ p
        → (s.memory d' % 2 == 1) ≡ true
        → unmap_virt s dir virt ≡ record s { memory = unset_at s.memory p })
      ed
      (λ ep' h'.
        subst (λ p'. unmap_virt s dir virt ≡ record s { memory = unset_at s.memory p' }) ep'
          (rw (pd-present (s.memory (pdirectory_lookup_entry dir virt / 4)), h') refl))
      ep h

unmap-gone :
    (s : Vmm) (dir virt : ℕ)
    → (s.memory (pdirectory_lookup_entry dir virt / 4) % 2 == 1) ≡ false
    → unmap_virt s dir virt ≡ s
unfolding unmap_virt
unmap-gone s dir virt h = rw (pd-present (s.memory (pdirectory_lookup_entry dir virt / 4)), h) refl

-- `vmmngr_unmap_virt` keeps a well-formed address space so, makes `vmmngr_virt2phys_pdir` return 0 for
-- every address of the page, and leaves the translation of every other 32-bit address as it was.
pub unmap_virt-virt2phys :
    {s : Vmm} {dir : ℕ} (virt v : ℕ)
    → IsSpace s dir
    → virt < 2 ^ 32
    → v < 2 ^ 32
    → IsSpace (unmap_virt s dir virt) dir
      × (virt2phys_pdir (unmap_virt s dir virt) dir v
          ≡ (if v / 4096 == virt / 4096 then 0 else virt2phys_pdir s dir v))
unmap_virt-virt2phys {s} {dir} virt v w hw hv = elim (Bool-cases (e % 2 == 1)) [
  | inl there ↦
      let at = frame e * 1024 + page_of virt in
      let present : e % 2 ≡ 1 = (==_iff _ 1).0 there in
      let u = unset_at-IsUnset (dir_of virt) (page_of virt) w (omega arith) (omega arith) present in
      let t = table_slot e virt (w.words _) (w.table_real (dir_of virt) (omega arith) present) in
      subst
        (λ s'.
          IsSpace s' dir
          × (virt2phys_pdir s' dir v
              ≡ (if v / 4096 == virt / 4096 then 0 else virt2phys_pdir s dir v)))
        (sym (unmap-there s dir virt _ at slot t there))
        (
          u.0,
          virt2phys-translate v u.0 ∙ elim (Bool-cases (v / 4096 == virt / 4096)) [
            | inl same ↦ let q = same_page v virt same in rw (same, q.0, q.1) (u.1 (v % 4096))
            | inr ne ↦ rw ne (
                u.2 _ _ _ (omega arith) (omega arith) (pages_differ v virt hv hw ne)
                ∙ sym (virt2phys-translate v w))
          ],
        )
  | inr gone ↦
      subst
        (λ s'.
          IsSpace s' dir
          × (virt2phys_pdir s' dir v
              ≡ (if v / 4096 == virt / 4096 then 0 else virt2phys_pdir s dir v)))
        (sym (unmap-gone s dir virt (rw slot gone)))
        (
          w,
          elim (Bool-cases (v / 4096 == virt / 4096)) [
            | inl same ↦
                rw same
                  (virt2phys-translate v w ∙ (let q = same_page v virt same in rw (q.0, gone) refl))
            | inr ne ↦ rw ne refl
          ],
        )
]
  where
    e : ℕ
    e = pde s.memory dir (dir_of virt)

    slot : pdirectory_lookup_entry dir virt / 4 ≡ frame dir * 1024 + dir_of virt
    slot = directory_slot dir virt w.aligned w.not_null
