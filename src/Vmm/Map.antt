-- ===== src/Vmm/Map.antt =====
-- `vmmngr_map_page`: the page leads to the frame, and no other page moves.
use mathlib.Core.Path.{subst}
use osdev_graphical.Base.{
  ℕ, ◌+◌, ◌*◌, ◌/◌, ◌%◌, ◌^◌, ◌<◌, ◌≡◌, ◌≢◌, ◌⊎◌, inl, inr, refl, arith, ◌∙◌, Bool, Bool-cases,
  ==_iff, if◌then◌else◌, ◌==◌, sym, true, false,
}
use osdev_graphical.Memory.Laws.{eq_cases}
use osdev_graphical.Pmm
use osdev_graphical.Vmm.{
  Vmm, ensure_table, enter_table, set_page, map_page, virt2phys_pdir, pdirectory_lookup_entry,
}
use osdev_graphical.Vmm.Spec.{
  pde, frame, IsSpace, dir_of, page_of, directory_slot, virt2phys-translate,
}
use osdev_graphical.Vmm.Entry.{Agrees, Moves, IsEntry, enter_table-IsEntry, set_page_lem}
use osdev_graphical.Vmm.Ensure.{ensure_table-EnsureLaw}

-- No block for a table that is not there, or the page moved.
abbrev MapLaw : Vmm → ℕ → ℕ → ℕ → Vmm → Type 0
MapLaw s dir phys virt s' =
    ((s' ≡ s) × (pde s.memory dir (dir_of virt) % 2 ≢ 1) × ((Pmm.alloc_block s.pmm).0 ≡ 0))
    ⊎ (IsSpace s' dir × Moves s s' dir (dir_of virt) (page_of virt) (frame phys))

-- The entry found, its flags set and the page's entry written.
finish :
    (s : Vmm) {s1 : Vmm} {dir : ℕ} (phys virt pte_flags : ℕ) (out : ℕ × Vmm)
    → IsEntry s1 dir (dir_of virt) virt out
    → Agrees s s1 dir
    → phys < 2 ^ 32
    → pte_flags < 4096
    → let s' = set_page out.1 out.0 phys pte_flags in
      IsSpace s' dir × Moves s s' dir (dir_of virt) (page_of virt) (frame phys)
finish s {s1} {dir} phys virt pte_flags out t same hp hf =
    let a =
      set_page_lem (dir_of virt) (page_of virt) out.0 phys pte_flags t.space (omega arith)
        (omega arith) t.there t.slot hp hf in
    (
      a.0,
      (
        a.1.0,
        λ i j off li lj ne. a.1.1 i j off li lj ne ∙ t.agrees i j off li lj ∙ same i j off li lj,
      ),
    )

map_page-cases :
    (s : Vmm) (dir phys virt pde_flags pte_flags : ℕ) (out : Bool × Vmm)
    → ensure_table s (pdirectory_lookup_entry dir virt) ≡ out
    → map_page s dir phys virt pde_flags pte_flags ≡ (
        let entry = enter_table out.1 (pdirectory_lookup_entry dir virt) virt pde_flags in
        if out.0 then set_page entry.1 entry.0 phys pte_flags else out.1)
unfolding map_page
map_page-cases s dir phys virt pde_flags pte_flags out e = rw (← e)

map_page-MapLaw :
    {s : Vmm} {dir : ℕ} (phys virt pde_flags pte_flags : ℕ)
    → IsSpace s dir
    → phys < 2 ^ 32
    → pde_flags < 4096
    → pte_flags < 4096
    → MapLaw s dir phys virt (map_page s dir phys virt pde_flags pte_flags)
map_page-MapLaw {s} {dir} phys virt pde_flags pte_flags w hp hd hf =
    elim (ensure_table-EnsureLaw (dir_of virt) e w (omega arith) slot) [
      | inl (out, absent, full) ↦
          inl (map_page-cases s dir phys virt pde_flags pte_flags (false, s) out, absent, full)
      | inr (ok, w1, there, same) ↦ inr (
          subst (λ s'. IsSpace s' dir × Moves s s' dir (dir_of virt) (page_of virt) (frame phys))
            (sym (
              map_page-cases s dir phys virt pde_flags pte_flags (ensure_table s e) refl
              ∙ rw ok refl))
            (finish s phys virt pte_flags _
              (enter_table-IsEntry (dir_of virt) e virt pde_flags w1 (omega arith) there slot hd)
              same hp hf))
    ]
  where
    e : ℕ
    e = pdirectory_lookup_entry dir virt

    slot : e / 4 ≡ frame dir * 1024 + dir_of virt
    slot = directory_slot dir virt w.aligned w.not_null

-- `vmmngr_map_page` of a 32-bit physical address, with flags below the frame's bits, keeps an address
-- space well formed: the tables that are present stay taken blocks, apart from each other and from
-- the directory. This holds whether the table was there, was made, or could not be had.
pub map_page-IsSpace :
    {s : Vmm} {dir : ℕ} (phys virt pde_flags pte_flags : ℕ)
    → IsSpace s dir
    → phys < 2 ^ 32
    → pde_flags < 4096
    → pte_flags < 4096
    → IsSpace (map_page s dir phys virt pde_flags pte_flags) dir
map_page-IsSpace {s} {dir} phys virt pde_flags pte_flags w hp hd hf =
    elim (map_page-MapLaw phys virt pde_flags pte_flags w hp hd hf) [
      | inl (e, absent, full) ↦ rw e w
      | inr (w', moves) ↦ w'
    ]

-- Two addresses of different pages differ in an index.
pub pages_differ :
    (v virt : ℕ)
    → v < 2 ^ 32
    → virt < 2 ^ 32
    → (v / 4096 == virt / 4096) ≡ false
    → (dir_of v ≢ dir_of virt) ⊎ (page_of v ≢ page_of virt)
pages_differ v virt hv hw ne = elim (eq_cases (dir_of v) (dir_of virt)) [
  | inl e ↦ inr (λ q. different (omega arith))
  | inr n ↦ inl n
]
  where
    different : v / 4096 ≢ virt / 4096
    different = ground arith

pub same_page :
    (v virt : ℕ)
    → (v / 4096 == virt / 4096) ≡ true
    → (dir_of v ≡ dir_of virt) × (page_of v ≡ page_of virt)
same_page v virt h = let e : v / 4096 ≡ virt / 4096 = (==_iff _ _).0 h in (omega arith, omega arith)

-- `vmmngr_map_page` in a well-formed address space, of a 32-bit physical address and with flags below
-- the frame's bits, either changes nothing, because the page's table was missing and no block could be
-- had for it, or makes `vmmngr_virt2phys_pdir` lead every address of the page to the same offset in
-- the physical address's frame, and leaves the translation of every other 32-bit address as it was.
pub map_page-virt2phys :
    {s : Vmm} {dir : ℕ} (phys virt pde_flags pte_flags v : ℕ)
    → IsSpace s dir
    → phys < 2 ^ 32
    → pde_flags < 4096
    → pte_flags < 4096
    → virt < 2 ^ 32
    → v < 2 ^ 32
    → let s' = map_page s dir phys virt pde_flags pte_flags in
      ((s' ≡ s) × (virt2phys_pdir s dir virt ≡ 0) × ((Pmm.alloc_block s.pmm).0 ≡ 0))
      ⊎ (virt2phys_pdir s' dir v ≡ (
          if v / 4096 == virt / 4096
          then phys / 4096 * 4096 + v % 4096
          else virt2phys_pdir s dir v))
map_page-virt2phys {s} {dir} phys virt pde_flags pte_flags v w hp hd hf hw hv =
    elim (map_page-MapLaw phys virt pde_flags pte_flags w hp hd hf) [
      | inl (e, absent, full) ↦ inl (
        e,
        virt2phys-translate virt w
            ∙ (let gone : (pde s.memory dir (dir_of virt) % 2 == 1) ≡ false = ground arith in
                rw gone refl),
        full,
      )
      | inr (w', (here, others)) ↦ inr (
          virt2phys-translate v w' ∙ elim (Bool-cases (v / 4096 == virt / 4096)) [
            | inl same ↦ let q = same_page v virt same in rw (same, q.0, q.1) (here (v % 4096))
            | inr ne ↦ rw ne (
                others _ _ _ (omega arith) (omega arith) (pages_differ v virt hv hw ne)
                ∙ sym (virt2phys-translate v w))
          ])
    ]
