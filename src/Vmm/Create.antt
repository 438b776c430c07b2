-- ===== src/Vmm/Create.antt =====
-- `vmmngr_create_pdir`: a new address space, which maps nothing.
use osdev_graphical.Base.{
  ℕ, ◌*◌, ◌/◌, ◌%◌, ◌<◌, ◌≡◌, ◌≢◌, ◌⊎◌, inl, inr, refl, arith, ◌∙◌, if◌then◌else◌, ◌==◌, sym, ap,
  false,
}
use osdev_graphical.Memory.{memset}
use osdev_graphical.Memory.Laws.{IsWords, memset-IsWords}
use osdev_graphical.Pmm
use osdev_graphical.Pmm.{Pmm}
use osdev_graphical.Pmm.Valid as PmmValid
use osdev_graphical.Pmm.Valid.{IsAllocated, AllocLaw}
use osdev_graphical.Pmm.Alloc.{alloc_block-AllocLaw}
use osdev_graphical.Vmm.{Vmm, create_pdir, pdirectory_clear, virt2phys_pdir}
use osdev_graphical.Vmm.Clear.{cleared}
use osdev_graphical.Vmm.Spec.{pde, IsSpace, dir_of, virt2phys-translate}

-- No block, or a directory without a mapping.
abbrev pub CreateLaw : Vmm → ℕ × Vmm → Type 0
CreateLaw s out =
    ((out ≡ (0, s)) × ((Pmm.alloc_block s.pmm).0 ≡ 0))
    ⊎ (IsSpace out.1 out.0 × ((v : ℕ) → virt2phys_pdir out.1 out.0 v ≡ 0))

module _ (s : Vmm) (f a : ℕ) (p' : Pmm) (w : IsWords s.memory)
    (g : IsAllocated s.pmm 1 f (a, p')) where
  abbrev space : Vmm
  space = record s { pmm = p'; memory = memset s.memory (f * 4096) 0 (1024 * 4) }

  no_entry : (i : ℕ) → i < 1024 → pde space.memory (f * 4096) i ≡ 0
  no_entry i l =
      let e : f * 4096 ≡ 4 * (f * 1024) = omega arith in
      rw e (cleared s.memory (f * 1024) 1024 _ w (omega arith) (omega arith))

  not_there : (i : ℕ) → i < 1024 → pde space.memory (f * 4096) i % 2 ≢ 1
  not_there i l = rw (no_entry i l) (λ q. omega (arith, q))

  space-IsSpace : IsSpace space (f * 4096)
  space-IsSpace = record {
    valid = g.valid;
    words = memset-IsWords s.memory (f * 4096) 0 (1024 * 4) w;
    aligned = omega arith;
    not_null = omega (arith, g.not_null);
    own =
        (let e : f * 4096 / 4096 ≡ f = omega arith in
          rw e (g.are_taken f (omega arith) (omega arith)));
    table_real = λ i l h. absurd (not_there i l h);
    table_other = λ i l h. absurd (not_there i l h);
    table_own = λ i l h. absurd (not_there i l h);
    apart = λ i j li lj ne hi hj. absurd (not_there i li hi);
  }

  space-unmapped : (v : ℕ) → virt2phys_pdir space (f * 4096) v ≡ 0
  space-unmapped v =
      virt2phys-translate v space-IsSpace ∙ rw (no_entry (dir_of v) (omega arith)) refl

created :
    (s : Vmm) (out : ℕ × Pmm)
    → IsWords s.memory
    → AllocLaw s.pmm 1 out
    → out ≡ Pmm.alloc_block s.pmm
    → CreateLaw s (
        if out.0 == 0
        then (0, record s { pmm = out.1 })
        else (out.0, record s { pmm = out.1; memory = memset s.memory out.0 0 (1024 * 4) }))
created s out w (inl (z, full)) eq = rw z (inl (refl, ap (λ (o : ℕ × Pmm). o.0) (sym eq ∙ z)))
created s out w (inr (f, g)) eq =
    rw (not_null, g.address)
      (inr (space-IsSpace s f out.0 out.1 w g, space-unmapped s f out.0 out.1 w g))
  where
    not_null : (out.0 == 0) ≡ false
    not_null = ground (arith, g.address, g.not_null)

-- From a valid physical memory manager and a memory of 32-bit words, `vmmngr_create_pdir` returns the
-- null pointer with nothing changed because no block could be had, or the address of a directory that
-- is a well-formed address space in which every virtual address translates to 0.
pub create_pdir-CreateLaw :
    (s : Vmm) → PmmValid.IsValid s.pmm → IsWords s.memory → CreateLaw s (create_pdir s)
unfolding create_pdir pdirectory_clear
create_pdir-CreateLaw s v w = created s (Pmm.alloc_block s.pmm) w (alloc_block-AllocLaw v) refl
