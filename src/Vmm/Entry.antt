-- ===== src/Vmm/Entry.antt =====
-- The writes of `vmmngr_map_page`: to the directory's entry, and to the page's.
use mathlib.Core.Path.{subst}
use osdev_graphical.Base.{
  ℕ, ◌+◌, ◌*◌, ◌/◌, ◌%◌, ◌^◌, ◌<◌, ◌≡◌, ◌≢◌, ◌⊎◌, arith, ◌∙◌, ==_iff, sym, ap,
}
use osdev_graphical.Memory.{Words, put}
use osdev_graphical.Memory.Laws.{put_self, put_ne}
use osdev_graphical.Paging.{
  pd_entry_add_attrib, pd_entry_pfn, pt_entry_add_attrib, pt_entry_set_frame,
}
use osdev_graphical.Paging.Laws.{pd-add, pt-add, pt-set_frame}
use osdev_graphical.Vmm.{Vmm, store, enter_table, set_page, ptable_lookup_entry}
use osdev_graphical.Vmm.Spec.{pde, frame, translate, IsSpace, page_of, table_slot}
use osdev_graphical.Vmm.Write.{
  Differs, IsSpace-pde, translate-pde, IsSpace-pte, translate-pte_self, translate-pte_other,
}

-- `s'` has the translation of `s`.
abbrev pub Agrees : Vmm → Vmm → ℕ → Type 0
Agrees s s' dir =
    (i j off : ℕ)
    → i < 1024
    → j < 1024
    → translate s'.memory dir i j off ≡ translate s.memory dir i j off

-- `s'` has the translation of `s` but at page `c` of table `k`, which leads to block `b`.
abbrev pub Moves : Vmm → Vmm → ℕ → ℕ → ℕ → ℕ → Type 0
Moves s s' dir k c b =
    ((off : ℕ) → translate s'.memory dir k c off ≡ b * 4096 + off)
    × ((i j off : ℕ)
        → i < 1024
        → j < 1024
        → (i ≢ k) ⊎ (j ≢ c)
        → translate s'.memory dir i j off ≡ translate s.memory dir i j off)

-- The directory entry's flags.
pub record IsEntry (s : Vmm) (dir k virt : ℕ) (out : ℕ × Vmm) : Type 0 where
  pub space : IsSpace out.1 dir
  pub there : pde out.1.memory dir k % 2 ≡ 1
  pub agrees : Agrees s out.1 dir
  pub slot : out.0 / 4 ≡ frame (pde out.1.memory dir k) * 1024 + page_of virt

-- The entry's flags written at word `at`, with the address that follows.
abbrev entry_at : Vmm → ℕ → ℕ → ℕ → ℕ × Vmm
entry_at s virt flags at =
    let m = put s.memory at (pd_entry_add_attrib (s.memory at) flags) in
    (ptable_lookup_entry (pd_entry_pfn (m at)) virt, record s { memory = m })

entry_at-IsEntry :
    {s : Vmm} {dir : ℕ} (k virt flags : ℕ)
    → IsSpace s dir
    → k < 1024
    → pde s.memory dir k % 2 ≡ 1
    → flags < 4096
    → IsEntry s dir k virt (entry_at s virt flags (frame dir * 1024 + k))
entry_at-IsEntry {s} {dir} k virt flags w lk there small = record {
  space = space';
  there = there';
  agrees = translate-pde w m k lk d f p b;
  slot = table_slot (m at) virt b (space'.table_real k lk there');
}
  where
    at : ℕ
    at = frame dir * 1024 + k

    m : Words
    m = put s.memory at (pd_entry_add_attrib (s.memory at) flags)

    here : m at ≡ pd_entry_add_attrib (s.memory at) flags
    here = put_self s.memory at _

    d : Differs s.memory m at
    d j h = put_ne s.memory at _ j h

    f : frame (m at) ≡ frame (s.memory at)
    f = ap frame here ∙ (pd-add (s.memory at) flags (w.words at) small).0

    p : m at % 2 ≡ s.memory at % 2
    p = omega (
      arith,
      ap (λ (t : ℕ). t % 2) here,
      (pd-add (s.memory at) flags (w.words at) small).1,
      there,
    )

    b : m at < 2 ^ 32
    b = rw here (pd-add (s.memory at) flags (w.words at) small).2

    space' : IsSpace (record s { memory = m }) dir
    space' = IsSpace-pde w m k lk d f p b

    there' : m at % 2 ≡ 1
    there' = p ∙ there

pub enter_table-IsEntry :
    {s : Vmm} {dir : ℕ} (k e virt flags : ℕ)
    → IsSpace s dir
    → k < 1024
    → pde s.memory dir k % 2 ≡ 1
    → e / 4 ≡ frame dir * 1024 + k
    → flags < 4096
    → IsEntry s dir k virt (enter_table s e virt flags)
unfolding enter_table store
enter_table-IsEntry {s} {dir} k e virt flags w lk there es small =
    subst (λ at. IsEntry s dir k virt (entry_at s virt flags at)) (sym es)
      (entry_at-IsEntry k virt flags w lk there small)

-- The three writes to a page's entry at word `at`.
abbrev set_at : Words → ℕ → ℕ → ℕ → Words
set_at m phys flags at =
    let m1 = put m at (pt_entry_set_frame (m at) phys) in
    let m2 = put m1 at (pt_entry_add_attrib (m1 at) flags) in
    put m2 at (pt_entry_add_attrib (m2 at) 1)

set_at_ne : (m : Words) (phys flags at : ℕ) → Differs m (set_at m phys flags at) at
set_at_ne m phys flags at j h =
    let m1 = put m at (pt_entry_set_frame (m at) phys) in
    let m2 = put m1 at (pt_entry_add_attrib (m1 at) flags) in
    put_ne m2 at (pt_entry_add_attrib (m2 at) 1) j h
    ∙ put_ne m1 at (pt_entry_add_attrib (m1 at) flags) j h
    ∙ put_ne m at (pt_entry_set_frame (m at) phys) j h

set_at_self :
    (m : Words) (phys flags at : ℕ)
    → set_at m phys flags at at
      ≡ pt_entry_add_attrib (pt_entry_add_attrib (pt_entry_set_frame (m at) phys) flags) 1
set_at_self m phys flags at = rw (put_self, put_self, put_self)

entry_lem :
    (e phys flags : ℕ)
    → e < 2 ^ 32
    → phys < 2 ^ 32
    → flags < 4096
    → let r = pt_entry_add_attrib (pt_entry_add_attrib (pt_entry_set_frame e phys) flags) 1 in
      (frame r ≡ frame phys) × (r % 2 ≡ 1) × (r < 2 ^ 32)
entry_lem e phys flags he hp hf =
    let a = pt-set_frame e phys he hp in
    let b = pt-add (pt_entry_set_frame e phys) flags a.2 hf in
    let c = pt-add (pt_entry_add_attrib (pt_entry_set_frame e phys) flags) 1 b.2 (omega arith) in
    (c.0 ∙ b.0 ∙ a.0, omega (arith, c.1), c.2)

set_at_lem :
    {s : Vmm} {dir : ℕ} (k c phys flags : ℕ)
    → IsSpace s dir
    → k < 1024
    → c < 1024
    → pde s.memory dir k % 2 ≡ 1
    → phys < 2 ^ 32
    → flags < 4096
    → let s' = record s {
      memory = set_at s.memory phys flags (frame (pde s.memory dir k) * 1024 + c);
    } in
      IsSpace s' dir × Moves s s' dir k c (frame phys)
set_at_lem {s} {dir} k c phys flags w lk lc there hp hf = (
  IsSpace-pte w m k c lk lc there d bound,
  (
    λ off. translate-pte_self w m k c lk lc there d bound off ∙ rw ((==_iff _ 1).1 present, framed),
    translate-pte_other w m k c lk lc there d bound,
  ),
)
  where
    at : ℕ
    at = frame (pde s.memory dir k) * 1024 + c

    m : Words
    m = set_at s.memory phys flags at

    d : Differs s.memory m at
    d = set_at_ne s.memory phys flags at

    self : (frame (m at) ≡ frame phys) × (m at % 2 ≡ 1) × (m at < 2 ^ 32)
    self =
        rw (set_at_self s.memory phys flags at)
          (entry_lem (s.memory at) phys flags (w.words at) hp hf)

    framed : frame (m at) ≡ frame phys
    framed = self.0

    present : m at % 2 ≡ 1
    present = self.1

    bound : m at < 2 ^ 32
    bound = self.2

pub set_page_lem :
    {s : Vmm} {dir : ℕ} (k c page phys flags : ℕ)
    → IsSpace s dir
    → k < 1024
    → c < 1024
    → pde s.memory dir k % 2 ≡ 1
    → page / 4 ≡ frame (pde s.memory dir k) * 1024 + c
    → phys < 2 ^ 32
    → flags < 4096
    → IsSpace (set_page s page phys flags) dir
      × Moves s (set_page s page phys flags) dir k c (frame phys)
unfolding set_page store
set_page_lem {s} {dir} k c page phys flags w lk lc there ps hp hf =
    subst
      (λ at.
        let s' = record s { memory = set_at s.memory phys flags at } in
        IsSpace s' dir × Moves s s' dir k c (frame phys))
      (sym ps) (set_at_lem k c phys flags w lk lc there hp hf)
