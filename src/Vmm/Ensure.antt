-- ===== src/Vmm/Ensure.antt =====
-- The table of an address is there, or it is made: an empty one in a fresh block.
use mathlib.Core.Path.{subst}
use osdev_graphical.Base.{
  ℕ, ◌+◌, ◌*◌, ◌/◌, ◌%◌, ◌^◌, ◌<◌, ◌≡◌, ◌≢◌, ◌⊎◌, inl, inr, refl, arith, ◌∙◌, Bool, Bool-cases,
  ==_iff, if◌then◌else◌, ◌==◌, sym, ap, true, false,
}
use osdev_graphical.Memory.{Words, put, memset}
use osdev_graphical.Memory.Laws.{IsWords, eq_cases, put_self, put_ne, memset-IsWords}
use osdev_graphical.Bitmap.Laws.{occ}
use osdev_graphical.Pmm
use osdev_graphical.Pmm.{Pmm}
use osdev_graphical.Pmm.Valid.{AllocLaw}
use osdev_graphical.Pmm.Alloc.{alloc_block-AllocLaw}
use osdev_graphical.Paging.{pd_entry_add_attrib, pd_entry_set_frame}
use osdev_graphical.Paging.Laws.{pd-present, pd-add, pd-set_frame}
use osdev_graphical.Vmm.{Vmm, ensure_table, ptable_clear, store}
use osdev_graphical.Vmm.Clear.{cleared, uncleared}
use osdev_graphical.Vmm.Spec.{pde, frame, translate, IsSpace}
use osdev_graphical.Vmm.Entered.{IsEntered, entered-IsSpace, entered-translate}

-- The memory that the function leaves: the block cleared, then the two writes to the entry.
abbrev entered : Words → ℕ → ℕ → Words
entered m at table =
    let m1 = memset m table 0 (1024 * 4) in
    let m2 = put m1 at (pd_entry_add_attrib (m1 at) 1) in
    put m2 at (pd_entry_set_frame (m2 at) table)

module _ (m : Words) (w : IsWords m) (dir k f : ℕ) (lk : k < 1024) (ne : frame dir ≢ f)
    (small : f < 2 ^ 20) where
  clear : Words
  clear = memset m (f * 4096) 0 (1024 * 4)

  slot : ℕ
  slot = frame dir * 1024 + k

  clear-IsWords : IsWords clear
  unfolding clear
  clear-IsWords = memset-IsWords m (f * 4096) 0 (1024 * 4) w

  clear-in : (j : ℕ) → j < 1024 → clear (f * 1024 + j) ≡ 0
  unfolding clear
  clear-in j l =
      let e : f * 4096 ≡ 4 * (f * 1024) = omega arith in
      rw e (cleared m (f * 1024) 1024 (f * 1024 + j) w (omega arith) (omega arith))

  clear-out : (i : ℕ) → i / 1024 ≢ f → clear i ≡ m i
  unfolding clear
  clear-out i h =
      let e : f * 4096 ≡ 4 * (f * 1024) = omega arith in
      rw e (uncleared m (f * 1024) 1024 i w (omega arith))

  flagged : ℕ
  flagged = pd_entry_add_attrib (clear slot) 1

  entry : ℕ
  entry = pd_entry_set_frame flagged (f * 4096)

  entry_lem : (frame entry ≡ f) × (entry % 2 ≡ 1) × (entry < 2 ^ 32)
  unfolding entry flagged
  entry_lem =
      let a = pd-add (clear slot) 1 (clear-IsWords slot) (omega arith) in
      let b = pd-set_frame (pd_entry_add_attrib (clear slot) 1) (f * 4096) a.2 (omega arith) in
      (omega (arith, b.0), omega (arith, b.1, a.1), b.2)

  entered_self : entered m slot (f * 4096) slot ≡ entry
  unfolding entry flagged clear
  entered_self = rw (put_self, put_self)

  entered_ne : (i : ℕ) → i ≢ slot → entered m slot (f * 4096) i ≡ clear i
  unfolding clear
  entered_ne i h = put_ne _ slot _ i h ∙ put_ne (memset m (f * 4096) 0 (1024 * 4)) slot _ i h

  entered-IsEntered : IsEntered m (entered m slot (f * 4096)) dir k f
  unfolding slot
  entered-IsEntered = record {
    entry_frame = ap frame entered_self ∙ entry_lem.0;
    entry_present = ap (λ (t : ℕ). t % 2) entered_self ∙ entry_lem.1;
    empty = λ j l. entered_ne (f * 1024 + j) (omega arith) ∙ clear-in j l;
    kept = λ i h n. entered_ne i n ∙ clear-out i h;
    words = λ i. elim (eq_cases i slot) [
      | inl e ↦ rw (e, entered_self) entry_lem.2
      | inr n ↦ rw (entered_ne i n) (clear-IsWords i)
    ];
  }

-- The outcomes of `ensure_table`: no block for a table that is not there, with nothing changed; or
-- an address space with the same translation in which the table is there.
abbrev pub EnsureLaw : Vmm → ℕ → ℕ → Bool × Vmm → Type 0
EnsureLaw s dir k out =
    ((out ≡ (false, s)) × (pde s.memory dir k % 2 ≢ 1) × ((Pmm.alloc_block s.pmm).0 ≡ 0))
    ⊎ ((out.0 ≡ true)
        × IsSpace out.1 dir
        × (pde out.1.memory dir k % 2 ≡ 1)
        × ((i j off : ℕ)
            → i < 1024
            → j < 1024
            → translate out.1.memory dir i j off ≡ translate s.memory dir i j off))

made :
    {s : Vmm} {dir : ℕ} (k e : ℕ) (out : ℕ × Pmm)
    → IsSpace s dir
    → k < 1024
    → e / 4 ≡ frame dir * 1024 + k
    → pde s.memory dir k % 2 ≢ 1
    → AllocLaw s.pmm 1 out
    → out ≡ Pmm.alloc_block s.pmm
    → EnsureLaw s dir k (
        if out.0 == 0
        then (false, record s { pmm = out.1 })
        else (true, record s { pmm = out.1; memory = entered s.memory (e / 4) out.0 }))
unfolding slot
made {s} k e out w lk es absent (inl (z, full)) eq =
    rw z (inl (refl, absent, ap (λ (o : ℕ × Pmm). o.0) (sym eq ∙ z)))
made {s} {dir} k e out w lk es absent (inr (f, g)) eq =
    rw (not_null, es, g.address)
      (inr (
        refl,
        entered-IsSpace w k f out.0 lk out.1 absent g m t,
        t.entry_present,
        entered-translate w k f out.0 lk out.1 absent g m t,
      ))
  where
    not_null : (out.0 == 0) ≡ false
    not_null = ground (arith, g.address, g.not_null)

    m : Words
    m = entered s.memory (frame dir * 1024 + k) (f * 4096)

    apart_own : frame dir ≢ f
    apart_own q = omega (
      arith,
      (let h : occ s.pmm.memory_map f ≡ 1 = rw q at w.own in h),
      g.were_free f (omega arith) (omega arith),
    )

    t : IsEntered s.memory m dir k f
    t =
        entered-IsEntered s.memory w.words dir k f lk apart_own
          (omega (arith, g.inside, w.valid.bound))

ensure-there : (s : Vmm) (e : ℕ) → (s.memory (e / 4) % 2 == 1) ≡ true → ensure_table s e ≡ (true, s)
unfolding ensure_table
ensure-there s e h = rw (pd-present (s.memory (e / 4)), h)

ensure-gone :
    (s : Vmm) (e : ℕ)
    → (s.memory (e / 4) % 2 == 1) ≡ false
    → let out = Pmm.alloc_block s.pmm in
      ensure_table s e ≡ (
        if out.0 == 0
        then (false, record s { pmm = out.1 })
        else (true, record s { pmm = out.1; memory = entered s.memory (e / 4) out.0 }))
unfolding ensure_table ptable_clear store
ensure-gone s e h = rw (pd-present (s.memory (e / 4)), h)

pub ensure_table-EnsureLaw :
    {s : Vmm} {dir : ℕ} (k e : ℕ)
    → IsSpace s dir
    → k < 1024
    → e / 4 ≡ frame dir * 1024 + k
    → EnsureLaw s dir k (ensure_table s e)
ensure_table-EnsureLaw {s} {dir} k e w lk es = elim (Bool-cases (s.memory (e / 4) % 2 == 1)) [
  | inl there ↦
      subst (EnsureLaw s dir k) (sym (ensure-there s e there))
        (inr (refl, w, rw (← es) ((==_iff _ 1).0 there), λ i j off li lj. refl))
  | inr gone ↦ subst (EnsureLaw s dir k) (sym (ensure-gone s e gone)) (
      made k e (Pmm.alloc_block s.pmm) w lk es (rw (← es) (ground arith))
        (alloc_block-AllocLaw w.valid) refl)
]
