-- ===== src/Scheduler/Pages.antt =====
-- The searches of kernel/scheduler.c for pages of user space that are not mapped.
use mathlib.Core.Path.{subst}
use osdev_graphical.Base.{
  ℕ, zero, suc, ◌+◌, ◌-◌, ◌*◌, ◌/◌, ◌≤◌, ◌<◌, ◌≡◌, refl, arith, ◌∙◌, sym, ap, Bool, Bool-cases, ◌⊎◌,
  inl, inr, false, not, ◌&&◌, if◌then◌else◌, ◌==◌, ltb, ==_iff,
}
use osdev_graphical.Vmm
use osdev_graphical.Vmm.{Vmm}

-- The loop from page `i` on, with `left` pages below 0xC0000000 to go; `present` is
-- `vmmngr_check_virt_present` on the directory.
pub find_from : (ℕ → Bool) → ℕ → ℕ → ℕ → ℕ → ℕ → ℕ → ℕ
find_from present base page_amt zero i count loc = 0
find_from present base page_amt (suc left) i count loc =
    let absent = not (present (base + i * 4096)) in
    let loc' = if absent && (count == 0) then base + i * 4096 else loc in
    let count' = if absent then suc count else 0 in
    let rest = find_from present base page_amt left (suc i) count' loc' in
    if count' == page_amt then loc' else rest

-- `i` for which the loop returns null.
abbrev pub pages_above : ℕ → ℕ
pages_above base = (0xC0000000 - base + 4095) / 4096

pub find_user_space_pages_by_pdir : Vmm → ℕ → ℕ → ℕ → ℕ
find_user_space_pages_by_pdir s pdir base page_amt =
    find_from (Vmm.check_virt_present s pdir) base page_amt (pages_above base) 0 0 0

pub find_user_space_pages : Vmm → ℕ → ℕ → ℕ
find_user_space_pages s base page_amt =
    find_user_space_pages_by_pdir s s.cur_directory base page_amt

abbrev pub user_space : ℕ
user_space = 0xA0000000

-- The second loop of `allocate_user_space_pages`, with `left` pages to go.
pub alloc_run : ℕ → Vmm → ℕ → ℕ → Vmm
alloc_run zero s pdir loc = s
alloc_run (suc left) s pdir loc = alloc_run left (Vmm.alloc_virt s pdir loc 6 6) pdir (loc + 4096)

pub allocate_user_space_pages : Vmm → ℕ → ℕ × Vmm
allocate_user_space_pages s page_amt =
    let pdir = s.cur_directory in
    let loc = find_user_space_pages_by_pdir s pdir user_space page_amt in
    (loc, if loc == 0 then s else alloc_run page_amt s pdir loc)

module _ (present : ℕ → Bool) (base amt : ℕ) where
  -- The `amt` pages from page `k` on are not mapped.
  abbrev pub IsFreeRun : ℕ → Type 0
  IsFreeRun k = (j : ℕ) → j < amt → present (base + (k + j) * 4096) ≡ false

  -- What the search among the first `n` pages returns.
  abbrev pub SearchLaw : ℕ → ℕ → Type 0
  SearchLaw n r =
      ((r ≡ 0) × ((k : ℕ) → k + amt ≤ n → ¬ IsFreeRun k))
      ⊎ ((k : ℕ) × (r ≡ base + k * 4096)
          × (k + amt ≤ n)
          × IsFreeRun k
          × ((l : ℕ) → l < k → ¬ IsFreeRun l))

  find_from_lem :
      (left i count loc : ℕ)
      → count < amt
      → count ≤ i
      → (0 < count → loc ≡ base + (i - count) * 4096)
      → ((j : ℕ) → j < count → present (base + (i - count + j) * 4096) ≡ false)
      → ((l : ℕ) → l < i - count → ¬ IsFreeRun l)
      → SearchLaw (i + left) (find_from present base amt left i count loc)
  unfolding find_from
  find_from_lem zero i count loc hc hi hl run low = inl (refl, λ k h w. low k (omega arith) w)
  find_from_lem (suc left) i count loc hc hi hl run low =
      elim (Bool-cases (present (base + i * 4096))) [
        | inl e ↦
            let none_yet : (0 == amt) ≡ false = ground arith in
            let low' : (l : ℕ) → l < suc i → ¬ IsFreeRun l = λ l h w.
              elim (Bool-cases (ltb l (i - count))) [
                | inl f ↦ low l (ground arith) w
                | inr f ↦
                    let at : l + (i - l) ≡ i = omega arith in
                    let free : present (base + i * 4096) ≡ false =
                      ap (λ (k : ℕ). present (base + k * 4096)) (sym at)
                      ∙ w (i - l) (ground arith) in
                    cc
              ] in
            let ih =
              find_from_lem left (suc i) 0 loc (omega arith) (omega arith)
                (λ h. absurd (omega arith)) (λ j h. absurd (omega arith))
                (λ l h. low' l (omega arith)) in
            let shift : suc i + left ≡ i + suc left = omega arith in rw (e, none_yet, sym shift) ih
        | inr e ↦
            let run' : (j : ℕ) → j < suc count → present (base + (i - count + j) * 4096) ≡ false =
              λ j h. elim (Bool-cases (j == count)) [
                | inl f ↦
                    let at : i - count + j ≡ i = ground arith in
                    ap (λ (k : ℕ). present (base + k * 4096)) at ∙ e
                | inr f ↦ run j (ground arith)
              ] in
            let loc' = if count == 0 then base + i * 4096 else loc in
            let place : loc' ≡ base + (i - count) * 4096 = elim (Bool-cases (count == 0)) [
              | inl f ↦ let at : i - count ≡ i = ground arith in rw (f, at) refl
              | inr f ↦ rw f (hl (ground arith))
            ] in
            elim (Bool-cases (suc count == amt)) [
              | inl f ↦
                  let all : suc count ≡ amt = (==_iff (suc count) amt).0 f in
                  rw (e, f)
                    (inr (
                      i - count,
                      place,
                      omega (arith, all),
                      λ j h. run' j (omega (arith, all)),
                      low,
                    ))
              | inr f ↦
                  let same : suc i - suc count ≡ i - count = omega arith in
                  let ih =
                    find_from_lem left (suc i) (suc count) loc' (ground arith) (omega arith)
                      (λ h. place ∙ ap (λ (k : ℕ). base + k * 4096) (sym same))
                      (λ j h. ap (λ (k : ℕ). present (base + (k + j) * 4096)) same ∙ run' j h)
                      (λ l h. low l (omega arith)) in
                  let shift : suc i + left ≡ i + suc left = omega arith in rw (e, f, sym shift) ih
            ]
      ]

-- For a number of pages that is not 0, `find_user_space_pages_by_pdir` either returns null, and no run
-- of so many unmapped pages lies between the base and 0xC0000000, or returns the start of the lowest
-- such run.
pub find_user_space_pages-SearchLaw :
    (s : Vmm) (pdir base page_amt : ℕ)
    → 0 < page_amt
    → SearchLaw
        (Vmm.check_virt_present s pdir)
        base
        page_amt
        (pages_above base)
        (find_user_space_pages_by_pdir s pdir base page_amt)
unfolding find_user_space_pages_by_pdir
find_user_space_pages-SearchLaw s pdir base page_amt h =
    let law =
      find_from_lem (Vmm.check_virt_present s pdir) base page_amt (pages_above base) 0 0 0 h
        (omega arith) (λ l. absurd (omega arith)) (λ j l. absurd (omega arith))
        (λ l k. absurd (omega arith)) in
    let all : 0 + pages_above base ≡ pages_above base = omega arith in
    subst
      (λ n.
        SearchLaw (Vmm.check_virt_present s pdir) base page_amt n
          (find_from (Vmm.check_virt_present s pdir) base page_amt (pages_above base) 0 0 0))
      all law
