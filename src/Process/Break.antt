-- ===== src/Process/Break.antt =====
-- `inc_proc_brk`: the loop ends, and which pages it asks for.
use osdev_graphical.Base.{
  ℕ, zero, suc, ◌+◌, ◌-◌, ◌*◌, ◌/◌, ◌%◌, ◌^◌, ◌≤◌, ◌<◌, ◌≡◌, ◌≢◌, refl, ap, arith, Bool-cases, inl,
  inr, true, false, Option, some, if◌then◌else◌, ◌==◌, ltb, leb, ◌||◌,
}
use osdev_graphical.Vmm
use osdev_graphical.Vmm.{Vmm}
use osdev_graphical.Process.{Process, alloc_pages, sbrk_lim, page_fuel, inc_proc_brk}

-- `n` pages from `page` on, for the current directory, writable and open to the user.
abbrev pub grow : ℕ → Vmm → ℕ → Vmm
grow zero s page = s
grow (suc n) s page = grow n (Vmm.alloc_virt s s.cur_directory page 6 6) (page + 4096)

-- How many pages, counted from that of `old`, reach up to `brk`.
abbrev pub pages_between : ℕ → ℕ → ℕ
pages_between old brk = (brk + 4095) / 4096 - old / 4096

alloc_pages-grow :
    (n fuel : ℕ) (s : Vmm) (page brk : ℕ)
    → brk ≤ page + 4096 * n
    → page + 4096 * n < brk + 4096
    → brk ≤ 2 ^ 32 - 4096
    → n ≤ fuel
    → alloc_pages fuel s page brk ≡ some (grow n s page)
unfolding alloc_pages
alloc_pages-grow zero zero s page brk h1 h2 h3 h4 = ground arith
alloc_pages-grow zero (suc fuel) s page brk h1 h2 h3 h4 = ground arith
alloc_pages-grow (suc n) zero s page brk h1 h2 h3 h4 = absurd (omega arith)
alloc_pages-grow (suc n) (suc fuel) s page brk h1 h2 h3 h4 =
    let more : ltb page brk ≡ true = ground arith in
    let next : (page + 4096) % 2 ^ 32 ≡ page + 4096 = omega arith in
    let ih =
      alloc_pages-grow n fuel (Vmm.alloc_virt s s.cur_directory page 6 6) (page + 4096) brk
        (omega arith) (omega arith) h3 (omega arith) in
    rw (more, next, ih) refl

-- For a process with a break that is not 0, when neither the new break nor the end of the process's
-- room goes beyond 2³² - 4096: a new break beyond that room changes nothing and the result is 0;
-- otherwise the call returns the old break, the process gets the new one, and the pages from that of
-- the old break up to the new one are asked for, unless the old break lies inside a page and the new
-- one before that page's end.
pub inc_proc_brk-returns :
    (proc : Process) (s : Vmm) (inc : ℕ)
    → proc.brk ≢ 0
    → proc.brk + inc ≤ 2 ^ 32 - 4096
    → proc.image_base + proc.image_size + sbrk_lim < 2 ^ 32
    → let old = proc.brk in
      inc_proc_brk (some proc) s inc ≡ (
        if ltb (proc.image_base + proc.image_size + sbrk_lim) (old + inc)
        then some (0, (some proc, s))
        else some (
          old,
          (
            some (record proc { brk = old + inc }),
            if leb 4096 (old % 4096 + inc) || (old % 4096 == 0)
                then grow (pages_between old (old + inc)) s (old - old % 4096)
                else s,
          ),
        ))
unfolding inc_proc_brk
inc_proc_brk-returns proc s inc h0 h1 h2 =
    let old = proc.brk in
    let e1 : (old + inc) % 2 ^ 32 ≡ old + inc = omega arith in
    let e2 : (old % 4096 + inc) % 2 ^ 32 ≡ old % 4096 + inc = omega arith in
    let e3 : (proc.image_base + proc.image_size + sbrk_lim) % 2 ^ 32
        ≡ proc.image_base + proc.image_size + sbrk_lim =
      omega arith in
    let e4 : (old == 0) ≡ false = ground arith in
    let loop =
      alloc_pages-grow (pages_between old (old + inc)) page_fuel s (old - old % 4096) (old + inc)
        (omega arith) (omega arith) h1 (omega arith) in
    let result : ℕ → Vmm → Option (ℕ × (Option Process × Vmm)) =
      λ b s'. some (old, (some (record proc { brk = b }), s')) in
    rw (e4, e1, e2, e3, loop)
      (elim (Bool-cases (ltb (proc.image_base + proc.image_size + sbrk_lim) (old + inc))) [
        | inl k ↦ rw k refl
        | inr k ↦ rw k (elim (Bool-cases (leb 4096 (old % 4096 + inc) || (old % 4096 == 0))) [
          | inl m ↦ rw m (
              ap (λ (b : ℕ). result b (grow (pages_between old (old + inc)) s (old - old % 4096)))
                e1)
          | inr m ↦ rw m refl
        ])
      ])
