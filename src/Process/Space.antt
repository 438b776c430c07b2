-- ===== src/Process/Space.antt =====
-- The kernel's part of a process's address space, in kernel/process.c.
use osdev_graphical.Base.{
  ℕ, ◌+◌, ◌-◌, ◌*◌, ◌≤◌, ◌<◌, ◌≡◌, arith, ◌∙◌, sym, ap, Bool, Bool-cases, ◌⊎◌, inl, inr, false,
  ◌&&◌, ◌||◌, if◌then◌else◌, ltb, leb,
}
use osdev_graphical.Memory.{Words, memcpy, memset, load_byte}
use osdev_graphical.Memory.Copy.{CopyIsSafe, memcpy_lem}
use osdev_graphical.Vmm
use osdev_graphical.Vmm.{Vmm}

-- `memcpy` and `memset` of `n` entries from number `first` on.
pub copy_entries : Words → ℕ → ℕ → ℕ → ℕ → Words
copy_entries m out proc first n = memcpy m (out + 4 * first) (proc + 4 * first) (n * 4)

pub clear_entries : Words → ℕ → ℕ → ℕ → Words
clear_entries m out first n = memset m (out + 4 * first) 0 (n * 4)

-- `page_tables_to_copy` for a screen of 1280 by 1024 pixels: 3.75, rounded up.
abbrev pub screen_tables : ℕ
screen_tables = 4

pub clone_kernel_space : Vmm → ℕ → Vmm
clone_kernel_space s out =
    let m1 = copy_entries s.memory out s.cur_directory 768 4 in
    let m2 = copy_entries m1 out s.cur_directory 0 1 in
    record s { memory = copy_entries m2 out s.cur_directory 820 screen_tables }

pub clone_kernel_stacks : Vmm → ℕ → Vmm
clone_kernel_stacks s out = record s { memory = copy_entries s.memory out s.cur_directory 896 128 }

pub clear_kernel_space : Vmm → ℕ → Vmm
clear_kernel_space s out =
    let m1 = clear_entries s.memory out 820 screen_tables in
    let m2 = clear_entries m1 out 768 4 in record s { memory = clear_entries m2 out 0 1 }

pub clear_kernel_stacks : Vmm → ℕ → Vmm
clear_kernel_stacks s out = record s { memory = clear_entries s.memory out 896 128 }

-- The directory may be null, which is not tested.
pub create_address_space : Vmm → ℕ × Vmm
create_address_space s = let (space, s') = Vmm.create_pdir s in (space, clone_kernel_space s' space)

-- Two pages that do not overlap.
abbrev pub AreApart : ℕ → ℕ → Type 0
AreApart a b = (a + 4096 ≤ b) ⊎ (b + 4096 ≤ a)

-- A copy of the bytes from `lo` to `hi` of page `proc` to page `out`.
abbrev IsCopied : Words → Words → ℕ → ℕ → ℕ → ℕ → Type 0
IsCopied m m' out proc lo hi =
    ((a : ℕ)
      → a < 4096
      → load_byte m' (out + a)
        ≡ (if leb lo a && ltb a hi then load_byte m (proc + a) else load_byte m (out + a)))
    × ((a : ℕ) → (a < out) ⊎ (out + 4096 ≤ a) → load_byte m' a ≡ load_byte m a)

copy_entries_lem :
    (m : Words) (out proc first n : ℕ)
    → AreApart out proc
    → first + n ≤ 1024
    → IsCopied m (copy_entries m out proc first n) out proc (4 * first) (4 * first + n * 4)
unfolding copy_entries
copy_entries_lem m out proc first n apart h =
    let safe : CopyIsSafe (out + 4 * first) (proc + 4 * first) (n * 4) = elim apart [
      | inl p ↦ inl (omega arith)
      | inr p ↦ inr (omega arith)
    ] in
    let (inside, outside) = memcpy_lem m (out + 4 * first) (proc + 4 * first) (n * 4) safe in
    (
      λ a l. elim (Bool-cases (leb (4 * first) a && ltb a (4 * first + n * 4))) [
        | inl e ↦
            let k : out + 4 * first + (a - 4 * first) ≡ out + a = ground arith in
            let k' : proc + 4 * first + (a - 4 * first) ≡ proc + a = ground arith in
            rw e (
              ap (load_byte (memcpy m (out + 4 * first) (proc + 4 * first) (n * 4))) (sym k)
              ∙ inside (a - 4 * first) (ground arith)
              ∙ ap (load_byte m) k')
        | inr e ↦ rw e (outside (out + a) (beside a first n e))
      ],
      λ a l. outside a (elim l [ inl p ↦ inl (omega arith) | inr p ↦ inr (omega arith) ]),
    )
  where
    beside :
        (x f k : ℕ)
        → (leb (4 * f) x && ltb x (4 * f + k * 4)) ≡ false
        → (out + x < out + 4 * f) ⊎ (out + 4 * f + k * 4 ≤ out + x)
    beside x f k e = elim (Bool-cases (ltb x (4 * f))) [
      | inl g ↦ inl (ground arith)
      | inr g ↦ inr (ground arith)
    ]

-- The bytes of the entries 0, 768 to 771 and 820 to 823.
abbrev pub is_shared : ℕ → Bool
is_shared a = ltb a 4 || (leb 3072 a && ltb a 3088) || (leb 3280 a && ltb a 3296)

-- When the new directory and the current one are pages apart, `clone_kernel_space` makes the entries of
-- the first 4 MiB, of the kernel and of the screen those of the current directory, and changes no
-- other byte of memory.
pub clone_kernel_space_lem :
    (s : Vmm) (out : ℕ)
    → AreApart out s.cur_directory
    → let m' = (clone_kernel_space s out).memory in
      ((a : ℕ)
        → a < 4096
        → load_byte m' (out + a) ≡ (
            if is_shared a
            then load_byte s.memory (s.cur_directory + a)
            else load_byte s.memory (out + a)))
      × ((a : ℕ) → (a < out) ⊎ (out + 4096 ≤ a) → load_byte m' a ≡ load_byte s.memory a)
unfolding clone_kernel_space
clone_kernel_space_lem s out apart =
    let proc = s.cur_directory in
    let m = s.memory in
    let m1 = copy_entries m out proc 768 4 in
    let m2 = copy_entries m1 out proc 0 1 in
    let c1 = copy_entries_lem m out proc 768 4 apart (omega arith) in
    let c2 = copy_entries_lem m1 out proc 0 1 apart (omega arith) in
    let c3 = copy_entries_lem m2 out proc 820 4 apart (omega arith) in
    (
      λ a l.
          let away : (proc + a < out) ⊎ (out + 4096 ≤ proc + a) = elim apart [
            | inl p ↦ inr (omega arith)
            | inr p ↦ inl (omega arith)
          ] in
          ground (arith, c1.0 a l, c2.0 a l, c3.0 a l, c1.1 (proc + a) away, c2.1 (proc + a) away),
      λ a l. c3.1 a l ∙ c2.1 a l ∙ c1.1 a l,
    )
