-- ===== src/Process/Files.antt =====
-- The open files of a process as a finite map from descriptors to files, and what closing one does.
use osdev_graphical.Base.{
  ℕ, ◌+◌, ◌-◌, ◌%◌, ◌^◌, ◌≤◌, ◌<◌, ◌≡◌, ◌≢◌, refl, arith, sym, ap, Bool-cases, ==_iff, inl, inr,
  true, false, Option, none, some, List, [], ◌∷◌, ◌++◌, if◌then◌else◌, ◌==◌, leb,
}
use osdev_graphical.Vfs.{File}
use osdev_graphical.Process.{
  FileDesc, Process, find_file, set_file, next_fd, get_file_by_fd, append_fd_to_process, close_from,
  close_list,
}

-- Every descriptor number is less than `n`.
abbrev pub Below : ℕ → List FileDesc → Type 0
Below n [] = 0 < n
Below n (d ∷ ds) = (d.fd < n) × Below n ds

abbrev pub count_fd : ℕ → List FileDesc → ℕ
count_fd x [] = 0
count_fd x (d ∷ ds) = (if d.fd == x then 1 else 0) + count_fd x ds

-- No two descriptors have the same number.
abbrev pub Unique : List FileDesc → Type 0
Unique ds = (x : ℕ) → count_fd x ds ≤ 1

next_fd-above :
    (fd : ℕ) (ds : List FileDesc) (x : ℕ)
    → Below (2 ^ 32 - 1) ds
    → (fd ≤ next_fd fd ds) × (next_fd fd ds ≤ x → count_fd x ds ≡ 0)
unfolding next_fd
next_fd-above fd [] x b = (omega arith, λ h. refl)
next_fd-above fd (d ∷ ds) x (b, bs) =
    let r = next_fd-above (if leb fd d.fd then (d.fd + 1) % 2 ^ 32 else fd) ds x bs in
    (ground (arith, r.0), λ h. ground (arith, r.0, r.1))

find-absent : (ds : List FileDesc) (x : ℕ) → count_fd x ds ≡ 0 → find_file ds x ≡ none
unfolding find_file
find-absent [] x h = refl
find-absent (d ∷ ds) x h = elim (Bool-cases (d.fd == x)) [
  | inl e ↦ (let z : 1 + count_fd x ds ≡ 0 = rw e at h in absurd (omega arith))
  | inr e ↦ let z : 0 + count_fd x ds ≡ 0 = rw e at h in rw e (find-absent ds x (omega (arith, z)))
]

find-append :
    (ds : List FileDesc) (f : File) (n x : ℕ)
    → count_fd n ds ≡ 0
    → find_file (ds ++ (record { file = f; fd = n } ∷ [])) x
      ≡ (if n == x then some f else find_file ds x)
unfolding find_file
find-append [] f n x h = refl
find-append (d ∷ ds) f n x h = elim (Bool-cases (d.fd == n)) [
  | inl e ↦ (let z : 1 + count_fd n ds ≡ 0 = rw e at h in absurd (omega arith))
  | inr e ↦
      let z : 0 + count_fd n ds ≡ 0 = rw e at h in
      let ih = find-append ds f n x (omega (arith, z)) in
      elim (Bool-cases (d.fd == x)) [
        | inl k ↦ let other : (n == x) ≡ false = ground arith in simp (k, other)
        | inr k ↦ simp (k, ih)
      ]
]

pub find-set :
    (ds : List FileDesc) (n x : ℕ) (f g : File)
    → find_file ds n ≡ some f
    → find_file (set_file ds n g) x ≡ (if n == x then some g else find_file ds x)
unfolding find_file set_file
find-set [] n x f g h = cc
find-set (d ∷ ds) n x f g h = elim (Bool-cases (d.fd == n)) [
  | inl e ↦
      let same : d.fd ≡ n = (==_iff d.fd n).0 e in
      elim (Bool-cases (n == x)) [
        | inl k ↦ let here : (d.fd == x) ≡ true = ground arith in simp (e, k, here)
        | inr k ↦ let other : (d.fd == x) ≡ false = ground arith in simp (e, k, other)
      ]
  | inr e ↦
      let h' : find_file ds n ≡ some f = rw e at h in
      let ih = find-set ds n x f g h' in
      elim (Bool-cases (d.fd == x)) [
        | inl k ↦ let other : (n == x) ≡ false = ground arith in simp (e, k, other)
        | inr k ↦ simp (e, k, ih)
      ]
]

close-find :
    (ds : List FileDesc) (n x : ℕ)
    → Unique ds
    → ((close_from ds n).0 ≡ find_file ds n)
      × (find_file (close_from ds n).1 x ≡ (if n == x then none else find_file ds x))
unfolding find_file close_from
close-find [] n x u = (refl, ground arith)
close-find (d ∷ ds) n x u = elim (Bool-cases (d.fd == n)) [
  | inl e ↦
      let once : 1 + count_fd n ds ≤ 1 = (let k = u n in rw e at k) in
      let gone = find-absent ds n (omega (arith, once)) in
      (
        simp e,
        elim (Bool-cases (n == x)) [
          | inl k ↦
              let same : n ≡ x = (==_iff n x).0 k in simp (e, k, ap (find_file ds) (sym same), gone)
          | inr k ↦ let other : (d.fd == x) ≡ false = ground arith in simp (e, k, other)
        ],
      )
  | inr e ↦
      let ih = close-find ds n x (λ y. omega (arith, u y)) in
      (
        simp (e, ih.0),
        elim (Bool-cases (d.fd == x)) [
          | inl k ↦ let other : (n == x) ≡ false = ground arith in simp (e, k, other)
          | inr k ↦ simp (e, k, ih.1)
        ],
      )
]

close-absent : (ds : List FileDesc) (n : ℕ) → count_fd n ds ≡ 0 → close_from ds n ≡ (none, ds)
unfolding close_from
close-absent [] n h = refl
close-absent (d ∷ ds) n h = elim (Bool-cases (d.fd == n)) [
  | inl e ↦ (let z : 1 + count_fd n ds ≡ 0 = rw e at h in absurd (omega arith))
  | inr e ↦
      let z : 0 + count_fd n ds ≡ 0 = rw e at h in
      let ih = close-absent ds n (omega (arith, z)) in simp (e, ih)
]

-- When the process's descriptors are below 2³² - 1, the number that a file is appended under is not 0
-- and was not in use; afterwards it finds that file, and every other number what it found before.
pub append_fd-find :
    (proc : Process) (f : File) (x : ℕ)
    → Below (2 ^ 32 - 1) proc.file_descs
    → let out = append_fd_to_process (some proc) f in
      (1 ≤ out.0)
      × (get_file_by_fd (some proc) out.0 ≡ none)
      × (get_file_by_fd out.1 x ≡ (if out.0 == x then some f else get_file_by_fd (some proc) x))
unfolding append_fd_to_process get_file_by_fd
append_fd-find proc f x b =
    let n = next_fd 1 proc.file_descs in
    let fresh = (next_fd-above 1 proc.file_descs n b).1 (omega arith) in
    (
      (next_fd-above 1 proc.file_descs n b).0,
      find-absent proc.file_descs n fresh,
      find-append proc.file_descs f n x fresh,
    )

-- In a list of two descriptors or more with different numbers: the first one cannot be closed, which
-- leaves the list as it is and closes no file; any other number `n` closes the file it finds, if any,
-- after which it finds nothing, and every other number finds what it found before.
pub close_list-first :
    (d e : FileDesc) (ds : List FileDesc) (n x : ℕ)
    → Unique (d ∷ e ∷ ds)
    → (d.fd ≢ n)
    → (close_list (d ∷ e ∷ ds) d.fd ≡ some (none, d ∷ e ∷ ds))
      × (close_list (d ∷ e ∷ ds) n ≡ some (find_file (d ∷ e ∷ ds) n, d ∷ (close_from (e ∷ ds) n).1))
      × (find_file (d ∷ (close_from (e ∷ ds) n).1) x
          ≡ (if n == x then none else find_file (d ∷ e ∷ ds) x))
unfolding close_list find_file
close_list-first d e ds n x u ne =
    let once : 1 + count_fd d.fd (e ∷ ds) ≤ 1 =
      (let k = u d.fd in rw ((==_iff d.fd d.fd).1 refl) at k) in
    let stays = close-absent (e ∷ ds) d.fd (omega (arith, once)) in
    let other : (d.fd == n) ≡ false = ground arith in
    let closed = close-find (e ∷ ds) n x (λ y. omega (arith, u y)) in
    (
      ap (λ (p : Option File × List FileDesc). some (p.0, d ∷ p.1)) stays,
      rw closed.0 (rw other refl),
      elim (Bool-cases (d.fd == x)) [
        | inl k ↦ let apart : (n == x) ≡ false = ground arith in simp (k, apart)
        | inr k ↦ simp (k, closed.1)
      ],
    )
