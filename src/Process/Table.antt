-- ===== src/Process/Table.antt =====
-- The list of processes as a finite map from identifiers to processes.
use osdev_graphical.Base.{
  ℕ, suc, ◌+◌, ◌-◌, ◌%◌, ◌^◌, ◌<◌, true, ◌≤◌, ◌≡◌, refl, arith, sym, ap, Bool-cases, ==_iff, inl,
  inr, false, Option, none, some, List, [], ◌∷◌, if◌then◌else◌, ◌==◌, leb,
}
use osdev_graphical.Process.{
  Process, int_ge, remove_from, remove_process_from_list, get_process_by_id, free_id_from,
  get_free_id, insert_process,
}

abbrev pub count_id : ℕ → List Process → ℕ
count_id i [] = 0
count_id i (p ∷ ps) = (if p.id == i then 1 else 0) + count_id i ps

-- No two processes have the same identifier.
abbrev pub Unique : List Process → Type 0
Unique ps = (i : ℕ) → count_id i ps ≤ 1

-- What a finite map answers at `j` after the value at `i` is made `v`.
abbrev pub updated : ℕ → Option Process → (ℕ → Option Process) → ℕ → Option Process
updated i v m j = if i == j then v else m j

-- No process has the highest `int` as its identifier, or a negative one.
abbrev pub HasRoom : List Process → Type 0
HasRoom ps = (i : ℕ) → 1 ≤ count_id i ps → i < 2 ^ 31 - 1

free_id_from-above :
    (id : ℕ) (ps : List Process) (i : ℕ)
    → id < 2 ^ 31
    → HasRoom ps
    → (id ≤ free_id_from id ps) × (free_id_from id ps ≤ i → count_id i ps ≡ 0)
unfolding free_id_from
free_id_from-above id [] i low room = (omega arith, λ h. refl)
free_id_from-above id (p ∷ ps) i low room =
    let self : (p.id == p.id) ≡ true = ground arith in
    let short : p.id < 2 ^ 31 - 1 = room p.id (rw self (omega arith)) in
    let behind : HasRoom ps = λ j l. room j (omega (arith, l)) in
    elim (Bool-cases (leb id p.id)) [
      | inl t ↦
          let taken : int_ge p.id id ≡ true = ground (arith, low) in
          let higher : (p.id + 1) % 2 ^ 32 ≡ suc p.id = omega arith in
          let r = free_id_from-above (suc p.id) ps i (omega (arith, short)) behind in
          rw (taken, higher) (ground (arith, r.0), λ h. ground (arith, r.0, r.1))
      | inr f ↦
          let kept : int_ge p.id id ≡ false = ground (arith, low) in
          let r = free_id_from-above id ps i low behind in
          rw kept (ground (arith, r.0), λ h. ground (arith, r.0, r.1))
    ]

get-absent : (ps : List Process) (i : ℕ) → count_id i ps ≡ 0 → get_process_by_id ps i ≡ none
unfolding get_process_by_id
get-absent [] i h = refl
get-absent (p ∷ ps) i h = elim (Bool-cases (p.id == i)) [
  | inl e ↦ (let z : 1 + count_id i ps ≡ 0 = rw e at h in absurd (omega arith))
  | inr e ↦ (let z : 0 + count_id i ps ≡ 0 = rw e at h in rw e (get-absent ps i (omega (arith, z))))
]

get-insert :
    (ps : List Process) (p : Process) (j : ℕ)
    → count_id p.id ps ≡ 0
    → get_process_by_id (insert_process ps p) j ≡ updated p.id (some p) (get_process_by_id ps) j
unfolding get_process_by_id insert_process
get-insert [] p j h = refl
get-insert (q ∷ ps) p j h = elim (Bool-cases (q.id == p.id)) [
  | inl e ↦ (let z : 1 + count_id p.id ps ≡ 0 = rw e at h in absurd (omega arith))
  | inr e ↦
      let z : 0 + count_id p.id ps ≡ 0 = rw e at h in
      let ih = get-insert ps p j (omega (arith, z)) in
      elim (Bool-cases (q.id == j)) [
        | inl k ↦ let other : (p.id == j) ≡ false = ground arith in simp (k, other)
        | inr k ↦ simp (k, ih)
      ]
]

get-remove :
    (ps : List Process) (i j : ℕ)
    → Unique ps
    → get_process_by_id (remove_from ps i) j ≡ updated i none (get_process_by_id ps) j
unfolding get_process_by_id remove_from
get-remove [] i j u = ground arith
get-remove (p ∷ ps) i j u = elim (Bool-cases (p.id == i)) [
  | inl e ↦
      let once : 1 + count_id i ps ≤ 1 = (let k = u i in rw e at k) in
      elim (Bool-cases (i == j)) [
        | inl k ↦
            let same : i ≡ j = (==_iff i j).0 k in
            simp (e, k, ap (get_process_by_id ps) (sym same), get-absent ps i (omega arith))
        | inr k ↦ let other : (p.id == j) ≡ false = ground arith in simp (e, k, other)
      ]
  | inr e ↦
      let ih = get-remove ps i j (λ n. omega (arith, u n)) in
      elim (Bool-cases (p.id == j)) [
        | inl k ↦ let other : (i == j) ≡ false = ground arith in simp (e, k, other)
        | inr k ↦ simp (e, k, ih)
      ]
]

remove-list :
    (p : Process) (ps : List Process) (i : ℕ)
    → remove_process_from_list (p ∷ ps) i ≡ some (remove_from (p ∷ ps) i)
unfolding remove_process_from_list remove_from
remove-list p [] i = refl
remove-list p (q ∷ ps) i = refl

-- In a list of processes whose identifiers differ, and are below the highest `int`, the identifier that
-- is given out belongs to no process; a process that is inserted with it is found under it, and every other identifier finds what
-- it found before; and, unless the list is empty, removing an identifier makes that one find nothing
-- and leaves what the others find.
pub table-refines :
    (p q : Process) (ps : List Process) (i j : ℕ)
    → Unique (q ∷ ps)
    → HasRoom (q ∷ ps)
    → p.id ≡ get_free_id (q ∷ ps)
    → (get_process_by_id (q ∷ ps) p.id ≡ none)
      × (get_process_by_id (insert_process (q ∷ ps) p) j
          ≡ updated p.id (some p) (get_process_by_id (q ∷ ps)) j)
      × (remove_process_from_list (q ∷ ps) i ≡ some (remove_from (q ∷ ps) i))
      × (get_process_by_id (remove_from (q ∷ ps) i) j
          ≡ updated i none (get_process_by_id (q ∷ ps)) j)
unfolding get_free_id
table-refines p q ps i j u room h =
    let fresh = (free_id_from-above 1 (q ∷ ps) p.id (omega arith) room).1 (omega (arith, h)) in
    (
      get-absent (q ∷ ps) p.id fresh,
      get-insert (q ∷ ps) p j fresh,
      remove-list q ps i,
      get-remove (q ∷ ps) i j u,
    )
