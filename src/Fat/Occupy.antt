-- ===== src/Fat/Occupy.antt =====
-- A free entry is taken, the first one, and put at the end of a chain.
use osdev_graphical.Base.{
  ℕ, zero, suc, ◌+◌, ◌-◌, ◌≤◌, ◌<◌, ◌≡◌, ◌≢◌, refl, arith, ◌∙◌, sym, ap, Bool-cases, ◌⊎◌, inl, inr,
  true, false, if◌then◌else◌, ◌==◌, ==_iff,
}
use osdev_graphical.Fat.{
  Disk, fat_entry, set_entry, last_entry, end_of_file, find_free, occupy_free_cluster,
}
use osdev_graphical.Fat.Place.{IsBytes}
use osdev_graphical.Fat.Entries.{set_entry-entry}

-- No entry from `c` on and before `n` is free.
abbrev pub NoneFree : Disk → ℕ → ℕ → Type 0
NoneFree d c n = (k : ℕ) → c ≤ k → k < n → fat_entry d k ≢ 0

-- `c` is the first free entry from 2 on.
abbrev pub FirstFree : Disk → ℕ → Type 0
FirstFree d c = (2 ≤ c) × (c < last_entry) × (fat_entry d c ≡ 0) × NoneFree d 2 c

find_free_lem :
    (left : ℕ) (d : Disk) (c : ℕ)
    → let r = find_free left d c in
      (c ≤ r.0)
      × NoneFree d c r.0
      × (((r.0 ≡ c + left) × (r.1 ≡ d))
          ⊎ ((r.0 < c + left) × (fat_entry d r.0 ≡ 0) × (r.1 ≡ set_entry d r.0 end_of_file)))
unfolding find_free
find_free_lem zero d c = (omega arith, λ k a b. absurd (omega arith), inl (omega arith, refl))
find_free_lem (suc left) d c = elim (Bool-cases (fat_entry d c == 0)) [
  | inl e ↦ rw e (
    omega arith,
    λ k a b. absurd (omega arith),
    inr (omega arith, (==_iff (fat_entry d c) 0).0 e, refl),
  )
  | inr e ↦
      let ih = find_free_lem left d (suc c) in
      rw e (
        omega (arith, ih.0),
        λ k a b. elim (Bool-cases (k == c)) [
          | inl f ↦ λ z.
              (let q : fat_entry d c ≡ 0 = ap (fat_entry d) (sym ((==_iff k c).0 f)) ∙ z in
                ground arith)
          | inr f ↦ ih.1 k (ground arith) b
        ],
        elim ih.2 [
          | inl p ↦ inl (omega (arith, p.0), p.1)
          | inr p ↦ inr (omega (arith, p.0), p.1, p.2)
        ],
      )
]

-- The two entries that are written.
both :
    (d : Disk) (c chain : ℕ)
    → IsBytes d
    → c < last_entry
    → chain ≢ c
    → let d' = set_entry (set_entry d c end_of_file) chain c in
      ((n : ℕ)
        → fat_entry d' n
          ≡ (if n == chain then c else (if n == c then end_of_file else fat_entry d n)))
      × IsBytes d'
both d c chain b h ne =
    let one = λ (n : ℕ). set_entry-entry d c end_of_file n b (omega arith) in
    let d1 = set_entry d c end_of_file in
    let two = λ (n : ℕ). set_entry-entry d1 chain c n (one 0).1 (omega arith) in
    (λ n. (two n).0 ∙ rw ((one n).0) refl, (two 0).1)

-- On a disk of bytes, for a chain whose last entry is not 0 and not free: when no entry from 2 on is
-- free the result is 0xff0 and the disk is as it was; otherwise the result is the first free entry,
-- which then marks the end of a file, the chain's entry leads to it, every other entry reads what it
-- read before, and the disk is still one of bytes.
pub occupy-first :
    (d : Disk) (chain : ℕ)
    → IsBytes d
    → chain ≢ 0
    → fat_entry d chain ≢ 0
    → let r = occupy_free_cluster d chain in
      ((r.0 ≡ last_entry) × (r.1 ≡ d) × NoneFree d 2 last_entry)
      ⊎ (FirstFree d r.0
          × ((n : ℕ)
              → fat_entry r.1 n
                ≡ (if n == chain then r.0 else (if n == r.0 then end_of_file else fat_entry d n)))
          × IsBytes r.1)
unfolding occupy_free_cluster
occupy-first d chain b h0 hc =
    let f = find_free (last_entry - 2) d 2 in
    let scan = find_free_lem (last_entry - 2) d 2 in
    let chained : (chain == 0) ≡ false = ground arith in
    elim scan.2 [
      | inl p ↦
          let full : (f.0 == last_entry) ≡ true = ground (arith, p.0) in
          inl (
            rw (occupy_free_cluster, chained, full)
              (p.0, p.1, λ k x y. scan.1 k x (omega (arith, p.0))))
      | inr p ↦
          let found : (f.0 == last_entry) ≡ false = ground (arith, p.0) in
          let written : ((n : ℕ)
                → fat_entry (set_entry f.1 chain f.0) n
                  ≡ (if n == chain then f.0 else (if n == f.0 then end_of_file else fat_entry d n)))
              × IsBytes (set_entry f.1 chain f.0) =
            rw p.2 (both d f.0 chain b p.0 (λ e. hc (ap (fat_entry d) e ∙ p.1))) in
          inr (
            rw (occupy_free_cluster, chained, found)
              ((scan.0, p.0, p.1, scan.1), written.0, written.1))
    ]
