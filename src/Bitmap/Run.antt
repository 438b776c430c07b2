-- ===== src/Bitmap/Run.antt =====
-- `mmap_first_free_s` finds the lowest run of free blocks of the length asked for.
use osdev_graphical.Base.{
  ℕ, zero, suc, ◌+◌, ◌-◌, ◌*◌, ◌/◌, ◌^◌, ◌≤◌, ◌<◌, bit_and, false, Option, none, some, ◌≡◌, ◌≢◌,
  ◌⊎◌, inl, inr, refl, arith, if◌then◌else◌, ◌==◌, ◌∙◌, Bool-cases, ==_iff,
}
use mathlib.Core.Path.{subst}
use osdev_graphical.Memory.{Words}
use osdev_graphical.Bitmap.{
  full_word, Scan, found, going, scan_word, scan_round, scan_from, first_free_s,
}
use osdev_graphical.Bitmap.Laws.{occ, clear_iff}
use osdev_graphical.Bitmap.First.{ℕ-split, set_iff, full-IsFullAt, occ_bit}

le-suc_cases : (a b : ℕ) → a ≤ suc b → (a ≤ b) ⊎ (a ≡ suc b)
le-suc_cases a b h = ground arith

module _ (o : ℕ → ℕ) (seq : ℕ) where
  -- Some block of the run from `g` is occupied.
  abbrev pub Blocked : ℕ → Type 0
  Blocked g = (b : ℕ) × (g ≤ b) × (b < g + seq) × (o b ≡ 1)

  -- The lowest free run that ends within the first `hi` blocks.
  pub record IsFirstRun (hi f : ℕ) : Type 0 where
    pub fits : f + seq ≤ hi
    pub clear : (b : ℕ) → f ≤ b → b < f + seq → o b ≡ 0
    pub lowest : (g : ℕ) → g < f → Blocked g

  -- The loop's variables before block `p`: `len` free blocks end there, and no run before.
  pub record IsScan (p len first : ℕ) : Type 0 where
    pub short : len < seq
    pub fits : len ≤ p
    pub start : (len ≡ 0) ⊎ (first + len ≡ p)
    pub clear : (b : ℕ) → p ≤ b + len → b < p → o b ≡ 0
    pub stop : (len ≡ p) ⊎ ((len < p) × (o (p - len - 1) ≡ 1))
    pub missed : (g : ℕ) → g + seq ≤ p → Blocked g

  abbrev pub ScanLaw : ℕ → Scan → Type 0
  ScanLaw hi (found f) = IsFirstRun hi f
  ScanLaw hi (going len first) = IsScan hi len first

  abbrev next_first : ℕ → ℕ → ℕ → ℕ
  next_first p len first = if len == 0 then p else first

  module _ {p len first : ℕ} (v : IsScan p len first) where
    missed-free : len + 1 < seq → (g : ℕ) → g + seq ≤ suc p → Blocked g
    missed-free h g le = elim v.stop [
      | inl e ↦ absurd (omega arith)
      | inr (l, e) ↦ elim (le-suc_cases (g + seq) p le) [
        | inl old ↦ v.missed g old
        | inr now ↦ (p - len - 1, omega arith, omega arith, e)
      ]
    ]

    next_first_lem : next_first p len first + len ≡ p
    next_first_lem = ground (arith, v.start)

    clear-suc : o p ≡ 0 → (b : ℕ) → suc p ≤ b + (len + 1) → b < suc p → o b ≡ 0
    clear-suc h b lo hi = elim (le-suc_cases (suc b) p hi) [
      | inl l ↦ v.clear b (omega arith) l
      | inr e ↦ let e' : b ≡ p = omega arith in rw e' h
    ]

    pub IsScan-free : o p ≡ 0 → len + 1 ≢ seq → IsScan (suc p) (len + 1) (next_first p len first)
    IsScan-free h ne = record {
      short = omega (arith, v.short);
      fits = omega (arith, v.fits);
      start = inr (omega (arith, next_first_lem));
      clear = clear-suc h;
      stop = elim v.stop [
        | inl e ↦ inl (omega arith)
        | inr (l, e) ↦
            inr (omega arith, (let q : suc p - (len + 1) - 1 ≡ p - len - 1 = omega arith in rw q e))
      ];
      missed = missed-free (omega (arith, v.short));
    }

    pub IsFirstRun-free :
        (hi : ℕ) → suc p ≤ hi → o p ≡ 0 → len + 1 ≡ seq → IsFirstRun hi (next_first p len first)
    IsFirstRun-free hi le h e = record {
      fits = omega (arith, next_first_lem);
      clear =
          λ b lo up. clear-suc h b (omega (arith, next_first_lem)) (omega (arith, next_first_lem));
      lowest = λ g l. v.missed g (omega (arith, next_first_lem));
    }

    -- A stretch of occupied blocks starts the count again.
    pub IsScan-occupied : (q : ℕ) → p < q → ((b : ℕ) → p ≤ b → b < q → o b ≡ 1) → IsScan q 0 first
    IsScan-occupied q l h = record {
      short = omega (arith, v.short);
      fits = omega arith;
      start = inl refl;
      clear = λ b lo up. absurd (omega arith);
      stop = inr (omega arith, h (q - 0 - 1) (omega arith) (omega arith));
      missed = λ g le. elim (ℕ-split p (g + seq)) [
        | inl past ↦ (
          g + seq - 1,
          omega (arith, v.short),
          omega (arith, v.short),
          h (g + seq - 1) (omega arith) (omega arith),
        )
        | inr old ↦ v.missed g old
      ];
    }

module _ (m : Words) (seq : ℕ) (i : ℕ) where
  scan_word-law :
      (left j len first : ℕ)
      → j + left ≡ 32
      → IsScan (occ m) seq (i * 32 + j) len first
      → ScanLaw (occ m) seq (suc i * 32) (scan_word seq i (m i) left j len first)
  unfolding scan_word
  scan_word-law zero j len first e v =
      let q : i * 32 + j ≡ suc i * 32 = omega arith in
      subst (λ (p : ℕ). IsScan (occ m) seq p len first) q v
  scan_word-law (suc left) j len first e v = elim (Bool-cases (bit_and (m i) (2 ^ j) == 0)) [
    | inl free ↦
        let o : occ m (i * 32 + j) ≡ 0 = occ_bit m i j (omega arith) ∙ (clear_iff (m i) j).0 free in
        elim (Bool-cases (len + 1 == seq)) [
          | inl done ↦
              rw (free, done)
                (IsFirstRun-free (occ m) seq v (suc i * 32) (omega arith) o
                  ((==_iff (len + 1) seq).0 done))
          | inr more ↦
              rw (free, more)
                (scan_word-law left (suc j) (len + 1) _ (omega arith)
                  (to_next (IsScan-free (occ m) seq v o (ground arith))))
        ]
    | inr taken ↦
        rw (taken, not_done v.short)
          (scan_word-law left (suc j) 0 first (omega arith) (
            to_next (
              IsScan-occupied (occ m) seq v (suc (i * 32 + j)) (omega arith) (λ b lo up.
                let q : b ≡ i * 32 + j = omega arith in
                rw q (occ_bit m i j (omega arith) ∙ (set_iff (m i) j).0 taken)))))
  ]
    where
      to_next :
          {k f : ℕ}
          → IsScan (occ m) seq (suc (i * 32 + j)) k f
          → IsScan (occ m) seq (i * 32 + suc j) k f
      to_next {k} {f} w =
          let q : suc (i * 32 + j) ≡ i * 32 + suc j = omega arith in
          subst (λ (p : ℕ). IsScan (occ m) seq p k f) q w

      not_done : {k : ℕ} → k < seq → (0 == seq) ≡ false
      not_done h = ground arith

  scan_round-law :
      (len first : ℕ)
      → IsScan (occ m) seq (i * 32) len first
      → ScanLaw (occ m) seq (suc i * 32) (scan_round seq m i len first)
  unfolding scan_round
  scan_round-law len first v = elim (Bool-cases (m i == full_word)) [
    | inl full ↦
        rw full (IsScan-occupied (occ m) seq v (suc i * 32) (omega arith) (full-IsFullAt m i full))
    | inr open_ ↦ rw open_ (
        scan_word-law 32 0 len first (omega arith) (
          let q : i * 32 ≡ i * 32 + 0 = omega arith in
          subst (λ (p : ℕ). IsScan (occ m) seq p len first) q v))
  ]

module _ (o : ℕ → ℕ) (seq hi : ℕ) where
  -- What a search among the first `hi` blocks says: the lowest free run, or that there is none.
  abbrev pub RunLaw : Option ℕ → Type 0
  RunLaw none = (g : ℕ) → g + seq ≤ hi → Blocked o seq g
  RunLaw (some f) = IsFirstRun o seq hi f

IsFirstRun-widen :
    {o : ℕ → ℕ} {seq lo hi f : ℕ} → lo ≤ hi → IsFirstRun o seq lo f → IsFirstRun o seq hi f
IsFirstRun-widen le r = record { fits = omega (arith, r.fits); clear = r.clear; lowest = r.lowest }

module _ (m : Words) (seq : ℕ) where
  after_round :
      (left i hi : ℕ) (r : Scan)
      → suc i * 32 ≤ hi
      → ScanLaw (occ m) seq (suc i * 32) r
      → ((len first : ℕ)
          → IsScan (occ m) seq (suc i * 32) len first
          → RunLaw (occ m) seq hi (scan_from seq m left (suc i) len first))
      → RunLaw (occ m) seq hi (elim r [
        | found f ↦ some f
        | going len' first' ↦ scan_from seq m left (suc i) len' first'
      ])
  after_round left i hi (found f) le law k = IsFirstRun-widen le law
  after_round left i hi (going len first) le law k = k len first law

  scan_from-law :
      (left i hi len first : ℕ)
      → (i + left) * 32 ≡ hi
      → IsScan (occ m) seq (i * 32) len first
      → RunLaw (occ m) seq hi (scan_from seq m left i len first)
  unfolding scan_from
  scan_from-law zero i hi len first e v = λ g le. v.missed g (omega arith)
  scan_from-law (suc left) i hi len first e v =
      after_round left i hi (scan_round seq m i len first) (omega arith)
        (scan_round-law m seq i len first v)
        (λ len' first' w. scan_from-law left (suc i) hi len' first' (omega arith) w)

  IsScan-start : 0 < seq → IsScan (occ m) seq 0 0 0
  IsScan-start h = record {
    short = h;
    fits = omega arith;
    start = inl refl;
    clear = λ b lo up. absurd (omega arith);
    stop = inl refl;
    missed = λ g le. absurd (omega arith);
  }

  pub first_free_s-law :
      (blocks : ℕ) → 0 < seq → RunLaw (occ m) seq (blocks / 32 * 32) (first_free_s blocks m seq)
  unfolding first_free_s
  first_free_s-law blocks h =
      scan_from-law (blocks / 32) 0 (blocks / 32 * 32) 0 0 (omega arith) (IsScan-start h)
