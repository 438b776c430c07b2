-- ===== src/Pmm/Table.antt =====
-- `pmmngr_init_memory_regions` of kernel/pmm.c against the list of regions that it should use.
use osdev_graphical.Base.{
  ℕ, zero, suc, ◌≤◌, Bool, ◌&&◌, ◌||◌, ◌≡◌, inl, inr, refl, ap, arith, if◌then◌else◌, ◌==◌, ◌∙◌,
  Bool-cases, ltb, List, [], ◌∷◌,
}
use osdev_graphical.Pmm.{
  Pmm, MemoryRegion, init_region, sanitize, init_regions_from, init_memory_regions,
}

-- Types 1 and those that are not known are used; 0 and 2 to 4 are not.
abbrev pub is_used : MemoryRegion → Bool
is_used r = r.type == 1 || ltb 4 r.type

-- The entries `i` to `i + left - 1`, up to the first one but entry 0 that starts at 0.
abbrev pub entries : ℕ → ℕ → (ℕ → MemoryRegion) → List MemoryRegion
entries zero i table = []
entries (suc left) i table =
    if ltb 0 i && (table i).start_lo == 0 then [] else table i ∷ entries left (suc i) table

abbrev pub use_region : Pmm → MemoryRegion → Pmm
use_region p r = if is_used r then init_region p r.start_lo r.size_lo else p

abbrev pub use_all : Pmm → List MemoryRegion → Pmm
use_all p [] = p
use_all p (r ∷ rs) = use_all (use_region p r) rs

-- After `sanitize` the test for type 1 is the test for use, and the start is as before.
sanitize-use :
    (p : Pmm) (r : MemoryRegion)
    → (if (sanitize r).type == 1
        then init_region p (sanitize r).start_lo (sanitize r).size_lo
        else p)
      ≡ use_region p r
unfolding sanitize
sanitize-use p r = ground arith

sanitize-start : (r : MemoryRegion) → (sanitize r).start_lo ≡ r.start_lo
unfolding sanitize
sanitize-start r = ground arith

init_regions_from-use :
    (left i : ℕ) (p : Pmm) (table orig : ℕ → MemoryRegion)
    → ((j : ℕ) → i ≤ j → table j ≡ orig j)
    → (init_regions_from left i p table).0 ≡ use_all p (entries left i orig)
unfolding init_regions_from
init_regions_from-use zero i p table orig h = refl
init_regions_from-use (suc left) i p table orig h =
    rw (h i (omega arith)) (elim (Bool-cases (ltb 0 i && (sanitize (orig i)).start_lo == 0)) [
      | inl stop ↦ rw (stop, same stop)
      | inr go ↦
          rw (go, same go)
            (init_regions_from-use left (suc i) _ _ orig (λ j l. past j l ∙ h j (omega arith))
              ∙ ap (λ (q : Pmm). use_all q (entries left (suc i) orig)) (sanitize-use p (orig i)))
    ])
  where
    same :
        {t : Bool}
        → (ltb 0 i && (sanitize (orig i)).start_lo == 0) ≡ t
        → (ltb 0 i && (orig i).start_lo == 0) ≡ t
    same e = rw (sanitize-start (orig i)) at e

    past : (j : ℕ) → suc i ≤ j → (if j == i then sanitize (orig i) else table j) ≡ table j
    past j l = ground arith

-- `pmmngr_init_memory_regions` calls `pmmngr_init_region` on the entries of the table in order, up
-- to the terminator or the fifteenth, for exactly those of type 1 and those of a type above 4.
pub init_memory_regions-use_all :
    (p : Pmm) (table : ℕ → MemoryRegion)
    → (init_memory_regions p table).0 ≡ use_all p (entries 15 0 table)
unfolding init_memory_regions
init_memory_regions-use_all p table = init_regions_from-use 15 0 p table table (λ j l. refl)
