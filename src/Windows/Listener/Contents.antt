-- ===== src/Windows/Listener/Contents.antt =====
-- The requests that lie in a ring of twenty slots, and how they change.
use osdev_graphical.Base.{
  ℕ, zero, suc, ◌+◌, ◌%◌, ◌<◌, ◌≡◌, refl, arith, ◌∙◌, ap, false, List, [], ◌∷◌, ◌++◌, if◌then◌else◌,
  ◌==◌,
}
use osdev_graphical.Windows.Listener.{WinsysOp}

-- The `n` requests from slot `st` on.
abbrev pub contents : (ℕ → WinsysOp) → ℕ → ℕ → List WinsysOp
contents ops st zero = []
contents ops st (suc n) = contents ops st n ++ (ops ((st + n) % 20) ∷ [])

pub contents-keep :
    (ops ops' : ℕ → WinsysOp) (st n : ℕ)
    → ((i : ℕ) → i < n → ops' ((st + i) % 20) ≡ ops ((st + i) % 20))
    → contents ops' st n ≡ contents ops st n
contents-keep ops ops' st zero h = refl
contents-keep ops ops' st (suc n) h =
    rw (contents-keep ops ops' st n (λ i l. h i (omega arith)), h n (omega arith)) refl

pub contents-head :
    (ops : ℕ → WinsysOp) (st n : ℕ)
    → st < 20
    → contents ops st (suc n) ≡ ops st ∷ contents ops ((st + 1) % 20) n
contents-head ops st zero h = let e : (st + 0) % 20 ≡ st = omega arith in rw e refl
contents-head ops st (suc n) h =
    let e : (st + suc n) % 20 ≡ ((st + 1) % 20 + n) % 20 = omega arith in
    ap (λ (t : List WinsysOp). t ++ (ops ((st + suc n) % 20) ∷ [])) (contents-head ops st n h)
    ∙ ap (λ (k : ℕ). ops st ∷ (contents ops ((st + 1) % 20) n ++ (ops k ∷ []))) e

-- A store in the first slot behind the `n` requests.
pub contents-store :
    (ops : ℕ → WinsysOp) (st n end : ℕ) (v : WinsysOp)
    → end ≡ (st + n) % 20
    → n < 20
    → contents (λ j. if j == end then v else ops j) st n ≡ contents ops st n
contents-store ops st n end v he hn =
    contents-keep ops (λ j. if j == end then v else ops j) st n
      (λ i l. let ne : ((st + i) % 20 == end) ≡ false = ground arith in rw ne refl)
