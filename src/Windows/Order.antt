-- ===== src/Windows/Order.antt =====
-- The order of the windows: the one that is made the working window comes to the top, the others
-- keep their order, and identifiers stay unique.
use osdev_graphical.Base.{
  ℕ, suc, ◌+◌, ◌-◌, ◌^◌, ◌<◌, ◌≤◌, ◌≡◌, ◌≢◌, refl, arith, ◌∙◌, sym, ap, Bool-cases, ==_iff, inl,
  inr, true, false, some, List, [], ◌∷◌, ◌++◌, if◌then◌else◌, ◌==◌, leb,
}
use osdev_graphical.Windows.{
  Window, Windows, slt, add32, free_id_from, get_free_id, get_window_by_id, add_window, unlink,
  raise, set_working_window_operation,
}

abbrev pub count_id : ℕ → List Window → ℕ
count_id i [] = 0
count_id i (w ∷ ws) = (if w.id == i then 1 else 0) + count_id i ws

-- No two windows have the same identifier.
abbrev pub Unique : List Window → Type 0
Unique ws = (i : ℕ) → count_id i ws ≤ 1

-- The windows with another identifier, in their order.
abbrev pub others : ℕ → List Window → List Window
others i [] = []
others i (w ∷ ws) = if w.id == i then others i ws else w ∷ others i ws

count_id-append :
    (i : ℕ) (xs ys : List Window) → count_id i (xs ++ ys) ≡ count_id i xs + count_id i ys
count_id-append i [] ys = omega arith
count_id-append i (x ∷ xs) ys = omega (arith, count_id-append i xs ys)

pub others-none : (i : ℕ) (ws : List Window) → count_id i ws ≡ 0 → others i ws ≡ ws
others-none i [] h = refl
others-none i (w ∷ ws) h = elim (Bool-cases (w.id == i)) [
  | inl e ↦ (let z : 1 + count_id i ws ≡ 0 = rw e at h in absurd (omega arith))
  | inr e ↦
      let z : 0 + count_id i ws ≡ 0 = rw e at h in
      rw e (ap (λ (t : List Window). w ∷ t) (others-none i ws (omega arith)))
]

-- No window has the highest `int` as its identifier, or a negative one.
abbrev pub HasRoom : List Window → Type 0
HasRoom ws = (i : ℕ) → 1 ≤ count_id i ws → i < 2 ^ 31 - 1

free_id_from-above :
    (id : ℕ) (ws : List Window) (i : ℕ)
    → id < 2 ^ 31
    → HasRoom ws
    → (id ≤ free_id_from id ws) × (free_id_from id ws ≤ i → count_id i ws ≡ 0)
unfolding free_id_from
free_id_from-above id [] i low room = (omega arith, λ h. refl)
free_id_from-above id (w ∷ ws) i low room =
    let self : (w.id == w.id) ≡ true = ground arith in
    let short : w.id < 2 ^ 31 - 1 = room w.id (rw self (omega arith)) in
    let behind : HasRoom ws = λ j l. room j (omega (arith, l)) in
    elim (Bool-cases (leb id w.id)) [
      | inl t ↦
          let taken : slt w.id id ≡ false = ground (arith, low, short) in
          let higher : add32 w.id 1 ≡ suc w.id = omega (arith, short) in
          let r = free_id_from-above (suc w.id) ws i (omega (arith, short)) behind in
          rw (taken, higher) (ground (arith, r.0), λ h. ground (arith, r.0, r.1))
      | inr f ↦
          let kept : slt w.id id ≡ true = ground (arith, low, short) in
          let r = free_id_from-above id ws i low behind in
          rw kept (ground (arith, r.0), λ h. ground (arith, r.0, r.1))
    ]

-- A window that is created keeps the identifiers unique, where all are below the highest `int`.
pub add_window-Unique :
    (s : Windows) (win : Window)
    → Unique s.win_list
    → HasRoom s.win_list
    → Unique (add_window s win).win_list
unfolding add_window get_free_id
add_window-Unique s win u room i =
    let r = free_id_from-above 1 s.win_list i (omega arith) room in
    rw (count_id-append i s.win_list (record win { id = free_id_from 1 s.win_list } ∷ []))
      (elim (Bool-cases (free_id_from 1 s.win_list == i)) [
        | inl e ↦
            let q : free_id_from 1 s.win_list ≡ i = (==_iff _ i).0 e in
            rw e (omega (arith, r.1 (omega arith)))
        | inr e ↦ rw e (omega (arith, u i))
      ])

pub get-id :
    (ws : List Window) (wid : ℕ) (win : Window) → get_window_by_id ws wid ≡ some win → win.id ≡ wid
unfolding get_window_by_id
get-id [] wid win h = cc
get-id (w ∷ ws) wid win h = elim (Bool-cases (w.id == wid)) [
  | inl e ↦ (let q : some w ≡ some win = rw e at h in cc ((==_iff w.id wid).0 e))
  | inr e ↦ (let q : get_window_by_id ws wid ≡ some win = rw e at h in get-id ws wid win q)
]

-- Taking out the node that was found leaves the others.
pub unlink-others :
    (ws : List Window) (wid : ℕ) (win : Window)
    → Unique ws
    → get_window_by_id ws wid ≡ some win
    → unlink ws wid ≡ some (others wid ws)
unfolding unlink get_window_by_id
unlink-others [] wid win u h = cc
unlink-others (w ∷ ws) wid win u h = elim (Bool-cases (w.id == wid)) [
  | inl e ↦
      let once : 1 + count_id wid ws ≤ 1 = (let k = u wid in rw e at k) in
      rw e (ap (λ (t : List Window). some t) (sym (others-none wid ws (omega arith))))
  | inr e ↦
      let q : get_window_by_id ws wid ≡ some win = rw e at h in
      let ih = unlink-others ws wid win (λ i. omega (arith, u i)) q in rw (e, ih) refl
]

raise_lem :
    (s : Windows) (win : Window)
    → Unique s.win_list
    → get_window_by_id s.win_list win.id ≡ some win
    → raise s win ≡ record s { win_list = others win.id s.win_list ++ (win ∷ []) }
unfolding raise
raise_lem s win u h = rw (raise, unlink-others s.win_list win.id win u h) refl

-- With unique identifiers, making another window the working one than the one that is puts it at the
-- top of the list, with the others below it in their order.
pub set_working-top :
    (s : Windows) (wid : ℕ) (win : Window)
    → Unique s.win_list
    → get_window_by_id s.win_list wid ≡ some win
    → win.address ≢ s.working_window
    → set_working_window_operation s wid ≡ (
      true,
      record { win_list = others wid s.win_list ++ (win ∷ []); working_window = win.address },
    )
unfolding set_working_window_operation
set_working-top s wid win u h ne =
    let id = get-id s.win_list wid win h in
    let other : (win.address == s.working_window) ≡ false = ground arith in
    let found : get_window_by_id s.win_list win.id ≡ some win =
      ap (get_window_by_id s.win_list) id ∙ h in
    rw (set_working_window_operation, h, other)
      (ap (λ (t : Windows). (true, t))
        (raise_lem (record s { working_window = win.address }) win u found
          ∙ ap
              (λ (i : ℕ). record {
                win_list = others i s.win_list ++ (win ∷ []);
                working_window = win.address;
              })
              id))
