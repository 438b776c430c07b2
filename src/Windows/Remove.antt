-- ===== src/Windows/Remove.antt =====
-- Removing a window: what is left keeps the invariant that the working window is the top one.
use osdev_graphical.Base.{
  ℕ, ◌+◌, ◌≤◌, ◌≡◌, ◌≢◌, ◌⊎◌, refl, arith, ◌∙◌, sym, ap, Bool, Bool-cases, ==_iff, inl, inr, true,
  false, Option, none, some, List, [], ◌∷◌, ◌++◌, if◌then◌else◌, ◌==◌, Option-cases,
}
use osdev_graphical.Windows.{
  Window, Windows, get_window_by_id, at_address, last_window, remove_window,
}
use osdev_graphical.Windows.Order.{count_id, Unique, others, unlink-others, set_working-top}

abbrev pub count_address : ℕ → List Window → ℕ
count_address a [] = 0
count_address a (w ∷ ws) = (if w.address == a then 1 else 0) + count_address a ws

abbrev pub top_address : Option Window → ℕ
top_address none = 0
top_address (some w) = w.address

-- Identifiers and addresses are unique, no node is at the null pointer, and the working window is the
-- one on top.
pub record IsStack (s : Windows) : Type 0 where
  pub ids : Unique s.win_list
  pub addresses : (a : ℕ) → count_address a s.win_list ≤ 1
  pub real : count_address 0 s.win_list ≡ 0
  pub top : s.working_window ≡ top_address (last_window s.win_list)

count_id-others : (i j : ℕ) (ws : List Window) → count_id i (others j ws) ≤ count_id i ws
count_id-others i j [] = omega arith
count_id-others i j (w ∷ ws) = elim (Bool-cases (w.id == j)) [
  | inl e ↦ rw e (omega (arith, count_id-others i j ws))
  | inr e ↦ rw e (omega (arith, count_id-others i j ws))
]

count_address-others :
    (a j : ℕ) (ws : List Window) → count_address a (others j ws) ≤ count_address a ws
count_address-others a j [] = omega arith
count_address-others a j (w ∷ ws) = elim (Bool-cases (w.id == j)) [
  | inl e ↦ rw e (omega (arith, count_address-others a j ws))
  | inr e ↦ rw e (omega (arith, count_address-others a j ws))
]

last_some : (w : Window) (ws : List Window) → (t : Window) × (last_window (w ∷ ws) ≡ some t)
unfolding last_window
last_some w [] = (w, refl)
last_some w (w2 ∷ ws) = last_some w2 ws

last-count_address :
    (ws : List Window) (t : Window) → last_window ws ≡ some t → 1 ≤ count_address t.address ws
unfolding last_window
last-count_address [] t h = cc
last-count_address (w ∷ []) t h =
    let same : (t.address == t.address) ≡ true = (==_iff t.address t.address).1 refl in
    let q : w.address ≡ t.address = cc h in rw q (rw same (omega arith))
last-count_address (w ∷ w2 ∷ ws) t h = omega (arith, last-count_address (w2 ∷ ws) t h)

last-count_id : (ws : List Window) (t : Window) → last_window ws ≡ some t → 1 ≤ count_id t.id ws
unfolding last_window
last-count_id [] t h = cc
last-count_id (w ∷ []) t h =
    let same : (t.id == t.id) ≡ true = (==_iff t.id t.id).1 refl in
    let q : w.id ≡ t.id = cc h in rw q (rw same (omega arith))
last-count_id (w ∷ w2 ∷ ws) t h = omega (arith, last-count_id (w2 ∷ ws) t h)

-- The top window is found by its address, and by its identifier.
last-at_address :
    (ws : List Window) (t : Window)
    → ((a : ℕ) → count_address a ws ≤ 1)
    → last_window ws ≡ some t
    → at_address ws t.address ≡ some t
unfolding last_window at_address
last-at_address [] t u h = cc
last-at_address (w ∷ []) t u h =
    let same : (t.address == t.address) ≡ true = (==_iff t.address t.address).1 refl in
    let q : w ≡ t = cc h in rw q (rw same refl)
last-at_address (w ∷ w2 ∷ ws) t u h = elim (Bool-cases (w.address == t.address)) [
  | inl e ↦
      let twice : 1 + count_address t.address (w2 ∷ ws) ≤ 1 = (let k = u t.address in rw e at k) in
      absurd (omega (arith, last-count_address (w2 ∷ ws) t h))
  | inr e ↦ rw e (last-at_address (w2 ∷ ws) t (λ a. omega (arith, u a)) h)
]

last-get :
    (ws : List Window) (t : Window)
    → Unique ws
    → last_window ws ≡ some t
    → get_window_by_id ws t.id ≡ some t
unfolding last_window get_window_by_id
last-get [] t u h = cc
last-get (w ∷ []) t u h =
    let same : (t.id == t.id) ≡ true = (==_iff t.id t.id).1 refl in
    let q : w ≡ t = cc h in rw q (rw same refl)
last-get (w ∷ w2 ∷ ws) t u h = elim (Bool-cases (w.id == t.id)) [
  | inl e ↦
      let twice : 1 + count_id t.id (w2 ∷ ws) ≤ 1 = (let k = u t.id in rw e at k) in
      absurd (omega (arith, last-count_id (w2 ∷ ws) t h))
  | inr e ↦ rw e (last-get (w2 ∷ ws) t (λ i. omega (arith, u i)) h)
]

-- Putting the top window on top changes nothing.
others-last :
    (ws : List Window) (t : Window)
    → Unique ws
    → last_window ws ≡ some t
    → others t.id ws ++ (t ∷ []) ≡ ws
unfolding last_window
others-last [] t u h = cc
others-last (w ∷ []) t u h =
    let same : (t.id == t.id) ≡ true = (==_iff t.id t.id).1 refl in
    let q : w ≡ t = cc h in rw q (rw same refl)
others-last (w ∷ w2 ∷ ws) t u h = elim (Bool-cases (w.id == t.id)) [
  | inl e ↦
      let twice : 1 + count_id t.id (w2 ∷ ws) ≤ 1 = (let k = u t.id in rw e at k) in
      absurd (omega (arith, last-count_id (w2 ∷ ws) t h))
  | inr e ↦
      rw e (ap (λ (q : List Window). w ∷ q) (others-last (w2 ∷ ws) t (λ i. omega (arith, u i)) h))
]

last_tail :
    (w v : Window) (ws : List Window) → last_window ws ≡ some v → last_window (w ∷ ws) ≡ some v
unfolding last_window
last_tail w v [] h = cc
last_tail w v (w2 ∷ ws) h = h

-- The top window stays on top when another is taken out.
last-others :
    (i : ℕ) (ws : List Window) (t : Window)
    → last_window ws ≡ some t
    → (t.id == i) ≡ false
    → last_window (others i ws) ≡ some t
unfolding last_window
last-others i [] t h ne = cc
last-others i (w ∷ []) t h ne = let q : w ≡ t = cc h in rw q (rw ne refl)
last-others i (w ∷ w2 ∷ ws) t h ne =
    let ih = last-others i (w2 ∷ ws) t h ne in
    elim (Bool-cases (w.id == i)) [
      | inl e ↦ rw e ih
      | inr e ↦ rw e (last_tail w t (others i (w2 ∷ ws)) ih)
    ]

last_none : (ws : List Window) → last_window ws ≡ none → ws ≡ []
last_none [] h = refl
last_none (w ∷ ws) h = (let (t, e) = last_some w ws in absurd (ne t (sym h ∙ e)))
  where
    ne : (t : Window) → none ≢ some t
    ne t q = cc

IsStack-others :
    {s : Windows} (i : ℕ) (a : ℕ)
    → IsStack s
    → a ≡ top_address (last_window (others i s.win_list))
    → IsStack (record { win_list = others i s.win_list; working_window = a })
IsStack-others {s} i a w h = record {
  ids = λ j. omega (arith, w.ids j, count_id-others j i s.win_list);
  addresses = λ b. omega (arith, w.addresses b, count_address-others b i s.win_list);
  real = omega (arith, w.real, count_address-others 0 i s.win_list);
  top = h;
}

abbrev RemoveLaw : Bool → Windows → Window → Option Windows → Type 0
RemoveLaw user s win out =
    ((user ≡ true) × (others win.id s.win_list ≡ []) × (out ≡ none))
    ⊎ ((s' : Windows) × (out ≡ some s') × (s'.win_list ≡ others win.id s.win_list) × IsStack s')

remove-other :
    (user : Bool) {s : Windows} (win t : Window)
    → IsStack s
    → get_window_by_id s.win_list win.id ≡ some win
    → last_window s.win_list ≡ some t
    → at_address s.win_list s.working_window ≡ some t
    → (t.id == win.id) ≡ false
    → RemoveLaw user s win (remove_window user s win)
unfolding remove_window
remove-other user {s} win t w h l a ne = inr (
  record { win_list = others win.id s.win_list; working_window = s.working_window },
  rw (remove_window, unlink-others s.win_list win.id win w.ids h, a, ne) refl,
  refl,
  IsStack-others win.id s.working_window w
      (w.top ∙ ap top_address l ∙ sym (ap top_address (last-others win.id s.win_list t l ne))),
)

remove-last :
    (user : Bool) {s : Windows} (win t : Window)
    → IsStack s
    → get_window_by_id s.win_list win.id ≡ some win
    → at_address s.win_list s.working_window ≡ some t
    → (t.id == win.id) ≡ true
    → last_window (others win.id s.win_list) ≡ none
    → RemoveLaw user s win (remove_window user s win)
unfolding remove_window
remove-last true {s} win t w h a eq l = inl (
  refl,
  last_none (others win.id s.win_list) l,
  rw (remove_window, unlink-others s.win_list win.id win w.ids h, a, eq, l) refl,
)
remove-last false {s} win t w h a eq l = inr (
  record { win_list = others win.id s.win_list; working_window = 0 },
  rw (remove_window, unlink-others s.win_list win.id win w.ids h, a, eq, l) refl,
  refl,
  IsStack-others win.id 0 w (sym (ap top_address l)),
)

remove-top :
    (user : Bool) {s : Windows} (win t v : Window)
    → IsStack s
    → get_window_by_id s.win_list win.id ≡ some win
    → at_address s.win_list s.working_window ≡ some t
    → (t.id == win.id) ≡ true
    → last_window (others win.id s.win_list) ≡ some v
    → RemoveLaw user s win (remove_window user s win)
unfolding remove_window
remove-top user {s} win t v w h a eq l =
    let left = others win.id s.win_list in
    let below = IsStack-others win.id v.address w (sym (ap top_address l)) in
    let seen = last-count_address left v l in
    let ne : v.address ≢ 0 = (λ z.
      (let one : 1 ≤ count_address 0 left = (let k = seen in rw z at k) in
        omega (arith, below.real))) in
    let cleared : Windows = record { win_list = left; working_window = 0 } in
    let moved = set_working-top cleared v.id v below.ids (last-get left v below.ids l) ne in
    inr (
      record { win_list = left; working_window = v.address },
      rw (remove_window, unlink-others s.win_list win.id win w.ids h, a, eq, l)
          (ap (λ (o : Bool × Windows). some (o.1)) moved
            ∙ ap (λ (ws : List Window). some (record { win_list = ws; working_window = v.address }))
                (others-last left v below.ids l)),
      refl,
      below,
    )

empty_get : (i : ℕ) (v : Window) → get_window_by_id [] i ≢ some v
unfolding get_window_by_id
empty_get i v q = cc

-- While the working window is the one on top and no identifier or address is there twice, removing a
-- window of the list leaves the other windows in their order, the one on top as the working window, or
-- none if no window is left, and so keeps the invariant; only the function for user windows reads
-- through the null pointer when no window is left.
pub remove_window-IsStack :
    (user : Bool) {s : Windows} (win : Window)
    → IsStack s
    → get_window_by_id s.win_list win.id ≡ some win
    → ((user ≡ true) × (others win.id s.win_list ≡ []) × (remove_window user s win ≡ none))
      ⊎ ((s' : Windows) × (remove_window user s win ≡ some s')
          × (s'.win_list ≡ others win.id s.win_list)
          × IsStack s')
remove_window-IsStack user {s} win w h = elim (Option-cases (last_window s.win_list)) [
  | inl l ↦ absurd (
      none_some win
        (sym (ap (λ (ws : List Window). get_window_by_id ws win.id) (last_none s.win_list l)) ∙ h))
  | inr (t, l) ↦
      let a : at_address s.win_list s.working_window ≡ some t =
        ap (at_address s.win_list) (w.top ∙ ap top_address l)
        ∙ last-at_address s.win_list t w.addresses l in
      elim (Bool-cases (t.id == win.id)) [
        | inr ne ↦ remove-other user win t w h l a ne
        | inl eq ↦ elim (Option-cases (last_window (others win.id s.win_list))) [
          | inl l' ↦ remove-last user win t w h a eq l'
          | inr (v, l') ↦ remove-top user win t v w h a eq l'
        ]
      ]
]
  where
    none_some : (v : Window) → get_window_by_id [] win.id ≢ some v
    none_some v q = empty_get win.id v q
