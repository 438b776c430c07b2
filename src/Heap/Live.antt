-- ===== src/Heap/Live.antt =====
-- Lists of live allocations, and what holds of each and of every two of them.
use osdev_graphical.Base.{ℕ, ◌+◌, ◌≤◌, ◌≡◌, ◌⊎◌, refl, arith, List, [], ◌∷◌, ◌++◌}

-- An allocation: its first block and its number of blocks.
pub record Live : Type 0 where
  pub start : ℕ
  pub blocks : ℕ

-- No block in common.
abbrev pub Apart : Live → Live → Type 0
Apart a b = (a.start + a.blocks ≤ b.start) ⊎ (b.start + b.blocks ≤ a.start)

abbrev pub Each : (Live → Type 0) → List Live → Type 0
Each P [] = Unit
Each P (x ∷ xs) = P x × Each P xs

abbrev pub AllApart : List Live → Type 0
AllApart [] = Unit
AllApart (x ∷ xs) = Each (Apart x) xs × AllApart xs

abbrev pub total : List Live → ℕ
total [] = 0
total (x ∷ xs) = x.blocks + total xs

pub Each-map :
    (P Q : Live → Type 0) (l : List Live) → ((x : Live) → P x → Q x) → Each P l → Each Q l
Each-map P Q [] f h = h
Each-map P Q (x ∷ xs) f h = (f x h.0, Each-map P Q xs f h.1)

pub Each-zip :
    (P Q R : Live → Type 0) (l : List Live)
    → ((x : Live) → P x → Q x → R x)
    → Each P l
    → Each Q l
    → Each R l
Each-zip P Q R [] f h k = h
Each-zip P Q R (x ∷ xs) f h k = (f x h.0 k.0, Each-zip P Q R xs f h.1 k.1)

-- The allocation that stands between `pre` and `post`, and the rest.
module _ (x : Live) (post : List Live) where
  pub Each-pick : (P : Live → Type 0) (pre : List Live) → Each P (pre ++ (x ∷ post)) → P x
  Each-pick P [] h = h.0
  Each-pick P (y ∷ pre) h = Each-pick P pre h.1

  pub Each-drop :
      (P : Live → Type 0) (pre : List Live) → Each P (pre ++ (x ∷ post)) → Each P (pre ++ post)
  Each-drop P [] h = h.1
  Each-drop P (y ∷ pre) h = (h.0, Each-drop P pre h.1)

  pub Each-join :
      (P : Live → Type 0) (pre : List Live)
      → P x
      → Each P (pre ++ post)
      → Each P (pre ++ (x ∷ post))
  Each-join P [] p h = (p, h)
  Each-join P (y ∷ pre) p h = (h.0, Each-join P pre p h.1)

  pub AllApart-drop : (pre : List Live) → AllApart (pre ++ (x ∷ post)) → AllApart (pre ++ post)
  AllApart-drop [] h = h.1
  AllApart-drop (y ∷ pre) h = (Each-drop (Apart y) pre h.0, AllApart-drop pre h.1)

  pub AllApart-pick :
      (pre : List Live) → AllApart (pre ++ (x ∷ post)) → Each (Apart x) (pre ++ post)
  AllApart-pick [] h = h.0
  AllApart-pick (y ∷ pre) h = (omega (arith, Each-pick (Apart y) pre h.0), AllApart-pick pre h.1)

  pub total-pick : (pre : List Live) → total (pre ++ (x ∷ post)) ≡ x.blocks + total (pre ++ post)
  total-pick [] = refl
  total-pick (y ∷ pre) = omega (arith, total-pick pre)
