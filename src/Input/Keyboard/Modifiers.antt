-- ===== src/Input/Keyboard/Modifiers.antt =====
-- The keyboard's status byte tells what the keys' history says, key by key.
use mathlib.Core.Path.{subst}
use osdev_graphical.Base.{
  ℕ, ◌+◌, ◌≡◌, refl, sym, ap, Bool, true, false, Bool-cases, ==_iff, inl, inr, not, ◌||◌, List, [],
  ◌∷◌, if◌then◌else◌, ◌==◌,
}
use osdev_graphical.Input.Keyboard.{
  enable_shift, disable_shift, check_shift, enable_ctrl, disable_ctrl, check_ctrl, enable_caps,
  disable_caps, check_caps, enable_alt, disable_alt, check_alt, is_release, status_of_release,
  status_of_press, status_of,
}

-- The four modifiers.
pub record Modifiers : Type 0 where
  pub ctrl : Bool
  pub alt : Bool
  pub shift : Bool
  pub caps : Bool

abbrev flag : Bool → ℕ → ℕ
flag b n = if b then n else 0

-- The status byte that stands for them.
abbrev pub encode : Modifiers → ℕ
encode m = flag m.ctrl 1 + flag m.alt 2 + flag m.shift 4 + flag m.caps 8

-- What a code says of the modifiers: a key that is held down, and one that is switched.
abbrev pub press : ℕ → Modifiers → Modifiers
press code m = record {
  ctrl = if code == 29 then true else if code == 157 then false else m.ctrl;
  alt = if code == 56 then true else if code == 184 then false else m.alt;
  shift =
      if code == 42 || code == 54
      then true
      else if code == 170 || code == 182
      then false
      else m.shift;
  caps = if code == 186 then not m.caps else m.caps;
}

-- The status byte after codes, one by one.
abbrev pub statuses : ℕ → List ℕ → ℕ
statuses kstatus [] = kstatus
statuses kstatus (code ∷ codes) = statuses (status_of kstatus code).0 codes

abbrev pub presses : Modifiers → List ℕ → Modifiers
presses m [] = m
presses m (code ∷ codes) = presses (press code m) codes

-- What the functions on the status byte give, together.
abbrev Flags : Type 0
Flags = (ℕ × ℕ × ℕ × ℕ × ℕ × ℕ × ℕ) × (Bool × Bool × Bool × Bool)

abbrev flags_of : ℕ → Flags
flags_of k = (
  (
    enable_shift k,
    disable_shift k,
    enable_ctrl k,
    disable_ctrl k,
    enable_alt k,
    disable_alt k,
    if check_caps k then disable_caps k else enable_caps k,
  ),
  (check_ctrl k, check_alt k, check_shift k, check_caps k),
)

abbrev flags_meant : Modifiers → Flags
flags_meant m = (
  (
    encode (record m { shift = true }),
    encode (record m { shift = false }),
    encode (record m { ctrl = true }),
    encode (record m { ctrl = false }),
    encode (record m { alt = true }),
    encode (record m { alt = false }),
    encode (record m { caps = not m.caps }),
  ),
  (m.ctrl, m.alt, m.shift, m.caps),
)

encode-flags :
    (c a s p : Bool)
    → let m : Modifiers = record { ctrl = c; alt = a; shift = s; caps = p } in
      flags_of (encode m) ≡ flags_meant m
unfolding enable_shift disable_shift check_shift enable_ctrl disable_ctrl check_ctrl enable_caps
    disable_caps check_caps enable_alt disable_alt check_alt
encode-flags false false false false = refl
encode-flags false false false true = refl
encode-flags false false true false = refl
encode-flags false false true true = refl
encode-flags false true false false = refl
encode-flags false true false true = refl
encode-flags false true true false = refl
encode-flags false true true true = refl
encode-flags true false false false = refl
encode-flags true false false true = refl
encode-flags true false true false = refl
encode-flags true false true true = refl
encode-flags true true false false = refl
encode-flags true true false true = refl
encode-flags true true true false = refl
encode-flags true true true true = refl

-- A modifier's code, or none.
data Key : ℕ → Type 0 where
  shift_left : Key 42
  shift_right : Key 54
  shift_left_up : Key 170
  shift_right_up : Key 182
  ctrl_down : Key 29
  ctrl_up : Key 157
  alt_down : Key 56
  alt_up : Key 184
  caps_up : Key 186
  other :
      (code : ℕ)
      → (code == 42) ≡ false
      → (code == 54) ≡ false
      → (code == 170) ≡ false
      → (code == 182) ≡ false
      → (code == 29) ≡ false
      → (code == 157) ≡ false
      → (code == 56) ≡ false
      → (code == 184) ≡ false
      → (code == 186) ≡ false
      → Key code

Key-cases : (code : ℕ) → Key code
Key-cases code = elim (Bool-cases (code == 42)) [
  | inl e ↦ subst Key (sym ((==_iff code 42).0 e)) shift_left
  | inr n42 ↦ elim (Bool-cases (code == 54)) [
    | inl e ↦ subst Key (sym ((==_iff code 54).0 e)) shift_right
    | inr n54 ↦ elim (Bool-cases (code == 170)) [
      | inl e ↦ subst Key (sym ((==_iff code 170).0 e)) shift_left_up
      | inr n170 ↦ elim (Bool-cases (code == 182)) [
        | inl e ↦ subst Key (sym ((==_iff code 182).0 e)) shift_right_up
        | inr n182 ↦ elim (Bool-cases (code == 29)) [
          | inl e ↦ subst Key (sym ((==_iff code 29).0 e)) ctrl_down
          | inr n29 ↦ elim (Bool-cases (code == 157)) [
            | inl e ↦ subst Key (sym ((==_iff code 157).0 e)) ctrl_up
            | inr n157 ↦ elim (Bool-cases (code == 56)) [
              | inl e ↦ subst Key (sym ((==_iff code 56).0 e)) alt_down
              | inr n56 ↦ elim (Bool-cases (code == 184)) [
                | inl e ↦ subst Key (sym ((==_iff code 184).0 e)) alt_up
                | inr n184 ↦ elim (Bool-cases (code == 186)) [
                  | inl e ↦ subst Key (sym ((==_iff code 186).0 e)) caps_up
                  | inr n186 ↦ other code n42 n54 n170 n182 n29 n157 n56 n184 n186
                ]
              ]
            ]
          ]
        ]
      ]
    ]
  ]
]

status-press :
    (m : Modifiers) (code : ℕ) → Key code → (status_of (encode m) code).0 ≡ encode (press code m)
unfolding status_of is_release status_of_release status_of_press
status-press m _ shift_left = ap (λ (f : Flags). f.0.0) (encode-flags m.ctrl m.alt m.shift m.caps)
status-press m _ shift_right = ap (λ (f : Flags). f.0.0) (encode-flags m.ctrl m.alt m.shift m.caps)
status-press m _ shift_left_up =
    ap (λ (f : Flags). f.0.1) (encode-flags m.ctrl m.alt m.shift m.caps)
status-press m _ shift_right_up =
    ap (λ (f : Flags). f.0.1) (encode-flags m.ctrl m.alt m.shift m.caps)
status-press m _ ctrl_down = ap (λ (f : Flags). f.0.2) (encode-flags m.ctrl m.alt m.shift m.caps)
status-press m _ ctrl_up = ap (λ (f : Flags). f.0.3) (encode-flags m.ctrl m.alt m.shift m.caps)
status-press m _ alt_down = ap (λ (f : Flags). f.0.4) (encode-flags m.ctrl m.alt m.shift m.caps)
status-press m _ alt_up = ap (λ (f : Flags). f.0.5) (encode-flags m.ctrl m.alt m.shift m.caps)
status-press m _ caps_up = ap (λ (f : Flags). f.0.6) (encode-flags m.ctrl m.alt m.shift m.caps)
status-press m _ (other code n42 n54 n170 n182 n29 n157 n56 n184 n186) =
    elim (Bool-cases (is_release code)) [
      | inl r ↦ rw (r, n42, n54, n170, n182, n29, n157, n56, n184, n186) refl
      | inr r ↦ elim (Bool-cases (code == 58)) [
        | inl c ↦ rw (r, c, n42, n54, n170, n182, n29, n157, n56, n184, n186) refl
        | inr c ↦ rw (r, c, n42, n54, n170, n182, n29, n157, n56, n184, n186) refl
      ]
    ]

-- Whatever codes have come, the four functions that ask the status byte for a modifier give what the
-- codes say, each modifier by itself: shift, control and alt are on from a press of one of their keys to
-- the next release of one, and caps changes with every release of its key.
pub check-presses :
    (m : Modifiers) (codes : List ℕ)
    → let k = statuses (encode m) codes in
      let m' = presses m codes in
      (check_ctrl k ≡ m'.ctrl)
      × (check_alt k ≡ m'.alt)
      × (check_shift k ≡ m'.shift)
      × (check_caps k ≡ m'.caps)
check-presses m [] =
    let f = ap (λ (x : Flags). x.1) (encode-flags m.ctrl m.alt m.shift m.caps) in
    (
      ap (λ (x : Bool × Bool × Bool × Bool). x.0) f,
      ap (λ (x : Bool × Bool × Bool × Bool). x.1) f,
      ap (λ (x : Bool × Bool × Bool × Bool). x.2) f,
      ap (λ (x : Bool × Bool × Bool × Bool). x.3) f,
    )
check-presses m (code ∷ codes) =
    rw (status-press m code (Key-cases code)) (check-presses (press code m) codes)
