-- ===== src/Strings/Tests.antt =====
-- utils/strings.c on small texts.
use osdev_graphical.Base.{ℕ, zero, suc, ◌<◌, max, ◌≡◌, arith, false, some, List, [], ◌∷◌, length}
use osdev_graphical.Strings.{at, strlen, decimal_to_uint, digit_count, int_to_str_padding}
use osdev_graphical.Strings.Text.{Plain}
use osdev_graphical.Strings.Number.{decimal_to_uint-int_to_str}

abbrev blank : List ℕ
blank = 0 ∷ 0 ∷ 0 ∷ 0 ∷ 0 ∷ 0 ∷ 0 ∷ 0 ∷ 0 ∷ 0 ∷ 0 ∷ 0 ∷ []

decimal_to_uint-int_to_str_example :
    (s : List ℕ) × (int_to_str_padding false 305 blank 10 5 ≡ some s)
    × (strlen s ≡ max (digit_count 32 10 305) 5)
    × (decimal_to_uint s ≡ 305)
decimal_to_uint-int_to_str_example =
    decimal_to_uint-int_to_str 305 5 blank (omega arith) (omega arith) (omega arith)

-- `\a\bc` with its terminator and one byte behind it.
abbrev path : List ℕ
path = 92 ∷ 97 ∷ 92 ∷ 98 ∷ 99 ∷ 0 ∷ 7 ∷ []

path_short : strlen path < length path
unfolding strlen
path_short = omega arith

path-Plain : Plain (92 ∷ 97 ∷ 92 ∷ 98 ∷ 99 ∷ [])
unfolding at
path-Plain zero h = omega arith
path-Plain (suc zero) h = omega arith
path-Plain (suc (suc zero)) h = omega arith
path-Plain (suc (suc (suc zero))) h = omega arith
path-Plain (suc (suc (suc (suc zero)))) h = omega arith
path-Plain (suc (suc (suc (suc (suc i))))) h = absurd (omega arith)
