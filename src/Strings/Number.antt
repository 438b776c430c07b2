-- ===== src/Strings/Number.antt =====
-- Numbers printed in base 10 are read back.
use native.Mathlib.Nat.{mod-add-mod, add-mul-mod_self_left, div-add-mod}
use osdev_graphical.Base.{
  ℕ, zero, suc, ◌+◌, ◌-◌, ◌*◌, ◌/◌, ◌%◌, ◌^◌, max, ◌≤◌, ◌<◌, ◌≡◌, ◌≢◌, refl, arith, ◌∙◌, sym, ap,
  Bool-cases, ==_iff, inl, inr, false, List, [], ◌∷◌, length, length-set, ◌==◌, set, some,
}
use osdev_graphical.Strings.{
  at, strlen, digit_count, zeros_from, terminated, int_to_str_padding, decimal_from,
  decimal_to_uint,
}
use osdev_graphical.Strings.Digits.{
  Shows, Shows-ext, Shows-ne, at-set_ne, at-set_self, digit_count-le, write_digits_lem,
}

spread : (m a b q : ℕ) → (m * a + b) * q ≡ b * q + m * (a * q)
spread m a b q = grind arith

-- A factor may be reduced before it is multiplied.
mod_inside : (m x y q : ℕ) → (x + y % m * q) % m ≡ (x + y * q) % m
mod_inside m x y q =
    let whole : y ≡ m * (y / m) + y % m = sym (div-add-mod y m) in
    sym (
      ap (λ (t : ℕ). (x + t * q) % m) whole
      ∙ ap (λ (t : ℕ). (x + t) % m) (spread m (y / m) (y % m) q)
      ∙ ap (λ (t : ℕ). t % m) (omega arith)
      ∙ add-mul-mod_self_left (x + y % m * q) m (y / m * q))

value : (r p d q : ℕ) → r + d * p + p * 10 * q ≡ r + p * (10 * q + d)
value r p d q = grind arith

decimal_from_lem :
    (s : List ℕ) (m n r p : ℕ)
    → Shows s m n
    → r < 2 ^ 32
    → decimal_from s m r p ≡ (r + p * n) % 2 ^ 32
unfolding decimal_from
decimal_from_lem s zero n r p w h = rw w (omega arith)
decimal_from_lem s (suc m) n r p (a, w) h =
    let char : (at s m + 2 ^ 32 - b'0') % 2 ^ 32 ≡ n % 10 = omega arith in
    let split : 10 * (n / 10) + n % 10 ≡ n = omega arith in
    rw char (
      decimal_from_lem s m (n / 10) ((r + n % 10 * p) % 2 ^ 32) (p * 10 % 2 ^ 32) w (omega arith)
      ∙ mod-add-mod (r + n % 10 * p) (2 ^ 32) (p * 10 % 2 ^ 32 * (n / 10))
      ∙ mod_inside (2 ^ 32) (r + n % 10 * p) (p * 10) (n / 10)
      ∙ ap (λ (t : ℕ). t % 2 ^ 32) (value r p (n % 10) (n / 10) ∙ ap (λ (t : ℕ). r + p * t) split))

strlen-at : (s : List ℕ) (k : ℕ) → ((i : ℕ) → i < k → at s i ≢ 0) → at s k ≡ 0 → strlen s ≡ k
unfolding strlen
strlen-at [] zero h e = refl
strlen-at [] (suc k) h e = absurd (h 0 (omega arith) refl)
strlen-at (c ∷ s) zero h e = rw e refl
strlen-at (c ∷ s) (suc k) h e =
    let ne : (c == 0) ≡ false = ground (arith, h 0) in
    rw ne (ap suc (strlen-at s k (λ i l. h (suc i) (omega arith)) e))

zeros_from_lem :
    (left i : ℕ) (s : List ℕ)
    → i + left ≤ length s
    → (length (zeros_from left i s) ≡ length s)
      × ((j : ℕ) → i ≤ j → j < i + left → at (zeros_from left i s) j ≡ b'0')
      × ((j : ℕ) → j < i → at (zeros_from left i s) j ≡ at s j)
unfolding zeros_from
zeros_from_lem zero i s h = (refl, λ j a b. absurd (omega arith), λ j a. refl)
zeros_from_lem (suc left) i s h =
    let size = length-set s i b'0' in
    let w = zeros_from_lem left (suc i) (set s i b'0') (omega (arith, size)) in
    (
      w.0 ∙ size,
      λ j a b. elim (Bool-cases (i == j)) [
        | inl e ↦
            let q : i ≡ j = (==_iff i j).0 e in
            w.2 j (omega arith) ∙ rw q (at-set_self s j b'0' (omega arith))
        | inr e ↦ w.1 j (let ne : i ≢ j = ground arith in omega arith) (omega arith)
      ],
      λ j a. w.2 j (omega arith) ∙ at-set_ne s i j b'0' (λ q. omega (arith, q)),
    )

-- `int_to_str_padding` of a number below 2^31 in base 10, into a buffer that has more than ten
-- characters and more than the padding, writes inside the buffer a text that is as long as the
-- number's digits or the padding, whichever is longer, and that `decimal_to_uint` reads back.
pub decimal_to_uint-int_to_str :
    (n padding : ℕ) (buffer : List ℕ)
    → n < 2 ^ 31
    → 10 < length buffer
    → padding < length buffer
    → (s : List ℕ) × (int_to_str_padding false n buffer 10 padding ≡ some s)
      × (strlen s ≡ max (digit_count 32 10 n) padding)
      × (decimal_to_uint s ≡ n)
unfolding int_to_str_padding decimal_to_uint terminated
decimal_to_uint-int_to_str n padding buffer hn hb hp =
    let z = zeros_from_lem zeros 0 buffer (omega (arith, few)) in
    let (out, h, w) =
      write_digits_lem 32 n top padded (omega arith) (omega arith) (omega arith)
        (omega (arith, few, z.0)) (λ i l. z.1 i (omega arith) (omega arith)) in
    let end : at (set out top 0) top ≡ 0 =
      at-set_self out top 0 (omega (arith, few, w.size, z.0)) in
    let shown : Shows (set out top 0) top n =
      Shows-ext out (set out top 0) top n (λ i l. at-set_ne out top i 0 (λ q. omega (arith, q)))
        w.shows in
    let len : strlen (set out top 0) ≡ top =
      strlen-at (set out top 0) top (λ i l. Shows-ne (set out top 0) top n i shown l) end in
    (
      set out top 0,
      ap (terminated top) h,
      len ∙ omega arith,
      rw len (decimal_from_lem (set out top 0) top n 0 1 shown (omega arith) ∙ omega arith),
    )
  where
    zeros : ℕ
    zeros = padding - (digit_count 32 10 n + 0)

    top : ℕ
    top = digit_count 32 10 n + 0 + zeros

    padded : List ℕ
    padded = zeros_from zeros 0 buffer

    few : digit_count 32 10 n ≤ 10
    few = digit_count-le 32 10 n (omega arith) (omega arith)
