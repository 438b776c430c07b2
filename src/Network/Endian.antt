-- ===== src/Network/Endian.antt =====
-- The byte order: the bytes come out in reverse.
use osdev_graphical.Base.{
  ℕ, zero, suc, ◌+◌, ◌-◌, ◌*◌, ◌/◌, ◌%◌, ◌^◌, ◌<◌, bit_and, bit_or, ◌≡◌, arith, ap, ◌∙◌, sym,
}
use osdev_graphical.Bits.Places.{place-or, and-above, and-byte, or-above}
use osdev_graphical.Bits.{or-place, zero-or}
use osdev_graphical.Network.{switch_endian16, switch_endian32, get_byte_from32}

-- Byte `i` of a number.
abbrev pub byte_of : ℕ → ℕ → ℕ
byte_of n i = n / 2 ^ (8 * i) % 2 ^ 8

abbrev pub bytes2 : ℕ → ℕ → ℕ
bytes2 a b = a + b * 2 ^ 8

abbrev bytes4 : ℕ → ℕ → ℕ → ℕ → ℕ
bytes4 a b c d = a + b * 2 ^ 8 + c * 2 ^ 16 + d * 2 ^ 24

pub switch_endian16-bytes :
    (a b : ℕ) → a < 2 ^ 8 → b < 2 ^ 8 → switch_endian16 (bytes2 a b) ≡ bytes2 b a
unfolding switch_endian16
switch_endian16-bytes a b ha hb =
    let high : bytes2 a b / 2 ^ 8 ≡ b = omega arith in
    let gone : b / 2 ^ 8 ≡ 0 = omega arith in
    let sum : bit_or (bytes2 a b / 2 ^ 8) (bytes2 a b * 2 ^ 8) ≡ b + bytes2 a b * 2 ^ 8 =
      ap (λ (t : ℕ). bit_or t (bytes2 a b * 2 ^ 8)) high
      ∙ or-above b (bytes2 a b)
      ∙ ap (λ (t : ℕ). b % 256 + bit_or t (bytes2 a b) * 256) gone
      ∙ ap (λ (t : ℕ). b % 256 + t * 256) (zero-or (bytes2 a b))
      ∙ omega arith in
    omega (arith, sum)

window1 : (y : ℕ) → bit_and y 0xff00 ≡ y / 2 ^ 8 % 2 ^ 8 * 2 ^ 8
window1 y = omega (arith, and-above y 255, and-byte (y / 2 ^ 8))

window2 : (y : ℕ) → bit_and y 0xff0000 ≡ y / 2 ^ 16 % 2 ^ 8 * 2 ^ 16
window2 y = omega (arith, and-above y 0xff00, window1 (y / 2 ^ 8))

window3 : (y : ℕ) → bit_and y 0xff000000 ≡ y / 2 ^ 24 % 2 ^ 8 * 2 ^ 24
window3 y = omega (arith, and-above y 0xff0000, window2 (y / 2 ^ 8))

-- The four terms, put together.
ors :
    (a b c d : ℕ)
    → a < 2 ^ 8
    → b < 2 ^ 8
    → c < 2 ^ 8
    → d < 2 ^ 8
    → bit_or (bit_or (bit_or d (b * 2 ^ 16)) (c * 2 ^ 8)) (a * 2 ^ 24) ≡ bytes4 d c b a
ors a b c d ha hb hc hd =
    let first : bit_or d (b * 2 ^ 16) ≡ d + b * 2 ^ 16 = or-place 16 d b (omega arith) in
    let second : bit_or (d + b * 2 ^ 16) (c * 2 ^ 8) ≡ d + c * 2 ^ 8 + b * 2 ^ 16 =
      let above : (d + b * 2 ^ 16) / 256 ≡ b * 2 ^ 8 = omega arith in
      omega
        (arith, or-above (d + b * 2 ^ 16) c, ap (λ (t : ℕ). bit_or t c) above, place-or 8 c b hc) in
    ap (λ (t : ℕ). bit_or (bit_or t (c * 2 ^ 8)) (a * 2 ^ 24)) first
    ∙ ap (λ (t : ℕ). bit_or t (a * 2 ^ 24)) second
    ∙ or-place 24 (d + c * 2 ^ 8 + b * 2 ^ 16) a (omega arith)

switch_endian32-bytes :
    (a b c d : ℕ)
    → a < 2 ^ 8
    → b < 2 ^ 8
    → c < 2 ^ 8
    → d < 2 ^ 8
    → switch_endian32 (bytes4 a b c d) ≡ bytes4 d c b a
unfolding switch_endian32
switch_endian32-bytes a b c d ha hb hc hd =
    let n = bytes4 a b c d in
    let t1 : bit_and (n / 2 ^ 24) 0xff ≡ d = omega (arith, and-byte (n / 2 ^ 24)) in
    let t2 : bit_and (n * 2 ^ 8 % 2 ^ 32) 0xff0000 ≡ b * 2 ^ 16 =
      omega (arith, window2 (n * 2 ^ 8 % 2 ^ 32)) in
    let t3 : bit_and (n / 2 ^ 8) 0xff00 ≡ c * 2 ^ 8 = omega (arith, window1 (n / 2 ^ 8)) in
    let t4 : bit_and (n * 2 ^ 24 % 2 ^ 32) 0xff000000 ≡ a * 2 ^ 24 =
      omega (arith, window3 (n * 2 ^ 24 % 2 ^ 32)) in
    rw (t1, t2, t3, t4) (ors a b c d ha hb hc hd)

-- A number of 32 bits as its bytes.
bytes_of : (n : ℕ) → n < 2 ^ 32 → n ≡ bytes4 (byte_of n 0) (byte_of n 1) (byte_of n 2) (byte_of n 3)
bytes_of n h = omega arith

get_byte-byte_of : (n i : ℕ) → n < 2 ^ 32 → i < 4 → get_byte_from32 n i ≡ byte_of n i
unfolding get_byte_from32
get_byte-byte_of n zero h l = omega (arith, and-byte n)
get_byte-byte_of n (suc zero) h l = omega (arith, window1 n)
get_byte-byte_of n (suc (suc zero)) h l = omega (arith, window2 n)
get_byte-byte_of n (suc (suc (suc zero))) h l = omega (arith, window3 n)
get_byte-byte_of n (suc (suc (suc (suc i)))) h l = absurd (omega arith)

switch32_lem :
    (n : ℕ)
    → n < 2 ^ 32
    → switch_endian32 n ≡ bytes4 (byte_of n 3) (byte_of n 2) (byte_of n 1) (byte_of n 0)
switch32_lem n h =
    ap switch_endian32 (bytes_of n h)
    ∙ switch_endian32-bytes (byte_of n 0) (byte_of n 1) (byte_of n 2) (byte_of n 3) (omega arith)
        (omega arith) (omega arith) (omega arith)

byte_of-switch : (n i : ℕ) → n < 2 ^ 32 → i < 4 → byte_of (switch_endian32 n) i ≡ byte_of n (3 - i)
byte_of-switch n zero h l = omega (arith, switch32_lem n h)
byte_of-switch n (suc zero) h l = omega (arith, switch32_lem n h)
byte_of-switch n (suc (suc zero)) h l = omega (arith, switch32_lem n h)
byte_of-switch n (suc (suc (suc zero))) h l = omega (arith, switch32_lem n h)
byte_of-switch n (suc (suc (suc (suc i)))) h l = absurd (omega arith)

-- For a number of 32 bits, `switch_endian32` gives one whose bytes, read by `get_byte_from32`, are those
-- of the number in the reverse order, and turns that one into the number again.
switch_endian32-reverses :
    (n : ℕ)
    → n < 2 ^ 32
    → ((i : ℕ) → i < 4 → get_byte_from32 (switch_endian32 n) i ≡ get_byte_from32 n (3 - i))
      × (switch_endian32 (switch_endian32 n) ≡ n)
switch_endian32-reverses n h =
    let small : switch_endian32 n < 2 ^ 32 = omega (arith, switch32_lem n h) in
    (
      λ i l.
          get_byte-byte_of (switch_endian32 n) i small l
          ∙ byte_of-switch n i h l
          ∙ sym (get_byte-byte_of n (3 - i) h (omega arith)),
      ap switch_endian32 (switch32_lem n h)
          ∙ switch_endian32-bytes (byte_of n 3) (byte_of n 2) (byte_of n 1) (byte_of n 0)
              (omega arith) (omega arith) (omega arith) (omega arith)
          ∙ sym (bytes_of n h),
    )
