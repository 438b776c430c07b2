-- ===== src/Memory/Laws.antt =====
-- What the byte writes of utils/memory.c leave behind, address by address.
use native.Mathlib.Nat.{pow-suc}
use osdev_graphical.Base.{
  ℕ, zero, suc, ◌+◌, ◌*◌, ◌/◌, ◌%◌, ◌^◌, ◌≤◌, ◌<◌, ◌≡◌, ◌≢◌, ◌⊎◌, inl, inr, refl, ap, arith, ◌∙◌,
}
use osdev_graphical.Memory.{Words, put, byte_of, splice, load_byte, store_byte, memset}

pub put_self : (m : Words) (i v : ℕ) → put m i v i ≡ v
unfolding put
put_self m i v = ground arith

pub put_ne : (m : Words) (i v j : ℕ) → j ≢ i → put m i v j ≡ m j
unfolding put
put_ne m i v j h = ground arith

pub eq_cases : (x y : ℕ) → (x ≡ y) ⊎ (x ≢ y)
eq_cases x y = ground arith

byte-splice_self : (w p v : ℕ) → v < 256 → byte_of (splice w p v) p ≡ v
byte-splice_self w zero v h = omega arith
byte-splice_self w (suc p) v h =
    let q : splice w (suc p) v / 256 ≡ splice (w / 256) p v = omega arith in
    rw q (byte-splice_self (w / 256) p v h)

byte-splice_ne : (w p q v : ℕ) → v < 256 → p ≢ q → byte_of (splice w p v) q ≡ byte_of w q
byte-splice_ne w zero zero v h ne = absurd (ne refl)
byte-splice_ne w zero (suc q) v h ne =
    let e : (w / 256 * 256 + v) / 256 ≡ w / 256 = omega arith in rw e
byte-splice_ne w (suc p) zero v h ne = omega arith
byte-splice_ne w (suc p) (suc q) v h ne =
    let e : splice w (suc p) v / 256 ≡ splice (w / 256) p v = omega arith in
    rw e (byte-splice_ne (w / 256) p q v h (λ k. ne (ap suc k)))

splice-lt : (n w p v : ℕ) → p < n → v < 256 → w < 256 ^ n → splice w p v < 256 ^ n
splice-lt zero w p v l hv h = absurd (omega arith)
splice-lt (suc n) w zero v l hv h = omega (arith, pow-suc 256 n)
splice-lt (suc n) w (suc p) v l hv h = omega (
  arith,
  pow-suc 256 n,
  splice-lt n (w / 256) p v (omega arith) hv (omega (arith, pow-suc 256 n)),
)

pub load-store_self : (m : Words) (a v : ℕ) → load_byte (store_byte m a v) a ≡ v % 256
unfolding load_byte store_byte
load-store_self m a v =
    rw (put_self m (a / 4) (splice (m (a / 4)) (a % 4) (v % 256)))
      (byte-splice_self (m (a / 4)) (a % 4) (v % 256) (omega arith))

pub load-store_ne : (m : Words) (a b v : ℕ) → a ≢ b → load_byte (store_byte m a v) b ≡ load_byte m b
unfolding load_byte store_byte
load-store_ne m a b v h = elim (eq_cases (b / 4) (a / 4)) [
  | inl e ↦
      rw (e, put_self m (a / 4) (splice (m (a / 4)) (a % 4) (v % 256)))
        (byte-splice_ne (m (a / 4)) (a % 4) (b % 4) (v % 256) (omega arith) (λ q. h (omega arith)))
  | inr ne ↦ rw (put_ne m (a / 4) (splice (m (a / 4)) (a % 4) (v % 256)) (b / 4) ne)
]

byte_of-lt : (w p : ℕ) → byte_of w p < 256
byte_of-lt w zero = omega arith
byte_of-lt w (suc p) = byte_of-lt (w / 256) p

pub load_byte-bound : (m : Words) (a : ℕ) → load_byte m a < 256
unfolding load_byte
load_byte-bound m a = byte_of-lt (m (a / 4)) (a % 4)

-- Every word fits `uint32_t`.
abbrev pub IsWords : Words → Type 0
IsWords m = (i : ℕ) → m i < 2 ^ 32

pub put-IsWords : (m : Words) (i v : ℕ) → v < 2 ^ 32 → IsWords m → IsWords (put m i v)
unfolding put
put-IsWords m i v hv h j = ground (arith, h j)

pub store-IsWords : (m : Words) (a v : ℕ) → IsWords m → IsWords (store_byte m a v)
unfolding store_byte
store-IsWords m a v h =
    put-IsWords m (a / 4) _
      (splice-lt 4 (m (a / 4)) (a % 4) (v % 256) (omega arith) (omega arith) (h (a / 4))) h

pub load-memset_out :
    (m : Words) (d v n a : ℕ) → (a < d) ⊎ (d + n ≤ a) → load_byte (memset m d v n) a ≡ load_byte m a
unfolding memset
load-memset_out m d v zero a h = refl
load-memset_out m d v (suc n) a h =
    load-memset_out (store_byte m d v) (suc d) v n a (omega arith)
    ∙ load-store_ne m d a v (omega arith)

pub load-memset_in :
    (m : Words) (d v n a : ℕ) → d ≤ a → a < d + n → load_byte (memset m d v n) a ≡ v % 256
unfolding memset
load-memset_in m d v zero a lo hi = absurd (omega arith)
load-memset_in m d v (suc n) a lo hi = elim (eq_cases d a) [
  | inl e ↦
      load-memset_out (store_byte m d v) (suc d) v n a (inl (omega arith))
      ∙ rw (← e) (load-store_self m d v)
  | inr ne ↦ load-memset_in (store_byte m d v) (suc d) v n a (omega arith) (omega arith)
]

pub memset-IsWords : (m : Words) (d v n : ℕ) → IsWords m → IsWords (memset m d v n)
unfolding memset
memset-IsWords m d v zero h = h
memset-IsWords m d v (suc n) h =
    memset-IsWords (store_byte m d v) (suc d) v n (store-IsWords m d v h)

-- A word is given by its bytes.
byte_ext :
    (n w x : ℕ) → w < 256 ^ n → x < 256 ^ n → ((p : ℕ) → p < n → byte_of w p ≡ byte_of x p) → w ≡ x
byte_ext zero w x p q h = omega arith
byte_ext (suc n) w x p q h = omega (
  arith,
  h 0 (omega arith),
  byte_ext n (w / 256) (x / 256) (omega (arith, pow-suc 256 n)) (omega (arith, pow-suc 256 n))
      (λ k l. h (suc k) (omega arith)),
)

pub word_ext :
    (m m' : Words) (i : ℕ)
    → IsWords m
    → IsWords m'
    → ((a : ℕ) → a / 4 ≡ i → load_byte m a ≡ load_byte m' a)
    → m i ≡ m' i
unfolding load_byte
word_ext m m' i h h' e = byte_ext 4 (m i) (m' i) (h i) (h' i) (λ p l.
    let q : (i * 4 + p) / 4 ≡ i = omega arith in
    let r : (i * 4 + p) % 4 ≡ p = omega arith in rw (q, r) at (e (i * 4 + p) q))

byte_of-zero : (p : ℕ) → byte_of 0 p ≡ 0
byte_of-zero zero = refl
byte_of-zero (suc p) = byte_of-zero p

pub load_byte-zero : (a : ℕ) → load_byte (λ i. 0) a ≡ 0
unfolding load_byte
load_byte-zero a = byte_of-zero (a % 4)
