-- ===== src/Memory/Copy.antt =====
-- The copying, filling and comparing loops of utils/memory.c as wholes.
use osdev_graphical.Base.{
  ℕ, zero, suc, ◌+◌, ◌%◌, ◌≤◌, ◌<◌, true, false, some, ◌≡◌, ◌≢◌, ◌⊎◌, ◌↔◌, inl, inr, refl, arith,
  ◌==◌, ◌∙◌, ==_iff,
}
use osdev_graphical.Memory.{Words, put, load_byte, store_byte, memcpy, memset_dword, memcmp, strcpy}
use osdev_graphical.Memory.Laws.{
  put_self, put_ne, eq_cases, load-store_self, load-store_ne, load_byte-bound,
}

-- A forward copy reads each byte before it overwrites it: the ranges are apart, or the
-- destination is not above the source.
abbrev pub CopyIsSafe : ℕ → ℕ → ℕ → Type 0
CopyIsSafe dest source count = (dest ≤ source) ⊎ (source + count ≤ dest)

pub load-memcpy_out :
    (m : Words) (d s n a : ℕ) → (a < d) ⊎ (d + n ≤ a) → load_byte (memcpy m d s n) a ≡ load_byte m a
unfolding memcpy
load-memcpy_out m d s zero a h = refl
load-memcpy_out m d s (suc n) a h =
    load-memcpy_out (store_byte m d (load_byte m s)) (suc d) (suc s) n a (omega arith)
    ∙ load-store_ne m d a (load_byte m s) (omega arith)

load_byte-lt : (m : Words) (a : ℕ) → load_byte m a % 256 ≡ load_byte m a
load_byte-lt m a = omega (arith, load_byte-bound m a)

pub load-memcpy_in :
    (m : Words) (d s n k : ℕ)
    → CopyIsSafe d s n
    → k < n
    → load_byte (memcpy m d s n) (d + k) ≡ load_byte m (s + k)
unfolding memcpy
load-memcpy_in m d s zero k safe l = absurd (omega arith)
load-memcpy_in m d s (suc n) zero safe l =
    let p : d + 0 ≡ d = omega arith in
    let q : s + 0 ≡ s = omega arith in
    rw (p, q)
      (load-memcpy_out (store_byte m d (load_byte m s)) (suc d) (suc s) n d (inl (omega arith))
        ∙ load-store_self m d (load_byte m s)
        ∙ load_byte-lt m s)
load-memcpy_in m d s (suc n) (suc k) safe l =
    let p : d + suc k ≡ suc d + k = omega arith in
    let q : s + suc k ≡ suc s + k = omega arith in
    rw (p, q)
      (load-memcpy_in (store_byte m d (load_byte m s)) (suc d) (suc s) n k (omega arith)
          (omega arith)
        ∙ load-store_ne m d (suc s + k) (load_byte m s) (omega arith))

-- After `memcpy` the destination holds what the source held before, and no other byte changed,
-- where the ranges are apart or the destination is not above the source.
pub memcpy_lem :
    (m : Words) (dest source count : ℕ)
    → CopyIsSafe dest source count
    → ((k : ℕ)
        → k < count
        → load_byte (memcpy m dest source count) (dest + k) ≡ load_byte m (source + k))
      × ((a : ℕ)
          → (a < dest) ⊎ (dest + count ≤ a)
          → load_byte (memcpy m dest source count) a ≡ load_byte m a)
memcpy_lem m d s n safe =
    (λ k l. load-memcpy_in m d s n k safe l, λ a h. load-memcpy_out m d s n a h)

memcmp_agree :
    (m : Words) (m1 m2 len k : ℕ)
    → memcmp m m1 m2 len ≡ true
    → k < len
    → load_byte m (m1 + k) ≡ load_byte m (m2 + k)
unfolding memcmp
memcmp_agree m m1 m2 zero k h l = absurd (omega arith)
memcmp_agree m m1 m2 (suc n) zero h l =
    let p : m1 + 0 ≡ m1 = omega arith in
    let q : m2 + 0 ≡ m2 = omega arith in rw (p, q) (ground arith)
memcmp_agree m m1 m2 (suc n) (suc k) h l =
    let p : m1 + suc k ≡ suc m1 + k = omega arith in
    let q : m2 + suc k ≡ suc m2 + k = omega arith in
    rw (p, q) (memcmp_agree m (suc m1) (suc m2) n k (ground arith) (omega arith))

memcmp_equal :
    (m : Words) (m1 m2 len : ℕ)
    → ((k : ℕ) → k < len → load_byte m (m1 + k) ≡ load_byte m (m2 + k))
    → memcmp m m1 m2 len ≡ true
unfolding memcmp
memcmp_equal m m1 m2 zero h = refl
memcmp_equal m m1 m2 (suc n) h =
    let p : m1 + 0 ≡ m1 = omega arith in
    let q : m2 + 0 ≡ m2 = omega arith in
    let head : load_byte m m1 ≡ load_byte m m2 = rw (p, q) at (h 0 (omega arith)) in
    rw ((==_iff (load_byte m m1) (load_byte m m2)).1 head) (
      memcmp_equal m (suc m1) (suc m2) n (λ k l.
        let r : suc m1 + k ≡ m1 + suc k = omega arith in
        let t : suc m2 + k ≡ m2 + suc k = omega arith in rw (r, t) (h (suc k) (omega arith))))

-- `memcmp` returns true exactly when every byte of the two ranges agrees.
pub memcmp_iff :
    (m : Words) (m1 m2 len : ℕ)
    → (memcmp m m1 m2 len ≡ true)
      ↔ ((k : ℕ) → k < len → load_byte m (m1 + k) ≡ load_byte m (m2 + k))
memcmp_iff m m1 m2 len = (λ h k l. memcmp_agree m m1 m2 len k h l, λ h. memcmp_equal m m1 m2 len h)

-- The bytes from `s` are a string of `n` characters with its terminator.
abbrev pub IsString : Words → ℕ → ℕ → Type 0
IsString m s n = ((k : ℕ) → k < n → load_byte m (s + k) ≢ 0) × (load_byte m (s + n) ≡ 0)

IsString-tail :
    (m : Words) (s n d v : ℕ)
    → (d < s) ⊎ (s + suc n < d)
    → IsString m s (suc n)
    → IsString (store_byte m d v) (suc s) n
IsString-tail m s n d v apart h = (
  λ k l.
      let p : s + suc k ≡ suc s + k = omega arith in
      rw (load-store_ne m d (suc s + k) v (omega arith), ← p) (h.0 (suc k) (omega arith)),
  let p : s + suc n ≡ suc s + n = omega arith in
      rw (load-store_ne m d (suc s + n) v (omega arith), ← p) h.1,
)

-- Given a string of `n` characters that the destination does not overlap, `strcpy` ends and does
-- what `memcpy` of its characters followed by a zero byte does.
pub strcpy_lem :
    (fuel : ℕ) (m : Words) (dest source n : ℕ)
    → n < fuel
    → (dest + n < source) ⊎ (source + n < dest)
    → IsString m source n
    → strcpy fuel m dest source ≡ some (store_byte (memcpy m dest source n) (dest + n) 0)
unfolding strcpy memcpy
strcpy_lem zero m d s n l apart h = absurd (omega arith)
strcpy_lem (suc f) m d s zero l apart h =
    let p : s + 0 ≡ s = omega arith in
    let q : d + 0 ≡ d = omega arith in
    let e : load_byte m s ≡ 0 = rw p at h.1 in rw ((==_iff (load_byte m s) 0).1 e, q)
strcpy_lem (suc f) m d s (suc n) l apart h =
    let p : s + 0 ≡ s = omega arith in
    let q : d + suc n ≡ suc d + n = omega arith in
    let e : load_byte m s ≢ 0 = rw p at (h.0 0 (omega arith)) in
    let t : (load_byte m s == 0) ≡ false = ground arith in
    rw (t, q)
      (strcpy_lem f (store_byte m d (load_byte m s)) (suc d) (suc s) n (omega arith) (omega arith)
        (IsString-tail m s n d (load_byte m s) (omega arith) h))

-- `memset_dword` writes `count` words and no others.
pub memset_dword_lem :
    (m : Words) (dest val count i : ℕ)
    → ((dest ≤ i) × (i < dest + count) → memset_dword m dest val count i ≡ val)
      × ((i < dest) ⊎ (dest + count ≤ i) → memset_dword m dest val count i ≡ m i)
unfolding memset_dword
memset_dword_lem m d v zero i = (λ h. absurd (omega arith), λ h. refl)
memset_dword_lem m d v (suc n) i = elim (eq_cases d i) [
  | inl e ↦ (
    λ h.
        (memset_dword_lem (put m d v) (suc d) v n i).1 (inl (omega arith))
        ∙ rw (← e) (put_self m d v),
    λ h. absurd (omega arith),
  )
  | inr ne ↦ (
    λ h. (memset_dword_lem (put m d v) (suc d) v n i).0 (omega arith, omega arith),
    λ h.
        (memset_dword_lem (put m d v) (suc d) v n i).1 (omega arith) ∙ put_ne m d v i (omega arith),
  )
]
