-- ===== src/Memory.antt =====
-- utils/memory.c over the machine's memory: 32-bit words by index, little-endian bytes by address.
-- Addresses do not wrap here: a caller's range is taken to end below 2^32.
pub mod Laws
pub mod Copy
mod Tests
use osdev_graphical.Base.{
  ℕ, zero, suc, ◌+◌, ◌*◌, ◌/◌, ◌%◌, Bool, true, false, Option, none, some, if◌then◌else◌, ◌==◌,
}

abbrev pub Words : Type 0
Words = ℕ → ℕ

unfoldable pub put : Words → ℕ → ℕ → Words
put m i v j = if j == i then v else m j

-- Byte `p` of a word, the lowest first, and the word with that byte replaced.
abbrev pub byte_of : ℕ → ℕ → ℕ
byte_of w zero = w % 256
byte_of w (suc p) = byte_of (w / 256) p

abbrev pub splice : ℕ → ℕ → ℕ → ℕ
splice w zero v = w / 256 * 256 + v
splice w (suc p) v = splice (w / 256) p v * 256 + w % 256

-- `*a` and `*a = v` for a `char *` or `unsigned char *`.
unfoldable pub load_byte : Words → ℕ → ℕ
load_byte m a = byte_of (m (a / 4)) (a % 4)

unfoldable pub store_byte : Words → ℕ → ℕ → Words
store_byte m a v = put m (a / 4) (splice (m (a / 4)) (a % 4) (v % 256))

unfoldable pub memcpy : Words → ℕ → ℕ → ℕ → Words
memcpy m dest source zero = m
memcpy m dest source (suc left) =
    memcpy (store_byte m dest (load_byte m source)) (suc dest) (suc source) left

-- The dword versions, over word indices.
pub memcpy_dword : Words → ℕ → ℕ → ℕ → Words
memcpy_dword m dest source zero = m
memcpy_dword m dest source (suc left) =
    memcpy_dword (put m dest (m source)) (suc dest) (suc source) left

-- The loop runs to the source's terminator; `none` if that is not among the first `fuel` bytes.
unfoldable pub strcpy : ℕ → Words → ℕ → ℕ → Option Words
strcpy zero m dest source = none
strcpy (suc fuel) m dest source =
    let rest = strcpy fuel (store_byte m dest (load_byte m source)) (suc dest) (suc source) in
    if load_byte m source == 0 then some (store_byte m dest 0) else rest

unfoldable pub memset_dword : Words → ℕ → ℕ → ℕ → Words
memset_dword m dest val zero = m
memset_dword m dest val (suc left) = memset_dword (put m dest val) (suc dest) val left

unfoldable pub memset : Words → ℕ → ℕ → ℕ → Words
memset m dest val zero = m
memset m dest val (suc left) = memset (store_byte m dest val) (suc dest) val left

-- `true` if the two ranges agree.
unfoldable pub memcmp : Words → ℕ → ℕ → ℕ → Bool
memcmp m m1 m2 zero = true
memcmp m m1 m2 (suc left) =
    let rest = memcmp m (suc m1) (suc m2) left in
    if load_byte m m1 == load_byte m m2 then rest else false
