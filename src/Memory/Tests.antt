-- ===== src/Memory/Tests.antt =====
-- utils/memory.c on a memory whose word `i` holds `0x04030201 + i`.
use Prim.Native.Nat.{zero, suc}
use osdev_graphical.Base.{ℕ, ◌+◌, ◌<◌, ◌≡◌, ◌≢◌, refl, arith, true}
use osdev_graphical.Memory.{Words, load_byte, memcmp}
use osdev_graphical.Memory.Copy.{IsString}

abbrev memory : Words
memory i = 0x0403_0201 + i

-- A string of two characters at address 4 in a memory that is otherwise zero.
abbrev text : Words
text i = elim i [ suc (zero) ↦ 0x6261 | _ ↦ 0 ]

memcmp_run : memcmp memory 1 5 3 ≡ true
unfolding memcmp load_byte
memcmp_run = refl

text-IsString : IsString text 4 2
unfolding load_byte
text-IsString = (text_chars, refl)
  where
    text_chars : (k : ℕ) → k < 2 → load_byte text (4 + k) ≢ 0
    text_chars zero h = omega arith
    text_chars (suc zero) h = omega arith
    text_chars (suc (suc k)) h = absurd (omega arith)
