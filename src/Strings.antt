-- ===== src/Strings.antt =====
-- utils/strings.c: printing and reading numbers, case, stripping, splitting and comparison.
-- A `char` buffer is the list of its bytes as unsigned numbers; the null pointer, whose length the
-- source takes to be 0, is the empty buffer. What `kmalloc` would give for a copy is the copy itself.
pub mod Text
pub mod Strip
pub mod Digits
pub mod Number
pub mod Overrun
pub mod Split
mod Tests
use osdev_graphical.Base.{
  ℕ, zero, suc, ◌+◌, ◌-◌, ◌*◌, ◌/◌, ◌%◌, ◌^◌, Bool, true, false, ◌&&◌, List, [], ◌∷◌, if◌then◌else◌,
  ◌==◌, leb, ltb, get_or, set, take, drop, Option, none, some,
}

-- A read past the end of the list is a zero byte.
abbrev pub at : List ℕ → ℕ → ℕ
at s i = get_or s i 0

unfoldable pub strlen : List ℕ → ℕ
strlen [] = 0
strlen (c ∷ s) = if c == 0 then 0 else suc (strlen s)

-- The two tests on a character of the case functions, with what they add or take away.
pub lower_char : ℕ → ℕ
lower_char c = if leb b'A' c && leb c b'Z' then c + (b'a' - b'A') else c

pub upper_char : ℕ → ℕ
upper_char c = if leb b'a' c && leb c b'z' then c - (b'a' - b'A') else c

-- The loop of both, with `left` characters to go from index `i`. No letter becomes the terminator,
-- so the length that the loop's test recomputes stays the same.
pub each_char : (ℕ → ℕ) → ℕ → ℕ → List ℕ → List ℕ
each_char f zero i s = s
each_char f (suc left) i s = each_char f left (suc i) (set s i (f (at s i)))

pub to_lower : List ℕ → List ℕ
to_lower s = each_char lower_char (strlen s) 0 s

pub to_upper : List ℕ → List ℕ
to_upper s = each_char upper_char (strlen s) 0 s

-- `for (int j = i; j < len; j++) str[j] = str[j+1];` with `left` rounds to go.
unfoldable pub shift : ℕ → ℕ → List ℕ → List ℕ
shift zero j s = s
shift (suc left) j s = shift left (suc j) (set s j (at s (suc j)))

-- The outer loop, with `len - i` as `left`.
unfoldable pub strip_from : ℕ → ℕ → ℕ → List ℕ → List ℕ
strip_from c zero i s = s
strip_from c (suc left) i s =
    let found = strip_from c left i (shift (suc left) i s) in
    let other = strip_from c left (suc i) s in if at s i == c then found else other

unfoldable pub strip_character : List ℕ → ℕ → List ℕ
strip_character s c = strip_from c (strlen s) 0 s

-- The loop stays at index 0 while it removes, and returns at the first other character.
pub strip_head : ℕ → ℕ → List ℕ → List ℕ
strip_head c zero s = s
strip_head c (suc left) s =
    let rest = strip_head c left (shift (suc left) 0 s) in if at s 0 == c then rest else s

pub strip_from_start : List ℕ → ℕ → List ℕ
strip_from_start s c = strip_head c (strlen s) s

-- The loop at index `i`, where `len` is never updated and a removal steps down twice.
unfoldable pub strip_tail : ℕ → ℕ → ℕ → List ℕ → List ℕ
strip_tail c len zero s = if at s 0 == c then shift len 0 s else s
strip_tail c len (suc zero) s = if at s 1 == c then shift (len - 1) 1 s else s
strip_tail c len (suc (suc i)) s =
    let rest = strip_tail c len i (shift (len - suc (suc i)) (suc (suc i)) s) in
    if at s (suc (suc i)) == c then rest else s

unfoldable pub strip_from_end : List ℕ → ℕ → List ℕ
strip_from_end s c = if strlen s == 0 then s else strip_tail c (strlen s) (strlen s - 1) s

-- The loop from index `i` with the current index, length and start of the piece.
pub take_from : List ℕ → ℕ → ℕ → ℕ → ℕ → ℕ → ℕ → ℕ → List ℕ
take_from str seperator index zero i curr_index len str_start =
    if curr_index == index then take len (drop str_start str) else take (strlen str) str
take_from str seperator index (suc left) i curr_index len str_start =
    let next = take_from str seperator index left (suc i) (suc curr_index) 0 (suc i) in
    let on = take_from str seperator index left (suc i) curr_index (suc len) str_start in
    if at str i == seperator
    then (if curr_index == index then take len (drop str_start str) else next)
    else on

-- The copy that is returned, without its terminator.
pub seperate_and_take : List ℕ → ℕ → ℕ → List ℕ
seperate_and_take str seperator index = take_from str seperator index (strlen str) 0 0 0 0

pub count_from : List ℕ → ℕ → ℕ → ℕ → ℕ → ℕ
count_from str seperator zero i count = count
count_from str seperator (suc left) i count =
    count_from str seperator left (suc i) (if at str i == seperator then suc count else count)

-- The loop starts at index 1.
pub count_substrings : List ℕ → ℕ → ℕ
count_substrings str seperator = count_from str seperator (strlen str - 1) 1 1

pub same_from : List ℕ → List ℕ → ℕ → ℕ → Bool
same_from s1 s2 zero i = true
same_from s1 s2 (suc left) i =
    let rest = same_from s1 s2 left (suc i) in if at s1 i == at s2 i then rest else false

pub strcmp : List ℕ → List ℕ → Bool
strcmp s1 s2 = if strlen s1 == strlen s2 then same_from s1 s2 (strlen s1) 0 else false

-- The loop down from index `i - 1`, on `uint32_t`, for characters below 128, whose sign is plus.
pub decimal_from : List ℕ → ℕ → ℕ → ℕ → ℕ
decimal_from str zero result power = result
decimal_from str (suc i) result power =
    decimal_from str i ((result + (at str i + 2 ^ 32 - b'0') % 2 ^ 32 * power) % 2 ^ 32)
      (power * 10 % 2 ^ 32)

pub decimal_to_uint : List ℕ → ℕ
decimal_to_uint str = decimal_from str (strlen str) 0 1

-- `digits[d]` for a digit below 16.
pub digit : ℕ → ℕ
digit d = if ltb d 10 then b'0' + d else b'A' + (d - 10)

-- `do { n_of_digits++; temp_n /= base; } while (temp_n);` A 32-bit number has at most 32 digits.
pub digit_count : ℕ → ℕ → ℕ → ℕ
digit_count zero base n = 0
digit_count (suc fuel) base n =
    let rest = digit_count fuel base (n / base) in if n / base == 0 then 1 else suc rest

-- The last loop, which writes the digits downwards; `pos` is n_of_digits - i, one above the next, and
-- `none` is a write in front of the buffer.
pub write_digits : ℕ → ℕ → ℕ → ℕ → List ℕ → Option (List ℕ)
write_digits zero base n pos s = some s
write_digits (suc fuel) base n zero s = none
write_digits (suc fuel) base n (suc pos) s =
    let s' = set s pos (digit (n % base)) in
    let rest = write_digits fuel base (n / base) pos s' in if n / base == 0 then some s' else rest

-- `buffer[n_of_digits] = 0;`
pub terminated : ℕ → Option (List ℕ) → Option (List ℕ)
terminated n none = none
terminated n (some s) = some (set s n 0)

pub zeros_from : ℕ → ℕ → List ℕ → List ℕ
zeros_from zero i s = s
zeros_from (suc left) i s = zeros_from left (suc i) (set s i b'0')

-- An `int` other than INT_MIN is its sign and its magnitude `n`; a padding is not negative.
pub int_to_str_padding : Bool → ℕ → List ℕ → ℕ → ℕ → Option (List ℕ)
int_to_str_padding neg n buffer base padding =
    let sign : ℕ = if neg then 1 else 0 in
    let n_of_digits = digit_count 32 base n + sign in
    let zeros = padding - n_of_digits in
    let signed = if neg then set buffer 0 b'-' else buffer in
    let padded = zeros_from zeros sign signed in
    terminated (n_of_digits + zeros) (write_digits 32 base n (n_of_digits + zeros) padded)

pub int_to_str : Bool → ℕ → List ℕ → ℕ → Option (List ℕ)
int_to_str neg n buffer base = int_to_str_padding neg n buffer base 0

pub byte_to_str : ℕ → List ℕ → ℕ → Option (List ℕ)
byte_to_str n buffer base = terminated 2 (write_digits 32 base n 2 (set buffer 0 b'0'))

-- The digits are counted on the `int` of the same bits and written from the `uint32_t`.
pub uint_to_str : ℕ → List ℕ → ℕ → Option (List ℕ)
uint_to_str n buffer base =
    let magnitude = if ltb n (2 ^ 31) then n else 2 ^ 32 - n in
    let n_of_digits = digit_count 32 base magnitude in
    terminated n_of_digits (write_digits 32 base n n_of_digits buffer)
