-- ===== src/Paging/Laws.antt =====
-- The fields of an entry: the frame is `e / 4096`, and bit 0 says that it is present.
use osdev_graphical.Base.{
  ℕ, ◌+◌, ◌-◌, ◌*◌, ◌/◌, ◌%◌, ◌^◌, ◌<◌, max, bit_and, bit_or, ◌≡◌, refl, arith, ◌==◌, ◌∙◌, ap,
}
use osdev_graphical.Bits.{or_step, and_step, and-zero, zero-or, or-zero, or-lt, and-le}
use osdev_graphical.Paging.{
  flag_frame, flag_present, pt_entry_add_attrib, pt_entry_del_attrib, pt_entry_set_frame,
  pt_entry_is_present, pt_entry_pfn, pd_entry_add_attrib, pd_entry_del_attrib, pd_entry_set_frame,
  pd_entry_is_present, pd_entry_pfn, page_directory_index, page_table_index, frame_offset,
}

-- Four bits of a mask at a time.
pub nibble_ones : (a b : ℕ) → b % 16 ≡ 15 → bit_and a b ≡ bit_and (a / 16) (b / 16) * 16 + a % 16
nibble_ones a b h = omega (
  arith,
  and_step a b,
  and_step (a / 2) (b / 2),
  and_step (a / 2 / 2) (b / 2 / 2),
  and_step (a / 2 / 2 / 2) (b / 2 / 2 / 2),
  ap (λ (t : ℕ). bit_and t (b / 16)) (halves a),
  ap (bit_and (a / 2 / 2 / 2 / 2)) (halves b),
)
  where
    halves : (x : ℕ) → x / 2 / 2 / 2 / 2 ≡ x / 16
    halves x = omega arith

pub nibble_zeros : (a b : ℕ) → b % 16 ≡ 0 → bit_and a b ≡ bit_and (a / 16) (b / 16) * 16
nibble_zeros a b h = omega (
  arith,
  and_step a b,
  and_step (a / 2) (b / 2),
  and_step (a / 2 / 2) (b / 2 / 2),
  and_step (a / 2 / 2 / 2) (b / 2 / 2 / 2),
  ap (λ (t : ℕ). bit_and t (b / 16)) (halves a),
  ap (bit_and (a / 2 / 2 / 2 / 2)) (halves b),
)
  where
    halves : (x : ℕ) → x / 2 / 2 / 2 / 2 ≡ x / 16
    halves x = omega arith

pub and-fff : (a : ℕ) → bit_and a 0xfff ≡ a % 4096
and-fff a = omega (
  arith,
  nibble_ones a 0xfff refl,
  nibble_ones (a / 16) 0xff refl,
  nibble_ones (a / 16 / 16) 0xf refl,
  and-zero (a / 16 / 16 / 16),
)

pub and-3ff : (a : ℕ) → bit_and a 0x3ff ≡ a % 1024
and-3ff a = omega (
  arith,
  nibble_ones a 0x3ff refl,
  nibble_ones (a / 16) 0x3f refl,
  and_step (a / 16 / 16) 3,
  and_step (a / 16 / 16 / 2) 1,
  and-zero (a / 16 / 16 / 2 / 2),
)

pub and-frame : (a : ℕ) → a < 2 ^ 32 → bit_and a flag_frame ≡ a / 4096 * 4096
and-frame a h = omega (
  arith,
  nibble_zeros a 0xffff_f000 refl,
  nibble_zeros (a / 16) 0x0fff_ff00 refl,
  nibble_zeros (a / 16 / 16) 0x00ff_fff0 refl,
  nibble_ones (a / 16 / 16 / 16) 0x000f_ffff refl,
  nibble_ones (a / 16 / 16 / 16 / 16) 0xffff refl,
  nibble_ones (a / 16 / 16 / 16 / 16 / 16) 0xfff refl,
  nibble_ones (a / 16 / 16 / 16 / 16 / 16 / 16) 0xff refl,
  nibble_ones (a / 16 / 16 / 16 / 16 / 16 / 16 / 16) 0xf refl,
  and-zero (a / 16 / 16 / 16 / 16 / 16 / 16 / 16 / 16),
)

or_nibble : (a b : ℕ) → bit_or a b / 16 ≡ bit_or (a / 16) (b / 16)
or_nibble a b = omega (
  arith,
  or_step a b,
  or_step (a / 2) (b / 2),
  or_step (a / 2 / 2) (b / 2 / 2),
  or_step (a / 2 / 2 / 2) (b / 2 / 2 / 2),
  ap (λ (t : ℕ). bit_or t (b / 16)) (halves a),
  ap (bit_or (a / 2 / 2 / 2 / 2)) (halves b),
)
  where
    halves : (x : ℕ) → x / 2 / 2 / 2 / 2 ≡ x / 16
    halves x = omega arith

or-page : (a b : ℕ) → bit_or a b / 4096 ≡ bit_or (a / 4096) (b / 4096)
or-page a b = omega (
  arith,
  or_nibble a b,
  or_nibble (a / 16) (b / 16),
  or_nibble (a / 16 / 16) (b / 16 / 16),
  ap (λ (t : ℕ). bit_or t (b / 4096)) (thirds a),
  ap (bit_or (a / 16 / 16 / 16)) (thirds b),
)
  where
    thirds : (x : ℕ) → x / 16 / 16 / 16 ≡ x / 4096
    thirds x = omega arith

-- Flags below the frame leave the frame alone.
pub add_flags :
    (e a : ℕ)
    → e < 2 ^ 32
    → a < 4096
    → (bit_or e a / 4096 ≡ e / 4096)
      × (bit_or e a % 2 ≡ max (e % 2) (a % 2))
      × (bit_or e a < 2 ^ 32)
add_flags e a he ha = (
  or-page e a ∙ (let z : a / 4096 ≡ 0 = omega arith in rw z (or-zero (e / 4096))),
  omega (arith, or_step e a),
  or-lt 32 e a he (omega arith),
)

set_frame_lem :
    (e p : ℕ)
    → e < 2 ^ 32
    → p < 2 ^ 32
    → let r = bit_or (bit_and e (2 ^ 32 - 1 - flag_frame)) (bit_and p flag_frame) in
      (r / 4096 ≡ p / 4096) × (r % 2 ≡ e % 2) × (r < 2 ^ 32)
set_frame_lem e p he hp =
    rw (and-fff e, and-frame p hp)
      (
        or-page (e % 4096) (p / 4096 * 4096)
            ∙ (let z : e % 4096 / 4096 ≡ 0 = omega arith in
                let q : p / 4096 * 4096 / 4096 ≡ p / 4096 = omega arith in
                rw (z, q) (zero-or (p / 4096))),
        omega (arith, or_step (e % 4096) (p / 4096 * 4096)),
        or-lt 32 (e % 4096) (p / 4096 * 4096) (omega arith) (omega arith),
      )

-- An entry that is given a frame keeps its present bit.
pub pt-set_frame :
    (e p : ℕ)
    → e < 2 ^ 32
    → p < 2 ^ 32
    → (pt_entry_set_frame e p / 4096 ≡ p / 4096)
      × (pt_entry_set_frame e p % 2 ≡ e % 2)
      × (pt_entry_set_frame e p < 2 ^ 32)
unfolding pt_entry_set_frame pt_entry_del_attrib
pt-set_frame = set_frame_lem

pub pd-set_frame :
    (e p : ℕ)
    → e < 2 ^ 32
    → p < 2 ^ 32
    → (pd_entry_set_frame e p / 4096 ≡ p / 4096)
      × (pd_entry_set_frame e p % 2 ≡ e % 2)
      × (pd_entry_set_frame e p < 2 ^ 32)
unfolding pd_entry_set_frame pd_entry_del_attrib
pd-set_frame = set_frame_lem

pub pt-add :
    (e a : ℕ)
    → e < 2 ^ 32
    → a < 4096
    → (pt_entry_add_attrib e a / 4096 ≡ e / 4096)
      × (pt_entry_add_attrib e a % 2 ≡ max (e % 2) (a % 2))
      × (pt_entry_add_attrib e a < 2 ^ 32)
unfolding pt_entry_add_attrib
pt-add = add_flags

pub pd-add :
    (e a : ℕ)
    → e < 2 ^ 32
    → a < 4096
    → (pd_entry_add_attrib e a / 4096 ≡ e / 4096)
      × (pd_entry_add_attrib e a % 2 ≡ max (e % 2) (a % 2))
      × (pd_entry_add_attrib e a < 2 ^ 32)
unfolding pd_entry_add_attrib
pd-add = add_flags

present_lem : (e : ℕ) → bit_and e flag_present ≡ e % 2
present_lem e = omega (arith, and_step e 1, and-zero (e / 2))

pub pt-present : (e : ℕ) → pt_entry_is_present e ≡ (e % 2 == 1)
unfolding pt_entry_is_present
pt-present e = rw (present_lem e) (ground arith)

pub pd-present : (e : ℕ) → pd_entry_is_present e ≡ (e % 2 == 1)
unfolding pd_entry_is_present
pd-present e = rw (present_lem e) (ground arith)

pub pt-pfn : (e : ℕ) → e < 2 ^ 32 → pt_entry_pfn e ≡ e / 4096 * 4096
unfolding pt_entry_pfn
pt-pfn = and-frame

pub pd-pfn : (e : ℕ) → e < 2 ^ 32 → pd_entry_pfn e ≡ e / 4096 * 4096
unfolding pd_entry_pfn
pd-pfn = and-frame

-- The parts of a virtual address.
pub directory_index : (x : ℕ) → page_directory_index x ≡ x / 2 ^ 22 % 1024
unfolding page_directory_index
directory_index x = and-3ff (x / 2 ^ 22)

pub table_index : (x : ℕ) → page_table_index x ≡ x / 2 ^ 12 % 1024
unfolding page_table_index
table_index x = and-3ff (x / 2 ^ 12)

pub frame_offset_lem : (x : ℕ) → frame_offset x ≡ x % 4096
unfolding frame_offset
frame_offset_lem x = and-fff x

-- Taking the present bit off.
pub pt-del_present :
    (e : ℕ) → e < 2 ^ 32 → (pt_entry_del_attrib e 1 % 2 ≡ 0) × (pt_entry_del_attrib e 1 < 2 ^ 32)
unfolding pt_entry_del_attrib
pt-del_present e h =
    (omega (arith, and_step e (2 ^ 32 - 1 - 1)), omega (arith, and-le e (2 ^ 32 - 1 - 1)))
