-- ===== src/Fat/Entries.antt =====
-- An entry of the table that is written is read back, and the other entries stay as they are.
use osdev_graphical.Base.{
  ℕ, ◌+◌, ◌*◌, ◌/◌, ◌%◌, ◌<◌, ◌≡◌, arith, ◌∙◌, sym, ap, Bool-cases, ◌⊎◌, inl, inr, false,
  if◌then◌else◌, ◌==◌, ltb, ==_iff,
}
use osdev_graphical.Fat.Word.{entry_bits_lem, marked_lem}
use osdev_graphical.Fat.Place.{byte, place, IsBytes, word_lem, set_entry_lem}
use osdev_graphical.Fat.{
  Disk, write_sector, load_fat, save_fat, put_word, marked, fat_entry, set_entry,
}

entry_lem :
    (d : Disk) (c : ℕ)
    → let w = byte d (place c) + 256 * byte d (place c + 1) in
      fat_entry d c ≡ (if c % 2 == 1 then w / 16 else w % 4096)
unfolding fat_entry
entry_lem d c = rw (word_lem d c) (entry_bits_lem c (byte d (place c) + 256 * byte d (place c + 1)))

-- The word that is written, and its bytes.
marked-word :
    (d : Disk) (c v : ℕ)
    → IsBytes d
    → v < 4096
    → let w = byte d (place c) + 256 * byte d (place c + 1) in
      marked c v w ≡ (if c % 2 == 1 then v * 16 + w % 16 else w / 4096 * 4096 + v)
marked-word d c v b hv = marked_lem c v _ hv (
    omega (arith, b (place c / 512) (place c % 512), b ((place c + 1) / 512) ((place c + 1) % 512)))

entry_same : (d : Disk) (c v : ℕ) → IsBytes d → v < 4096 → fat_entry (set_entry d c v) c ≡ v
entry_same d c v b hv =
    let m = marked-word d c v b hv in
    let lo = set_entry_lem d c v (place c) in
    let hi = set_entry_lem d c v (place c + 1) in
    let e = entry_lem (set_entry d c v) c in
    let b0 = b (place c / 512) (place c % 512) in
    let b1 = b ((place c + 1) / 512) ((place c + 1) % 512) in ground (arith, m, lo, hi, e, b0, b1)

entry_apart :
    (d : Disk) (c v n : ℕ)
    → (n + 1 < c) ⊎ (c + 1 < n)
    → fat_entry (set_entry d c v) n ≡ fat_entry d n
entry_apart d c v n h =
    let lo : byte (set_entry d c v) (place n) ≡ byte d (place n) =
      ground (arith, set_entry_lem d c v (place n)) in
    let hi : byte (set_entry d c v) (place n + 1) ≡ byte d (place n + 1) =
      ground (arith, set_entry_lem d c v (place n + 1)) in
    entry_lem (set_entry d c v) n ∙ rw (lo, hi) (sym (entry_lem d n))

entry_before :
    (d : Disk) (n v : ℕ)
    → IsBytes d
    → v < 4096
    → fat_entry (set_entry d (n + 1) v) n ≡ fat_entry d n
entry_before d n v b hv =
    let c = n + 1 in
    let lo : byte (set_entry d c v) (place n) ≡ byte d (place n) =
      ground (arith, set_entry_lem d c v (place n)) in
    elim (Bool-cases (n % 2 == 1)) [
      | inl e ↦
          let hi : byte (set_entry d c v) (place n + 1) ≡ byte d (place n + 1) =
            ground (arith, set_entry_lem d c v (place n + 1)) in
          entry_lem (set_entry d c v) n ∙ rw (lo, hi) (sym (entry_lem d n))
      | inr e ↦
          let shared : place n + 1 ≡ place c = ground arith in
          let hi : byte (set_entry d c v) (place n + 1)
              ≡ marked c v (byte d (place c) + 256 * byte d (place c + 1)) % 256 =
            ground (arith, set_entry_lem d c v (place n + 1)) in
          ground (
            arith,
            lo,
            hi,
            ap (byte d) shared,
            marked-word d c v b hv,
            entry_lem (set_entry d c v) n,
            entry_lem d n,
          )
    ]

entry_after :
    (d : Disk) (c v : ℕ)
    → IsBytes d
    → v < 4096
    → fat_entry (set_entry d c v) (c + 1) ≡ fat_entry d (c + 1)
entry_after d c v b hv =
    let n = c + 1 in
    let hi : byte (set_entry d c v) (place n + 1) ≡ byte d (place n + 1) =
      ground (arith, set_entry_lem d c v (place n + 1)) in
    elim (Bool-cases (c % 2 == 1)) [
      | inl e ↦
          let lo : byte (set_entry d c v) (place n) ≡ byte d (place n) =
            ground (arith, set_entry_lem d c v (place n)) in
          entry_lem (set_entry d c v) n ∙ rw (lo, hi) (sym (entry_lem d n))
      | inr e ↦
          let shared : place n ≡ place c + 1 = ground arith in
          let m = marked c v (byte d (place c) + 256 * byte d (place c + 1)) in
          let lo : byte (set_entry d c v) (place n) ≡ m / 256 % 256 =
            ground (arith, set_entry_lem d c v (place n)) in
          ground (
            arith,
            lo,
            hi,
            ap (byte d) shared,
            b (place c / 512) (place c % 512),
            b (place n / 512) (place n % 512),
            marked-word d c v b hv,
            entry_lem (set_entry d c v) n,
            entry_lem d n,
          )
    ]

set_entry-IsBytes : (d : Disk) (c v : ℕ) → IsBytes d → IsBytes (set_entry d c v)
unfolding set_entry save_fat write_sector put_word load_fat
set_entry-IsBytes d c v b s i = ground (arith, b s i)

-- On a disk of bytes, when `v` has 12 bits: after entry `c` of the table is written as `v`, entry `c`
-- reads `v`, every other entry reads what it read before, and the disk is still one of bytes.
pub set_entry-entry :
    (d : Disk) (c v n : ℕ)
    → IsBytes d
    → v < 4096
    → (fat_entry (set_entry d c v) n ≡ (if n == c then v else fat_entry d n))
      × IsBytes (set_entry d c v)
set_entry-entry d c v n b hv = (
  elim (Bool-cases (n == c)) [
    | inl e ↦ rw e (ap (fat_entry (set_entry d c v)) ((==_iff n c).0 e) ∙ entry_same d c v b hv)
    | inr e ↦ rw e (elim (Bool-cases (n + 1 == c)) [
      | inl f ↦
          let k : n + 1 ≡ c = (==_iff (n + 1) c).0 f in
          ap (λ (t : ℕ). fat_entry (set_entry d t v) n) (sym k) ∙ entry_before d n v b hv
      | inr f ↦ elim (Bool-cases (n == c + 1)) [
        | inl g ↦
            let k : n ≡ c + 1 = (==_iff n (c + 1)).0 g in
            ap (fat_entry (set_entry d c v)) k ∙ (entry_after d c v b hv ∙ ap (fat_entry d) (sym k))
        | inr g ↦ entry_apart d c v n (apart n c e f g)
      ]
    ])
  ],
  set_entry-IsBytes d c v b,
)
  where
    apart :
        (x y : ℕ)
        → (x == y) ≡ false
        → (x + 1 == y) ≡ false
        → (x == y + 1) ≡ false
        → (x + 1 < y) ⊎ (y + 1 < x)
    apart x y p q r = elim (Bool-cases (ltb x y)) [
      | inl h ↦ inl (ground arith)
      | inr h ↦ inr (ground arith)
    ]
