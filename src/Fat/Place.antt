-- ===== src/Fat/Place.antt =====
-- The bytes of the disk that an entry's word stands in, before and after it is written.
use osdev_graphical.Base.{
  ℕ, ◌+◌, ◌-◌, ◌*◌, ◌/◌, ◌%◌, ◌<◌, ◌≡◌, refl, arith, ◌∙◌, ap, Bool-cases, inl, inr, true, false,
  if◌then◌else◌, ◌==◌, ltb, ==_iff,
}
use osdev_graphical.Fat.{
  Disk, write_sector, load_fat, save_fat, get_word, put_word, fat_offset, fat_sector, entry_offset,
  marked, set_entry,
}

-- The disk as one row of bytes, and where an entry's word stands in it.
abbrev pub byte : Disk → ℕ → ℕ
byte d a = d (a / 512) (a % 512)

abbrev pub place : ℕ → ℕ
place c = 512 + (c + c / 2)

-- Every byte is less than 256.
abbrev pub IsBytes : Disk → Type 0
IsBytes d = (s i : ℕ) → d s i < 256

load_lem : (d : Disk) (s i : ℕ) → i < 1024 → load_fat d s i ≡ byte d (512 * s + i)
unfolding load_fat
load_lem d s i h = elim (Bool-cases (ltb i 512)) [
  | inl e ↦
      let q : (512 * s + i) / 512 ≡ s = ground arith in
      let r : (512 * s + i) % 512 ≡ i = ground arith in rw (e, q, r) refl
  | inr e ↦
      let q : (512 * s + i) / 512 ≡ s + 1 = ground arith in
      let r : (512 * s + i) % 512 ≡ i - 512 = ground arith in rw (e, q, r) refl
]

pub word_lem :
    (d : Disk) (c : ℕ)
    → get_word (load_fat d (fat_sector c)) (entry_offset c)
      ≡ byte d (place c) + 256 * byte d (place c + 1)
unfolding get_word fat_sector entry_offset fat_offset
word_lem d c =
    let s = 1 + (c + c / 2) / 512 in
    let o = (c + c / 2) % 512 in
    let a0 : 512 * s + o ≡ place c = omega arith in
    let a1 : 512 * s + (o + 1) ≡ place c + 1 = omega arith in
    omega (
      arith,
      load_lem d s o (omega arith) ∙ ap (byte d) a0,
      load_lem d s (o + 1) (omega arith) ∙ ap (byte d) a1,
    )

save_lem :
    (d : Disk) (s o v a : ℕ)
    → o < 512
    → byte (save_fat d s (put_word (load_fat d s) o v)) a ≡ (
        if a == 512 * s + o
        then v % 256
        else (if a == 512 * s + o + 1 then v / 256 % 256 else byte d a))
unfolding save_fat write_sector put_word load_fat
save_lem d s o v a h =
    let inside : ltb (a % 512) 512 ≡ true = ground arith in
    elim (Bool-cases (a / 512 == s + 1)) [
      | inl e ↦
          let k : a / 512 ≡ s + 1 = (==_iff (a / 512) (s + 1)).0 e in
          let t1 : (512 + a % 512 == o) ≡ (a == 512 * s + o) = ground arith in
          let t2 : (512 + a % 512 == o + 1) ≡ (a == 512 * s + o + 1) = ground arith in
          let t3 : ltb (512 + a % 512) 512 ≡ false = ground arith in
          let t4 : 512 + a % 512 - 512 ≡ a % 512 = omega arith in
          rw (byte, save_fat, write_sector, e, inside, put_word, t1, t2, load_fat, t3, t4, k) refl
      | inr e ↦ elim (Bool-cases (a / 512 == s)) [
        | inl f ↦
            let k : a / 512 ≡ s = (==_iff (a / 512) s).0 f in
            let t1 : (a % 512 == o) ≡ (a == 512 * s + o) = ground arith in
            let t2 : (a % 512 == o + 1) ≡ (a == 512 * s + o + 1) = ground arith in
            rw (byte, save_fat, write_sector, e, f, inside, put_word, t1, t2, load_fat, k) refl
        | inr f ↦
            let t1 : (a == 512 * s + o) ≡ false = ground arith in
            let t2 : (a == 512 * s + o + 1) ≡ false = ground arith in
            rw (byte, save_fat, write_sector, e, f, t1, t2) refl
      ]
    ]

place_lem : (c : ℕ) → (512 * fat_sector c + entry_offset c ≡ place c) × (entry_offset c < 512)
unfolding fat_sector entry_offset fat_offset
place_lem c = (omega arith, omega arith)

-- The bytes of the disk after an entry is written.
pub set_entry_lem :
    (d : Disk) (c v a : ℕ)
    → let word = marked c v (byte d (place c) + 256 * byte d (place c + 1)) in
      byte (set_entry d c v) a ≡ (
        if a == place c
        then word % 256
        else (if a == place c + 1 then word / 256 % 256 else byte d a))
unfolding set_entry
set_entry_lem d c v a =
    let o = entry_offset c in
    let word = get_word (load_fat d (fat_sector c)) o in
    let here : 512 * fat_sector c + o ≡ place c = (place_lem c).0 in
    save_lem d (fat_sector c) o (marked c v word) a (place_lem c).1 ∙ rw (here, word_lem d c) refl
