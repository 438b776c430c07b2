-- ===== src/Descriptors/Decode.antt =====
-- What the processor reads from the entries is what was put in.
use osdev_graphical.Base.{
  ℕ, ◌+◌, ◌*◌, ◌/◌, ◌%◌, ◌^◌, ◌≤◌, ◌<◌, ◌≡◌, ◌≢◌, refl, arith, ◌∙◌, ap, bit_and, bit_or, true,
  false, ◌==◌, ltb, Bool-cases, inl, inr,
}
use osdev_graphical.Bits.{or-place}
use osdev_graphical.Bits.Places.{and-byte, and-word, and_hex, and_low}
use osdev_graphical.Descriptors.{GdtDescriptor, IdtEntry, gdt_set_descriptor, idt_set_gate}

-- The base, the limit of 20 bits and the flags above it, as the processor puts them together.
abbrev pub base_of : GdtDescriptor → ℕ
base_of d = d.base_lo + d.base_mid * 2 ^ 16 + d.base_hi * 2 ^ 24

abbrev pub limit_of : GdtDescriptor → ℕ
limit_of d = d.limit + d.grand % 2 ^ 4 * 2 ^ 16

abbrev pub granularity_of : GdtDescriptor → ℕ
granularity_of d = d.grand / 2 ^ 4

-- The granularity byte.
grand_lem :
    (high grand : ℕ)
    → grand < 2 ^ 8
    → bit_or (bit_and high 0x0f) (bit_and grand 0xf0) ≡ high % 2 ^ 4 + grand / 2 ^ 4 * 2 ^ 4
grand_lem high grand h =
    let upper : bit_and grand 0xf0 ≡ grand / 2 ^ 4 * 2 ^ 4 =
      omega (arith, and_hex grand 15, and_low (grand / 16)) in
    ap (bit_or (bit_and high 0x0f)) upper
    ∙ ap (λ (t : ℕ). bit_or t (grand / 2 ^ 4 * 2 ^ 4)) (and_low high)
    ∙ or-place 4 (high % 2 ^ 4) (grand / 2 ^ 4) (omega arith)

-- What the processor reads from a descriptor.
pub record IsDescriptor (d : GdtDescriptor) (base limit access granularity : ℕ) : Type 0 where
  pub base_read : base_of d ≡ base
  pub limit_read : limit_of d ≡ limit
  pub access_read : d.flags ≡ access
  pub granularity_read : granularity_of d ≡ granularity

-- For an index up to 6, one behind the table's last entry among them, `gdt_set_descriptor` makes an
-- entry from which the processor reads the base, the low 20 bits of the limit, the access byte and the
-- upper half of the granularity byte, and changes no other entry; for a greater index it changes none.
pub gdt_set_descriptor-IsDescriptor :
    (table : ℕ → GdtDescriptor) (i base limit access grand : ℕ)
    → base < 2 ^ 32
    → grand < 2 ^ 8
    → let table' = gdt_set_descriptor table i base limit access grand in
      (i ≤ 6 → IsDescriptor (table' i) base (limit % 2 ^ 20) access (grand / 2 ^ 4))
      × ((j : ℕ) → j ≢ i → table' j ≡ table j)
      × (6 < i → (j : ℕ) → table' j ≡ table j)
unfolding gdt_set_descriptor
gdt_set_descriptor-IsDescriptor table i base limit access grand hb hg = (
  λ l.
      let inside : ltb 6 i ≡ false = ground arith in
      let self : (i == i) ≡ true = ground arith in
      let g = grand_lem (limit / 2 ^ 16) grand hg in
      rw (inside, self)
        (record {
          base_read =
              omega (arith, and-word base, and-byte (base / 2 ^ 16), and-byte (base / 2 ^ 24));
          limit_read = omega (arith, and-word limit, g);
          access_read = refl;
          granularity_read = omega (arith, g);
        }),
  λ j n.
      let other : (j == i) ≡ false = ground arith in
      elim (Bool-cases (ltb 6 i)) [ inl t ↦ rw t refl | inr f ↦ rw (f, other) refl ],
  λ l j. (let outside : ltb 6 i ≡ true = ground arith in rw outside refl),
)

-- A gate's two halves put together are the handler's address, with the selector and the flags that
-- every gate has or that were given, and no other gate changes.
pub idt_set_gate-address :
    (table : ℕ → IdtEntry) (vector isr flags : ℕ)
    → isr < 2 ^ 32
    → let table' = idt_set_gate table vector isr flags in
      ((table' vector).isr_low + (table' vector).isr_high * 2 ^ 16 ≡ isr)
      × ((table' vector).kernel_cs ≡ 8)
      × ((table' vector).attributes ≡ flags)
      × ((j : ℕ) → j ≢ vector → table' j ≡ table j)
unfolding idt_set_gate
idt_set_gate-address table vector isr flags h =
    let self : (vector == vector) ≡ true = ground arith in
    (
      rw self (omega (arith, and-word isr)),
      rw self refl,
      rw self refl,
      λ j n. (let other : (j == vector) ≡ false = ground arith in rw other refl),
    )
