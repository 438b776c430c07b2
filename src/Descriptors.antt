-- ===== src/Descriptors.antt =====
-- kernel/gdt.c, kernel/idt.c and kernel/tss.c: the processor's tables. A table is a function of the
-- index; what lies behind its last entry is memory of something else.
pub mod Decode
mod Tests
use osdev_graphical.Base.{
  ℕ, ◌+◌, ◌-◌, ◌*◌, ◌/◌, ◌%◌, ◌^◌, bit_and, bit_or, Bool, true, false, if◌then◌else◌, ◌==◌, ltb,
}

pub record GdtDescriptor : Type 0 where
  pub limit : ℕ
  pub base_lo : ℕ
  pub base_mid : ℕ
  pub flags : ℕ
  pub grand : ℕ
  pub base_hi : ℕ

abbrev pub max_descriptors : ℕ
max_descriptors = 6

pub gdt_set_descriptor : (ℕ → GdtDescriptor) → ℕ → ℕ → ℕ → ℕ → ℕ → ℕ → GdtDescriptor
gdt_set_descriptor table i base limit access grand =
    let entry : GdtDescriptor = record {
      limit = bit_and limit 0xffff;
      base_lo = bit_and base 0xffff;
      base_mid = bit_and (base / 2 ^ 16) 0xff;
      flags = access;
      grand = bit_or (bit_and (limit / 2 ^ 16) 0x0f) (bit_and grand 0xf0);
      base_hi = bit_and (base / 2 ^ 24) 0xff;
    } in
    λ j. if ltb max_descriptors i then table j else if j == i then entry else table j

-- The granularity byte that all but the null descriptor get.
abbrev pub flat_grand : ℕ
flat_grand = 0xCF

-- The descriptors of `gdt_install`: null, code and data of the kernel, code and data of a user.
pub gdt_install : (ℕ → GdtDescriptor) → ℕ → GdtDescriptor
gdt_install table =
    let t0 = gdt_set_descriptor table 0 0 0 0 0 in
    let t1 = gdt_set_descriptor t0 1 0 0xffffffff 0x9A flat_grand in
    let t2 = gdt_set_descriptor t1 2 0 0xffffffff 0x92 flat_grand in
    let t3 = gdt_set_descriptor t2 3 0 0xffffffff 0xFA flat_grand in
    gdt_set_descriptor t3 4 0 0xffffffff 0xF2 flat_grand

-- `install_tss` up to the state segment itself, which lies at `base` and has `size` bytes.
pub install_tss_descriptor : (ℕ → GdtDescriptor) → ℕ → ℕ → ℕ → ℕ → GdtDescriptor
install_tss_descriptor table idx base size = gdt_set_descriptor table idx base (base + size) 0xE9 0

pub record IdtEntry : Type 0 where
  pub isr_low : ℕ
  pub kernel_cs : ℕ
  pub reserved : ℕ
  pub attributes : ℕ
  pub isr_high : ℕ

-- `vector` is a byte, and the table has 256 entries.
pub idt_set_gate : (ℕ → IdtEntry) → ℕ → ℕ → ℕ → ℕ → IdtEntry
idt_set_gate table vector isr flags j =
    if j == vector
    then record {
      isr_low = bit_and isr 0xFFFF;
      kernel_cs = 0x08;
      reserved = 0;
      attributes = flags;
      isr_high = isr / 2 ^ 16;
    }
    else table j

pub record Tss : Type 0 where
  pub ss0 : ℕ
  pub esp0 : ℕ

pub tss_set_stack : Tss → ℕ → ℕ → Tss
tss_set_stack t kernel_ss kernel_esp = record t { ss0 = kernel_ss; esp0 = kernel_esp }
