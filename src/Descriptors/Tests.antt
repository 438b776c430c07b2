-- ===== src/Descriptors/Tests.antt =====
-- kernel/gdt.c with the entry behind the last one of the table.
use osdev_graphical.Base.{ℕ, ◌≤◌, ◌<◌, ◌≡◌, ◌≢◌, arith}
use osdev_graphical.Descriptors.{GdtDescriptor, gdt_set_descriptor}
use osdev_graphical.Descriptors.Decode.{IsDescriptor, gdt_set_descriptor-IsDescriptor}

abbrev empty_table : ℕ → GdtDescriptor
empty_table i = record { limit = 0; base_lo = 0; base_mid = 0; flags = 0; grand = 0; base_hi = 0 }

abbrev written : ℕ → GdtDescriptor
written = gdt_set_descriptor empty_table 6 0x12345678 0xffffffff 0x9A 0xCF

gdt_set_descriptor-IsDescriptor_example :
    (6 ≤ 6 → IsDescriptor (written 6) 0x12345678 0xfffff 0x9A 0xC)
    × ((j : ℕ) → j ≢ 6 → written j ≡ empty_table j)
    × (6 < 6 → (j : ℕ) → written j ≡ empty_table j)
gdt_set_descriptor-IsDescriptor_example =
    gdt_set_descriptor-IsDescriptor empty_table 6 0x12345678 0xffffffff 0x9A 0xCF (omega arith)
      (omega arith)
