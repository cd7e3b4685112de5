-- ===== src/Arch/Gates.antt =====
-- `gdt_set_gate` of kernel/src/arch/gdt.c and `idt_set_gate` of kernel/src/arch/idt.c, which spread an
-- address over the fields of a descriptor, and the reading of the fields that the processor does.
use sudo_os.Prelude.{
  ℕ, ◌+◌, ◌*◌, ◌/◌, ◌%◌, ◌^◌, ◌<◌, ◌≡◌, arith, List, length, get_or, set, get_or-set_self,
}

-- `struct gdt_entry`
pub record GdtEntry : Type 0 where
  pub limit_low : ℕ
  pub base_low : ℕ
  pub base_middle : ℕ
  pub access : ℕ
  pub granularity : ℕ
  pub base_high : ℕ

-- The new entry. The two halves of `granularity` share no bit, so that `|` is `+`.
abbrev pub gdt_entry_of : ℕ → ℕ → ℕ → ℕ → GdtEntry
gdt_entry_of base limit access gran = record {
  limit_low = limit % 2 ^ 16;
  base_low = base % 2 ^ 16;
  base_middle = base / 2 ^ 16 % 2 ^ 8;
  access = access;
  granularity = limit / 2 ^ 16 % 2 ^ 4 + gran / 2 ^ 4 % 2 ^ 4 * 2 ^ 4;
  base_high = base / 2 ^ 24 % 2 ^ 8;
}

unfoldable pub gdt_set_gate : List GdtEntry → ℕ → ℕ → ℕ → ℕ → ℕ → List GdtEntry
gdt_set_gate gdt num base limit access gran = set gdt num (gdt_entry_of base limit access gran)

-- `struct idt_entry_struct`
pub record IdtEntry : Type 0 where
  pub base_low : ℕ
  pub selector : ℕ
  pub ist : ℕ
  pub flags : ℕ
  pub base_mid : ℕ
  pub base_high : ℕ
  pub reserved : ℕ

abbrev pub idt_entry_of : ℕ → ℕ → ℕ → IdtEntry
idt_entry_of base sel flags = record {
  base_low = base % 2 ^ 16;
  selector = sel;
  ist = 0;
  flags = flags;
  base_mid = base / 2 ^ 16 % 2 ^ 16;
  base_high = base / 2 ^ 32 % 2 ^ 32;
  reserved = 0;
}

unfoldable pub idt_set_gate : List IdtEntry → ℕ → ℕ → ℕ → ℕ → List IdtEntry
idt_set_gate idt num base sel flags = set idt num (idt_entry_of base sel flags)

-- What the processor reads from a descriptor.
unfoldable pub gdt_base : GdtEntry → ℕ
gdt_base e = e.base_low + e.base_middle * 2 ^ 16 + e.base_high * 2 ^ 24

unfoldable pub gdt_limit : GdtEntry → ℕ
gdt_limit e = e.limit_low + e.granularity % 2 ^ 4 * 2 ^ 16

unfoldable pub idt_base : IdtEntry → ℕ
idt_base e = e.base_low + e.base_mid * 2 ^ 16 + e.base_high * 2 ^ 32

abbrev pub no_gdt_entry : GdtEntry
no_gdt_entry = record {
  limit_low = 0;
  base_low = 0;
  base_middle = 0;
  access = 0;
  granularity = 0;
  base_high = 0;
}

abbrev pub no_idt_entry : IdtEntry
no_idt_entry = record {
  base_low = 0;
  selector = 0;
  ist = 0;
  flags = 0;
  base_mid = 0;
  base_high = 0;
  reserved = 0;
}

gdt_entry_of-read :
    (base limit access gran : ℕ)
    → limit < 2 ^ 20
    → let e = gdt_entry_of base limit access gran in
      (gdt_base e ≡ base % 2 ^ 32)
      × (gdt_limit e ≡ limit)
      × (e.access ≡ access)
      × (e.granularity / 2 ^ 4 ≡ gran / 2 ^ 4 % 2 ^ 4)
unfolding gdt_base gdt_limit
gdt_entry_of-read base limit access gran h = (omega arith, omega arith, omega arith, omega arith)

-- The processor reads from an entry of the GDT that `gdt_set_gate` has set the low 32 bits of the base,
-- the limit (if it has at most 20 bits), the access byte and the upper half of the flags.
gdt_set_gate-read :
    (gdt : List GdtEntry) (num base limit access gran : ℕ)
    → num < length gdt
    → limit < 2 ^ 20
    → let e = get_or (gdt_set_gate gdt num base limit access gran) num no_gdt_entry in
      (gdt_base e ≡ base % 2 ^ 32)
      × (gdt_limit e ≡ limit)
      × (e.access ≡ access)
      × (e.granularity / 2 ^ 4 ≡ gran / 2 ^ 4 % 2 ^ 4)
unfolding gdt_set_gate
gdt_set_gate-read gdt num base limit access gran inside h =
    rw (get_or-set_self gdt num (gdt_entry_of base limit access gran) no_gdt_entry inside)
      (gdt_entry_of-read base limit access gran h)

idt_entry_of-read :
    (base sel flags : ℕ) → base < 2 ^ 64 → idt_base (idt_entry_of base sel flags) ≡ base
unfolding idt_base
idt_entry_of-read base sel flags h = omega arith

-- The processor reads from an entry of the IDT that `idt_set_gate` has set the handler's whole address.
idt_set_gate-read :
    (idt : List IdtEntry) (num base sel flags : ℕ)
    → num < length idt
    → base < 2 ^ 64
    → idt_base (get_or (idt_set_gate idt num base sel flags) num no_idt_entry) ≡ base
unfolding idt_set_gate
idt_set_gate-read idt num base sel flags inside h =
    rw (get_or-set_self idt num (idt_entry_of base sel flags) no_idt_entry inside)
      (idt_entry_of-read base sel flags h)
