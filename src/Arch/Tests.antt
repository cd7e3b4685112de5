-- ===== src/Arch/Tests.antt =====
-- The tables of kernel/src/arch at concrete addresses.
use sudo_os.Prelude.{ℕ, ◌+◌, ◌-◌, ◌/◌, ◌%◌, ◌^◌, ◌<◌, ◌≡◌, arith, true, [], ◌∷◌, replicate, get_or}
use sudo_os.Arch.Gates.{GdtEntry, gdt_limit, no_gdt_entry, no_idt_entry}
use sudo_os.Arch.Tables.{
  Segments, Interrupts, gdt_init, set_tss_stack, idt_init, tss_size, tss_address, is_set_up, dpl,
  Guarded, gdt_init-read, idt_init-Guarded,
}

-- The TSS at 0xFFFF800000201000, and the stack at 0xFFFFB00000005000.
abbrev with_tss : Segments
with_tss =
    set_tss_stack
      (gdt_init
        (no_gdt_entry ∷ no_gdt_entry ∷ no_gdt_entry ∷ no_gdt_entry ∷ no_gdt_entry ∷ no_gdt_entry
          ∷ no_gdt_entry ∷ [])
        0xFFFF800000200000 0xFFFF800000201000)
      0xFFFFB00000005000

abbrev segment : ℕ → GdtEntry
segment i = get_or with_tss.gdt i no_gdt_entry

gdt_init-read_example :
    (tss_address (segment 5) (segment 6) ≡ 0xFFFF800000201000)
    × (gdt_limit (segment 5) ≡ tss_size - 1)
    × ((segment (8 / 8)).access ≡ 0x9A)
    × ((segment (0x23 / 8)).access ≡ 0xFA)
    × ((segment (8 / 8)).granularity ≡ 0x20)
    × ((segment (0x23 / 8)).granularity ≡ 0x20)
    × (with_tss.tss.rsp0 ≡ 0xFFFFB00000005000)
gdt_init-read_example =
    gdt_init-read no_gdt_entry no_gdt_entry no_gdt_entry no_gdt_entry no_gdt_entry no_gdt_entry
      no_gdt_entry 0xFFFF800000200000 0xFFFF800000201000 0xFFFFB00000005000 (omega arith)

abbrev entry_point : ℕ → ℕ
entry_point n = 0x100000 + n % 256

entry_point-fits : (n : ℕ) → entry_point n < 2 ^ 64
entry_point-fits n = omega arith

abbrev with_gates : Interrupts
with_gates = idt_init (replicate 256 no_idt_entry) 0xFFFF800000202000 entry_point

idt_init-Guarded_example :
    ((n : ℕ) → Guarded entry_point n (get_or with_gates.idt n no_idt_entry))
    × (is_set_up (get_or with_gates.idt 0 no_idt_entry).flags ≡ true)
    × (is_set_up (get_or with_gates.idt 14 no_idt_entry).flags ≡ true)
    × (is_set_up (get_or with_gates.idt 32 no_idt_entry).flags ≡ true)
    × (is_set_up (get_or with_gates.idt 33 no_idt_entry).flags ≡ true)
    × (is_set_up (get_or with_gates.idt 128 no_idt_entry).flags ≡ true)
    × (dpl (get_or with_gates.idt 128 no_idt_entry).flags ≡ 3)
idt_init-Guarded_example = idt_init-Guarded entry_point entry_point-fits 0xFFFF800000202000
