-- ===== src/Arch/Tables.antt =====
-- The tables that `gdt_init` of kernel/src/arch/gdt.c and `idt_init` of kernel/src/arch/idt.c fill. The addresses
-- of the tables, of the TSS and of the entry points in assembly are arguments; the registers that are loaded
-- are results, like the ports and bytes that `pic_remap` writes.
use native.Mathlib.Decide.{ℕ_discrete}
use sudo_os.Prelude.{
  ℕ, ◌+◌, ◌*◌, ◌-◌, ◌/◌, ◌%◌, ◌^◌, ◌<◌, ◌≡◌, ◌⊎◌, inl, inr, refl, arith, Bool, true, List, [], zero,
  suc, subst, length-set, length-replicate, ◌∙◌, ◌∷◌, ◌==◌, length, get_or, set, replicate,
  get_or-set_self, get_or-set_ne,
}
use sudo_os.Arch.Gates.{
  GdtEntry, gdt_set_gate, gdt_base, gdt_limit, no_gdt_entry, IdtEntry, idt_entry_of, idt_set_gate,
  idt_base, no_idt_entry,
}

-- `struct tss_entry`: the two fields that are ever set, the others are 0.
pub record Tss : Type 0 where
  pub rsp0 : ℕ
  pub iomap_base : ℕ

-- `struct gdt_ptr` and `struct idt_ptr_struct`
pub record TablePtr : Type 0 where
  pub limit : ℕ
  pub base : ℕ

pub record Segments : Type 0 where
  pub gdt : List GdtEntry
  pub tss : Tss
  pub gdtp : TablePtr

-- sizeof(struct tss_entry)
abbrev pub tss_size : ℕ
tss_size = 104

-- Two words of 32 bits over the eight bytes of an entry.
abbrev pub entry_of_words : ℕ → ℕ → GdtEntry
entry_of_words low high = record {
  limit_low = low % 2 ^ 16;
  base_low = low / 2 ^ 16 % 2 ^ 16;
  base_middle = high % 2 ^ 8;
  access = high / 2 ^ 8 % 2 ^ 8;
  granularity = high / 2 ^ 16 % 2 ^ 8;
  base_high = high / 2 ^ 24 % 2 ^ 8;
}

-- The access bytes of the segments, GDT_LONG_MODE is 0x20.
abbrev pub fill_gdt : List GdtEntry → ℕ → List GdtEntry
fill_gdt gdt tss_base =
    let g1 = gdt_set_gate (gdt_set_gate gdt 0 0 0 0 0) 1 0 0 0x9A 0x20 in
    let g2 = gdt_set_gate (gdt_set_gate g1 2 0 0 0x92 0) 3 0 0 0xF2 0 in
    let g3 = gdt_set_gate (gdt_set_gate g2 4 0 0 0xFA 0x20) 5 tss_base (tss_size - 1) 0x89 0 in
    set g3 6 (entry_of_words (tss_base / 2 ^ 32 % 2 ^ 32) 0)

unfoldable pub gdt_init : List GdtEntry → ℕ → ℕ → Segments
gdt_init gdt gdt_base tss_base = record {
  gdt = fill_gdt gdt tss_base;
  tss = record { rsp0 = 0; iomap_base = tss_size };
  gdtp = record { limit = 8 * 7 - 1; base = gdt_base };
}

unfoldable pub set_tss_stack : Segments → ℕ → Segments
set_tss_stack s kernel_stack = record s { tss = record s.tss { rsp0 = kernel_stack } }

-- The ports and bytes of `pic_remap`, in order.
abbrev pub pic_remap : List (ℕ × ℕ)
pic_remap =
    (0x20, 0x11)
    ∷ (0xA0, 0x11)
    ∷ (0x21, 0x20)
    ∷ (0xA1, 0x28)
    ∷ (0x21, 0x04)
    ∷ (0xA1, 0x02)
    ∷ (0x21, 0x01)
    ∷ (0xA1, 0x01)
    ∷ (0x21, 0)
    ∷ (0xA1, 0)
    ∷ []

pub record Interrupts : Type 0 where
  pub idt : List IdtEntry
  pub idt_ptr : TablePtr
  pub ports : List (ℕ × ℕ)

-- `isr n` is the address of the entry point `isrn`.
abbrev pub fill_idt : List IdtEntry → (ℕ → ℕ) → List IdtEntry
fill_idt idt isr =
    let i1 = idt_set_gate (idt_set_gate idt 0 (isr 0) 8 0x8E) 14 (isr 14) 8 0x8E in
    let i2 = idt_set_gate (idt_set_gate i1 32 (isr 32) 8 0x8E) 33 (isr 33) 8 0x8E in
    idt_set_gate i2 128 (isr 128) 8 0xEE

unfoldable pub idt_init : List IdtEntry → ℕ → (ℕ → ℕ) → Interrupts
idt_init idt idt_base isr = record {
  idt = fill_idt idt isr;
  idt_ptr = record { limit = 16 * 256 - 1; base = idt_base };
  ports = pic_remap;
}

-- What the processor reads: whether a segment or a gate is present, and the privilege level that may use it.
abbrev pub is_set_up : ℕ → Bool
is_set_up flags = flags / 2 ^ 7 % 2 == 1

abbrev pub dpl : ℕ → ℕ
dpl flags = flags / 2 ^ 5 % 4

-- The base of a descriptor of 16 bytes.
unfoldable pub tss_address : GdtEntry → GdtEntry → ℕ
tss_address low high = gdt_base low + (high.limit_low + high.base_low * 2 ^ 16) * 2 ^ 32

-- From entries 5 and 6 of the GDT that `gdt_init` leaves the processor reads the whole address of the TSS, and
-- the limit of entry 5 is the last byte of the TSS; the selectors that enter the kernel (8) and a user program (0x23)
-- name present segments of 64-bit code for privilege level 0 and 3. A later `set_tss_stack` changes none
-- of them.
pub gdt_init-read :
    (a b c d e f g : GdtEntry) (place tss_base stack : ℕ)
    → tss_base < 2 ^ 64
    → let s = set_tss_stack (gdt_init (a ∷ b ∷ c ∷ d ∷ e ∷ f ∷ g ∷ []) place tss_base) stack in
      let entry = λ (i : ℕ). get_or s.gdt i no_gdt_entry in
      (tss_address (entry 5) (entry 6) ≡ tss_base)
      × (gdt_limit (entry 5) ≡ tss_size - 1)
      × ((entry (8 / 8)).access ≡ 0x9A)
      × ((entry (0x23 / 8)).access ≡ 0xFA)
      × ((entry (8 / 8)).granularity ≡ 0x20)
      × ((entry (0x23 / 8)).granularity ≡ 0x20)
      × (s.tss.rsp0 ≡ stack)
unfolding gdt_init set_tss_stack gdt_set_gate tss_address gdt_base gdt_limit
gdt_init-read a b c d e f g place tss_base stack h =
    (omega arith, omega arith, refl, refl, refl, refl, refl)

-- A gate that is present leads to the entry point of its number, in the kernel's code segment, and only that of
-- number 128 may be used by a user program.
abbrev pub Guarded : (ℕ → ℕ) → ℕ → IdtEntry → Type 0
Guarded isr n gate =
    is_set_up gate.flags ≡ true
    → (idt_base gate ≡ isr n)
      × (gate.selector ≡ 8)
      × ((dpl gate.flags ≡ 0) ⊎ ((dpl gate.flags ≡ 3) × (n ≡ 128)))

module _ (isr : ℕ → ℕ) (fits : (n : ℕ) → isr n < 2 ^ 64) where
  idt_set_gate-Guarded :
      (idt : List IdtEntry) (num flags : ℕ)
      → ((dpl flags ≡ 0) ⊎ ((dpl flags ≡ 3) × (num ≡ 128)))
      → num < length idt
      → ((n : ℕ) → Guarded isr n (get_or idt n no_idt_entry))
      → (n : ℕ) → Guarded isr n (get_or (idt_set_gate idt num (isr num) 8 flags) n no_idt_entry)
  unfolding idt_set_gate idt_base
  idt_set_gate-Guarded idt num flags level inside all n = elim (ℕ_discrete num n) [
    | yes e ↦
        let at = get_or-set_self idt num (idt_entry_of (isr num) 8 flags) no_idt_entry inside in
        let low = fits num in
        subst
          (λ i.
            Guarded isr i (get_or (set idt num (idt_entry_of (isr num) 8 flags)) i no_idt_entry))
          e (rw at λ on. (omega arith, refl, level))
    | no ne ↦ rw (get_or-set_ne idt (idt_entry_of (isr num) 8 flags) no_idt_entry ne) (all n)
  ]

  no_gates : (k n : ℕ) → Guarded isr n (get_or (replicate k no_idt_entry) n no_idt_entry)
  no_gates k n = rw (no_gate k n) λ on. absurd (ground arith)
    where
      no_gate : (k n : ℕ) → get_or (replicate k no_idt_entry) n no_idt_entry ≡ no_idt_entry
      no_gate zero n = refl
      no_gate (suc k) zero = refl
      no_gate (suc k) (suc n) = no_gate k n

  -- After `idt_init` on the zeroed table, with the entry points below 2 ^ 64, every gate that is present leads to
  -- the entry point of its number in the kernel's code segment, and is for privilege level 0 but for that of number
  -- 128, which is for level 3. The gates 0, 14, 32, 33 and 128 are present.
  pub idt_init-Guarded :
      (place : ℕ)
      → let i = idt_init (replicate 256 no_idt_entry) place isr in
        ((n : ℕ) → Guarded isr n (get_or i.idt n no_idt_entry))
        × (is_set_up (get_or i.idt 0 no_idt_entry).flags ≡ true)
        × (is_set_up (get_or i.idt 14 no_idt_entry).flags ≡ true)
        × (is_set_up (get_or i.idt 32 no_idt_entry).flags ≡ true)
        × (is_set_up (get_or i.idt 33 no_idt_entry).flags ≡ true)
        × (is_set_up (get_or i.idt 128 no_idt_entry).flags ≡ true)
        × (dpl (get_or i.idt 128 no_idt_entry).flags ≡ 3)
  unfolding idt_init idt_set_gate
  idt_init-Guarded place =
      let i0 = replicate 256 no_idt_entry in
      let i1 = idt_set_gate i0 0 (isr 0) 8 0x8E in
      let i2 = idt_set_gate i1 14 (isr 14) 8 0x8E in
      let i3 = idt_set_gate i2 32 (isr 32) 8 0x8E in
      let i4 = idt_set_gate i3 33 (isr 33) 8 0x8E in
      let l0 : length i0 ≡ 256 = length-replicate 256 no_idt_entry in
      let l1 : length i1 ≡ 256 = kept i0 0 0x8E ∙ l0 in
      let l2 : length i2 ≡ 256 = kept i1 14 0x8E ∙ l1 in
      let l3 : length i3 ≡ 256 = kept i2 32 0x8E ∙ l2 in
      let l4 : length i4 ≡ 256 = kept i3 33 0x8E ∙ l3 in
      let g1 = idt_set_gate-Guarded i0 0 0x8E (inl refl) (omega (arith, l0)) (no_gates 256) in
      let g2 = idt_set_gate-Guarded i1 14 0x8E (inl refl) (omega (arith, l1)) g1 in
      let g3 = idt_set_gate-Guarded i2 32 0x8E (inl refl) (omega (arith, l2)) g2 in
      let g4 = idt_set_gate-Guarded i3 33 0x8E (inl refl) (omega (arith, l3)) g3 in
      (
        idt_set_gate-Guarded i4 128 0xEE (inr (refl, refl)) (omega (arith, l4)) g4,
        refl,
        refl,
        refl,
        refl,
        refl,
        refl,
      )
    where
      kept :
          (idt : List IdtEntry) (num flags : ℕ)
          → length (idt_set_gate idt num (isr num) 8 flags) ≡ length idt
      kept idt num flags = length-set idt num (idt_entry_of (isr num) 8 flags)
