-- ===== src/Mm/Paging.antt =====
-- The page tables of kernel/src/mm/paging.c over the page allocator. A table is named by the physical
-- address of its page, since the kernel reaches every page at a fixed distance, HHDM_OFFSET; its entries
-- are a function of that address and the index. A NULL table is `none`. The flush of the TLB, the load
-- of CR3 and the messages are left out; the endless `hlt` of a failed start is `none`.
pub mod Walk
pub mod Grow
pub mod Leaf
pub mod Step
pub mod Map
pub mod Uses
pub mod Range
pub mod Tests
use sudo_os.Prelude.{
  ℕ, zero, suc, ◌+◌, ◌-◌, ◌*◌, ◌/◌, ◌%◌, ◌^◌, Bool, true, false, ◌&&◌, ◌||◌, Option, none, some,
  List, [], ◌∷◌, ◌==◌, leb, ltb, if◌then◌else◌, bit_or,
}
use sudo_os.Prelude.Words.{add64, page_size, align_down, align_up}
use sudo_os.Mm.Pmm.{Pmm, pmm_alloc_page, pmm_free_page}
use sudo_os.Mm.Boot.{Entry, usable}

pub record Machine : Type 0 where
  pub pmm : Pmm
  pub tables : ℕ → ℕ → ℕ

-- PTE_PRESENT is bit 0.
abbrev pub is_present : ℕ → Bool
is_present entry = entry % 2 == 1

-- `entry & PTE_ADDR_MASK`: bits 12 to 51.
abbrev pub pte_get_addr : ℕ → ℕ
pte_get_addr entry = entry / 2 ^ 12 % 2 ^ 40 * 2 ^ 12

abbrev pub pml4_idx : ℕ → ℕ
pml4_idx va = va / 2 ^ 39 % 512

abbrev pub pdpt_idx : ℕ → ℕ
pdpt_idx va = va / 2 ^ 30 % 512

abbrev pub pd_idx : ℕ → ℕ
pd_idx va = va / 2 ^ 21 % 512

abbrev pub pt_idx : ℕ → ℕ
pt_idx va = va / 2 ^ 12 % 512

-- `t->entries[i] = entry`, and `memset(t, 0, PAGE_SIZE)`.
abbrev pub write_entry : (ℕ → ℕ → ℕ) → ℕ → ℕ → ℕ → ℕ → ℕ → ℕ
write_entry tables t i entry u j = if u == t && j == i then entry else tables u j

abbrev pub clear_table : (ℕ → ℕ → ℕ) → ℕ → ℕ → ℕ → ℕ
clear_table tables t u j = if u == t then 0 else tables u j

-- The part of `get_next_table` that makes a table.
unfoldable pub new_table : Machine → ℕ → ℕ → ℕ → Option ℕ × Machine
new_table m pgtable index flags =
    let (newpg_pa, pmm) = pmm_alloc_page m.pmm in
    if newpg_pa == 0 then (none, record m { pmm = pmm }) else (
      some newpg_pa,
      record {
        pmm = pmm;
        tables = write_entry (clear_table m.tables newpg_pa) pgtable index (bit_or newpg_pa flags);
      },
    )

unfoldable pub get_next_table : Machine → ℕ → ℕ → Bool → ℕ → Option ℕ × Machine
get_next_table m pgtable index allocate flags =
    let entry = m.tables pgtable index in
    if is_present entry
    then (some (pte_get_addr entry), m)
    else (if allocate then new_table m pgtable index flags else (none, m))

-- The check after each call: NULL returns.
abbrev pub or_return : Option ℕ × Machine → (ℕ → Machine → Machine) → Machine
or_return r go = elim r.0 [ none ↦ r.1 | some t ↦ go t r.1 ]

-- The last level: the entry for the page itself.
abbrev pub set_page : ℕ → ℕ → ℕ → ℕ → Machine → Machine
set_page va pa flags pt m = record m {
  tables = write_entry m.tables pt (pt_idx va) (bit_or (bit_or pa flags) 1);
}

unfoldable pub vmm_map_page : Machine → ℕ → ℕ → ℕ → ℕ → Machine
vmm_map_page m pml4 va pa flags =
    or_return (get_next_table m pml4 (pml4_idx va) true flags) λ pdpt m1.
      or_return (get_next_table m1 pdpt (pdpt_idx va) true flags)
        λ pd m2. or_return (get_next_table m2 pd (pd_idx va) true flags) (set_page va pa flags)

-- `vmm_get_pte`: the table and the index of the entry; the calls allocate nothing.
unfoldable pub vmm_get_pte : Machine → ℕ → ℕ → Option (ℕ × ℕ)
vmm_get_pte m pml4 va = elim (get_next_table m pml4 (pml4_idx va) false 0).0 [
  | none ↦ none
  | some pdpt ↦ elim (get_next_table m pdpt (pdpt_idx va) false 0).0 [
    | none ↦ none
    | some pd ↦ elim (get_next_table m pd (pd_idx va) false 0).0 [
      | none ↦ none
      | some pt ↦ some (pt, pt_idx va)
    ]
  ]
]

-- Whether an access through the tables at `pml4` finds the page of `va`; if not, it is a page fault.
unfoldable pub has_page : Machine → ℕ → ℕ → Bool
has_page m pml4 va = elim (vmm_get_pte m pml4 va) [
  | none ↦ false
  | some (t, i) ↦ is_present (m.tables t i)
]

-- The loop of `user_pgtable_free_recursive` from index `i` on, with `n` rounds left; `below` frees a
-- table of the next level.
unfoldable pub free_entries : (Machine → ℕ → Machine) → Machine → ℕ → ℕ → ℕ → Machine
free_entries below m pgtable zero i = m
free_entries below m pgtable (suc n) i =
    let entry = m.tables pgtable i in
    let freed = below m (pte_get_addr entry) in
    free_entries below
      (if is_present entry
        then record freed { pmm = pmm_free_page freed.pmm (pte_get_addr entry) }
        else m)
      pgtable n (i + 1)

-- The level counts down to 1; of a PML4 only the first 256 entries are freed.
unfoldable pub user_pgtable_free_recursive : Machine → ℕ → ℕ → Machine
user_pgtable_free_recursive m pgtable zero = m
user_pgtable_free_recursive m pgtable (suc zero) = free_entries (λ m' t. m') m pgtable 512 0
user_pgtable_free_recursive m pgtable (suc (suc l)) =
    free_entries (λ m' t. user_pgtable_free_recursive m' t (suc l)) m pgtable
      (if l == 2 then 256 else 512) 0

-- `for (i = 0; i < n pages; i += PAGE_SIZE)` from an offset on.
unfoldable pub map_pages : Machine → ℕ → ℕ → ℕ → ℕ → ℕ → Machine
map_pages m pml4 va pa zero flags = m
map_pages m pml4 va pa (suc n) flags =
    map_pages (vmm_map_page m pml4 va pa flags) pml4 (add64 va page_size) (add64 pa page_size) n
      flags

-- PTE_PRESENT | PTE_RW
abbrev pub kernel_flags : ℕ
kernel_flags = 3

-- The types of memory that are mapped.
abbrev pub is_mapped_kind : ℕ → Bool
is_mapped_kind kind = kind == usable || kind == 6 || kind == 5 || kind == 7

-- One round of the loop over the memory map: the direct map, then the identity map below 4 GB.
unfoldable pub map_region : Machine → ℕ → ℕ → Entry → Machine
map_region m pml4 hhdm_offset e =
    if is_mapped_kind e.kind
    then (let start = align_down e.base page_size in
        let end = align_up (add64 e.base e.length) page_size in
        let m1 =
          map_pages m pml4 (add64 start hhdm_offset) start ((end - start) / page_size)
            kernel_flags in
        if leb 0x100000000 start
        then m1
        else (let low_end = if ltb 0x100000000 end then 0x100000000 else end in
            map_pages m1 pml4 start start ((low_end - start) / page_size) kernel_flags))
    else m

unfoldable pub map_regions : Machine → ℕ → ℕ → List Entry → Machine
map_regions m pml4 hhdm_offset [] = m
map_regions m pml4 hhdm_offset (e ∷ es) =
    map_regions (map_region m pml4 hhdm_offset e) pml4 hhdm_offset es

-- The response of the boot loader with the kernel's addresses.
pub record KernelAddress : Type 0 where
  pub virtual_base : ℕ
  pub physical_base : ℕ

-- What `paging_init` does once it has the page of the PML4 and the kernel's addresses.
abbrev pub fill_kernel_pml4 : Machine → ℕ → ℕ → ℕ → KernelAddress → List Entry → Machine
fill_kernel_pml4 m pml4 hhdm_offset kernel_size kaddr mmap =
    map_regions
      (map_pages m pml4 kaddr.virtual_base kaddr.physical_base (kernel_size / page_size)
        kernel_flags)
      pml4 hhdm_offset mmap

-- `paging_init` up to the load of CR3: the PML4 that it gets, and the tables. That load is left out, also its
-- fault where memory ran out before the kernel was mapped. The bounds of the kernel's image come from the
-- linker.
unfoldable pub paging_init :
    Machine → ℕ → ℕ → ℕ → Option KernelAddress → List Entry → Option (ℕ × Machine)
paging_init m hhdm_offset kernel_start kernel_end response mmap =
    let (pml4_pa, pmm) = pmm_alloc_page m.pmm in
    if pml4_pa == 0 then none else elim response [
      | none ↦ none
      | some kaddr ↦ some (
        pml4_pa,
        fill_kernel_pml4 (record { pmm = pmm; tables = clear_table m.tables pml4_pa }) pml4_pa
            hhdm_offset (align_up (kernel_end - kernel_start) page_size) kaddr mmap,
      )
    ]
