-- ===== src/Mm/Paging/Range.antt =====
-- The mapping of a range of pages in `paging_init` of kernel/src/mm/paging.c, and the tables that it
-- starts with.
use native.Mathlib.Decide.{ℕ_discrete}
use sudo_os.Prelude.{
  Bool, ℕ, zero, suc, ◌+◌, ◌-◌, ◌*◌, ◌/◌, ◌%◌, ◌^◌, ◌≤◌, ◌<◌, ◌≡◌, ◌∙◌, ◌⊎◌, inl, inr, true, false,
  refl, arith, none, some, if◌then◌else◌, ◌==◌, ◌&&◌, ltb, leb, List, [], ◌∷◌, Bool-cases,
}
use sudo_os.Prelude.Words.{add64, page_size, align_up, align_down}
use sudo_os.Mm.Boot.{Entry}
use sudo_os.Mm.Pmm.Alloc.{Allocated, pmm_alloc_page_cases}
use sudo_os.Mm.Pmm.{pmm_alloc_page, bit_test}
use sudo_os.Mm.Paging.{
  Machine, map_pages, map_region, map_regions, paging_init, KernelAddress, kernel_flags,
  is_mapped_kind, clear_table,
}
use sudo_os.Mm.Paging.Walk.{Tree, entry_at, page_of}
use sudo_os.Mm.Paging.Step.{IsTree, IsReady, AreFlags}
use sudo_os.Mm.Paging.Map.{vmm_map_page_cases, vmm_map_page-IsTree}

-- Page number `page` is one of the `n` from `first` on.
abbrev pub in_range : ℕ → ℕ → ℕ → Bool
in_range first n page = leb first page && ltb page (first + n)

-- The `n` pages from `va` on have entries for the pages from `pa` on, every other page the entry that
-- it had.
pub record MapsRange (m : Machine) (root va pa n flags : ℕ) (m' : Machine) : Type 0 where
  pub tree : IsTree m' root
  pub entries :
      (vb : ℕ)
      → entry_at m' root vb ≡ (
          if in_range (page_of va) n (page_of vb)
          then pa + (page_of vb - page_of va) * 4096 + flags
          else entry_at m root vb)

-- On a tree of tables with a ready allocator that has three free pages for each page to map, flags with
-- the present bit, an aligned physical address, and ranges that do not wrap, the loop that maps `n` pages
-- gives the `n` pages from the one of `va` on the entries of the `n` physical pages from `pa` on, in
-- order, and leaves the entry of every other page.
pub map_pages-MapsRange :
    (n : ℕ) {m : Machine} {root : ℕ} (it : IsTree m root) (va pa flags : ℕ) (fl : AreFlags flags)
    → pa % 4096 ≡ 0
    → page_of va + n ≤ 2 ^ 36
    → va < 2 ^ 64
    → pa + n * 4096 ≤ 2 ^ 64
    → 3 * n ≤ m.pmm.free_pages
    → MapsRange m root va pa n flags (map_pages m root va pa n flags)
unfolding map_pages
map_pages-MapsRange zero {m} {root} it va pa flags fl aligned top hv hp free = record {
  tree = it;
  entries = λ vb. ground arith;
}
map_pages-MapsRange (suc n) {m} {root} it va pa flags fl aligned top hv hp free =
    elim (vmm_map_page_cases it va pa flags fl aligned) [
      | inl k ↦ absurd (omega (arith, k.short))
      | inr p ↦
          let va' = add64 va page_size in
          let pa' = add64 pa page_size in
          let q =
            map_pages-MapsRange n p.tree va' pa' flags fl (omega arith) (omega arith) (omega arith)
              (omega arith) (omega (arith, p.pages)) in
          record {
            tree = q.tree;
            entries = λ vb. q.entries vb ∙ elim (ℕ_discrete n 0) [
              | yes e ↦ let p' = p.entries vb in ground arith
              | no ne ↦
                  let next_page : page_of va' ≡ page_of va + 1 = omega arith in
                  let next_frame : pa' ≡ pa + 4096 = omega arith in
                  let p' = p.entries vb in rw (next_page, next_frame) (ground arith)
            ];
          }
    ]

pub kernel_flags-AreFlags : AreFlags kernel_flags
kernel_flags-AreFlags = record { low = omega arith; odd = omega arith }

module _ {root : ℕ} where
  pub map_pages-IsTree :
      (n : ℕ) {m : Machine} (it : IsTree m root) (va pa flags : ℕ) (fl : AreFlags flags)
      → pa % 4096 ≡ 0
      → IsTree (map_pages m root va pa n flags) root
  unfolding map_pages
  map_pages-IsTree zero it va pa flags fl aligned = it
  map_pages-IsTree (suc n) it va pa flags fl aligned =
      map_pages-IsTree n (vmm_map_page-IsTree it va pa flags fl aligned) (add64 va page_size)
        (add64 pa page_size) flags fl (omega arith)

  map_region-IsTree :
      {m : Machine} (it : IsTree m root) (hhdm_offset : ℕ) (e : Entry)
      → IsTree (map_region m root hhdm_offset e) root
  unfolding map_region
  map_region-IsTree {m} it hhdm_offset e = elim (Bool-cases (is_mapped_kind e.kind)) [
    | inr h ↦ rw h it
    | inl h ↦
        let start = align_down e.base page_size in
        let end = align_up (add64 e.base e.length) page_size in
        let m1 : IsTree
            (map_pages m root (add64 start hhdm_offset) start ((end - start) / page_size)
              kernel_flags)
            root =
          map_pages-IsTree ((end - start) / page_size) it (add64 start hhdm_offset) start
            kernel_flags kernel_flags-AreFlags (omega arith) in
        rw h (elim (Bool-cases (leb 0x100000000 start)) [
          | inl high ↦ rw high m1
          | inr low ↦
              rw low
                (map_pages-IsTree _ m1 start start kernel_flags kernel_flags-AreFlags (omega arith))
        ])
  ]

  map_regions-IsTree :
      {m : Machine} (it : IsTree m root) (hhdm_offset : ℕ) (es : List Entry)
      → IsTree (map_regions m root hhdm_offset es) root
  unfolding map_regions
  map_regions-IsTree {m} it hhdm_offset [] = it
  map_regions-IsTree {m} it hhdm_offset (e ∷ es) =
      map_regions-IsTree {m = map_region m root hhdm_offset e} (map_region-IsTree it hhdm_offset e)
        hhdm_offset es

-- A page of zeros alone is a tree.
pub Tree-cleared :
    (m : Machine) (k : ℕ)
    → bit_test m.pmm k ≡ true
    → Tree
        (record m { tables = clear_table m.tables (k * 4096) })
        (k * 4096)
        (λ u. if u == k * 4096 then 4 else 0)
        (λ u. 0)
Tree-cleared m k used = record {
  top = (ground arith, refl);
  child = λ t i n e lt h. ground arith;
  held = λ t ne. elim (ℕ_discrete t (k * 4096)) [
    | yes e ↦ let whole : t / 4096 ≡ k = omega arith in (omega arith, rw whole used)
    | no d ↦ absurd (ne (ground arith))
  ];
  low = λ t. ground arith;
}

-- A cleared page that the allocator has just given is a tree of tables alone.
pub cleared-IsTree :
    (m : Machine) {k : ℕ}
    → IsReady m.pmm
    → Allocated m.pmm k (pmm_alloc_page m.pmm)
    → IsTree
        (record { pmm = (pmm_alloc_page m.pmm).1; tables = clear_table m.tables (k * 4096) })
        (k * 4096)
cleared-IsTree m {k} ready a =
    let pmm = (pmm_alloc_page m.pmm).1 in
    let used : bit_test pmm k ≡ true = ground (arith, a.bits k) in
    record {
      ready = record {
        valid = a.valid;
        reserved = ground (arith, a.bits 0, ready.reserved);
        small = omega (arith, a.total, ready.small);
      };
      height = _;
      prefix = _;
      tree = Tree-cleared (record m { pmm = pmm }) k used;
    }

-- On a ready allocator, with the kernel at an aligned physical address, `paging_init` fails where the
-- allocator has no page or the boot loader gave no address, and otherwise leaves a tree of tables below
-- the PML4 for CR3, whatever the memory map.
paging_init-IsTree :
    (m : Machine) (hhdm_offset kernel_start kernel_end : ℕ) (kaddr : KernelAddress)
    (mmap : List Entry)
    → IsReady m.pmm
    → kaddr.physical_base % 4096 ≡ 0
    → ((paging_init m hhdm_offset kernel_start kernel_end (some kaddr) mmap ≡ none)
        × ((pmm_alloc_page m.pmm).0 ≡ 0))
      ⊎ ((pml4 : ℕ) × (m' : Machine) × (paging_init m hhdm_offset kernel_start kernel_end
              (some kaddr)
              mmap
            ≡ some (pml4, m'))
          × IsTree m' pml4)
unfolding paging_init
paging_init-IsTree m hhdm_offset kernel_start kernel_end kaddr mmap ready aligned =
    elim (pmm_alloc_page_cases ready.valid ready.reserved) [
      | inr (e, busy) ↦ rw e (inl (refl, refl))
      | inl (ne, (k, a)) ↦
          let off : ((k * 4096) == 0) ≡ false = ground (arith, a.address) in
          let fresh = cleared-IsTree m ready a in
          rw (a.address, off)
            (inr (
              k * 4096,
              _,
              refl,
              map_regions-IsTree
                  (map_pages-IsTree (align_up (kernel_end - kernel_start) page_size / page_size)
                    fresh kaddr.virtual_base kaddr.physical_base kernel_flags kernel_flags-AreFlags
                    aligned)
                  hhdm_offset mmap,
            ))
    ]
