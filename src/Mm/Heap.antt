-- ===== src/Mm/Heap.antt =====
-- The kernel heap of kernel/src/mm/pmm.c, and the kernel stacks of the same file, over the page tables.
-- The list of block headers that the nodes link, in its order, is a list; a header is named by the
-- address where it stands, and a pointer that names no header of the list changes nothing (in C this is
-- undefined). A write to a page for which `vmm_map_page` found no table is a page fault; the kernel half of
-- every address space has the tables below `kernel_pml4`, so these decide.
pub mod Tiles
pub mod Grow
pub mod Serve
pub mod Tests
use sudo_os.Prelude.{
  ℕ, zero, suc, ◌+◌, ◌-◌, ◌*◌, ◌/◌, Bool, true, false, ◌&&◌, Option, none, some, List, [], ◌∷◌,
  ◌++◌, ◌==◌, leb, if◌then◌else◌,
}
use sudo_os.Prelude.Words.{add64, sub64, page_size, align_up}
use sudo_os.Mm.Pmm.{pmm_alloc_page, pmm_free_page}
use sudo_os.Mm.Paging.{
  Machine, vmm_map_page, vmm_get_pte, has_page, kernel_flags, is_present, pte_get_addr, write_entry,
}

-- `kheap_pghdr_t`, with its address.
pub record Header : Type 0 where
  pub address : ℕ
  pub size : ℕ
  pub is_free : Bool

pub record KernelHeap : Type 0 where
  pub machine : Machine
  pub blocks : List Header
  pub top : ℕ

-- HEADER_SIZE is sizeof(kheap_pghdr_t): two pointers, a size, and a flag with its padding.
abbrev pub header_size : ℕ
header_size = 32

abbrev pub min_split : ℕ
min_split = 16

abbrev pub heap_base : ℕ
heap_base = 0xffff900000000000

-- The merge with the next header, where there is one and it stands right behind.
unfoldable pub merge_next : Header → List Header → List Header
merge_next hdr [] = hdr ∷ []
merge_next hdr (next ∷ rest) =
    if add64 (add64 hdr.address hdr.size) header_size == next.address
    then record hdr { size = add64 hdr.size (add64 next.size header_size) } ∷ rest
    else hdr ∷ next ∷ rest

-- What `kfree` does to the list for the header at `at`: the merge with the next header, then that of
-- the header before it with the result.
unfoldable pub release : ℕ → List Header → List Header
release at [] = []
release at (hdr ∷ []) = if hdr.address == at then record hdr { is_free = true } ∷ [] else hdr ∷ []
release at (prev ∷ hdr ∷ rest) =
    let behind = release at (hdr ∷ rest) in
    if prev.address == at
    then merge_next (record prev { is_free = true }) (hdr ∷ rest)
    else (if hdr.address == at
        then merge_next prev (merge_next (record hdr { is_free = true }) rest)
        else prev ∷ behind)

unfoldable pub kfree : KernelHeap → ℕ → KernelHeap
kfree h ptr = if ptr == 0 then h else record h { blocks = release (sub64 ptr header_size) h.blocks }

-- The new page becomes a block in use at the end, which is then freed.
unfoldable pub link_page : KernelHeap → Machine → KernelHeap
link_page h m =
    let hdr : Header = record {
      address = h.top;
      size = page_size - header_size;
      is_free = false;
    } in
    let linked : KernelHeap = record { machine = m; blocks = h.blocks ++ hdr ∷ []; top = h.top } in
    record (kfree linked (add64 h.top header_size)) { top = add64 h.top page_size }

-- One round of `kheap_expand` with the page `pa`; `none` is the page fault of the write to the new header.
unfoldable pub add_page : KernelHeap → ℕ → ℕ → Machine → Option KernelHeap
add_page h kernel_pml4 pa m =
    let m' = vmm_map_page m kernel_pml4 h.top pa kernel_flags in
    if has_page m' kernel_pml4 h.top then some (link_page h m') else none

unfoldable pub kheap_expand : KernelHeap → ℕ → ℕ → Option (Bool × KernelHeap)
kheap_expand h kernel_pml4 zero = some (true, h)
kheap_expand h kernel_pml4 (suc n) =
    let (pa, pmm) = pmm_alloc_page h.machine.pmm in
    let rest : Option (Bool × KernelHeap) =
      elim (add_page h kernel_pml4 pa (record h.machine { pmm = pmm })) [
        | none ↦ none
        | some h' ↦ kheap_expand h' kernel_pml4 n
      ] in
    if pa == 0 then some (false, record h { machine = record h.machine { pmm = pmm } }) else rest

unfoldable pub first_fit : List Header → ℕ → Option Header
first_fit [] size = none
first_fit (hdr ∷ rest) size =
    let found = first_fit rest size in if hdr.is_free && leb size hdr.size then some hdr else found

-- The block `target` in use, cut to `size` where the rest is large enough for a block of its own.
unfoldable pub split_block : Header → ℕ → List Header
split_block target size =
    if leb (add64 (add64 size header_size) min_split) target.size
    then (let rest : Header = record {
      address = add64 (add64 target.address header_size) size;
      size = sub64 (sub64 target.size size) header_size;
      is_free = true;
    } in
        record target { size = size; is_free = false } ∷ rest ∷ [])
    else record target { is_free = false } ∷ []

-- The list after the writes through `target`.
unfoldable pub take_block : List Header → ℕ → ℕ → List Header
take_block [] at size = []
take_block (hdr ∷ rest) at size =
    let behind = take_block rest at size in
    if hdr.address == at then split_block hdr size ++ rest else hdr ∷ behind

unfoldable pub pages_needed : ℕ → ℕ
pages_needed size =
    let n = align_up (add64 size header_size) page_size / page_size in if n == 0 then 1 else n

-- `kmalloc`: the pointer, 0 for NULL, and the heap; `none` where growing the heap faults, or where the fuel
-- is used up before the recursion ends.
unfoldable pub kmalloc : ℕ → KernelHeap → ℕ → ℕ → Option (ℕ × KernelHeap)
kmalloc zero h kernel_pml4 size = none
kmalloc (suc fuel) h kernel_pml4 size =
    let size' = align_up size 8 in
    elim (first_fit h.blocks size') [
      | some target ↦ some (
        add64 target.address header_size,
        record h { blocks = take_block h.blocks target.address size' },
      )
      | none ↦ elim (kheap_expand h kernel_pml4 (pages_needed size')) [
        | none ↦ none
        | some (true, h') ↦ kmalloc fuel h' kernel_pml4 size'
        | some (false, h') ↦ some (0, h')
      ]
    ]

unfoldable pub kheap_init : Machine → ℕ → ℕ → Option KernelHeap
kheap_init m kernel_pml4 pgnum =
    elim (kheap_expand (record { machine = m; blocks = []; top = heap_base }) kernel_pml4 pgnum) [
      | none ↦ none
      | some (grown, h) ↦ some h
    ]
