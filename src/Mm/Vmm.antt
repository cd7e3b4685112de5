-- ===== src/Mm/Vmm.antt =====
-- The address spaces of kernel/src/mm/vmm.c over the page tables and the kernel heap, and the kernel stacks
-- of kernel/src/mm/pmm.c. A `mm_struct_t` or a VMA is a value with the address where `kmalloc` put it. The
-- pages of a process are read and written through the direct map, so their words stand in `tables` too.
-- The flush of the TLB and the messages are left out.
pub mod Fresh
pub mod Range
pub mod Stack
pub mod Tests
use sudo_os.Prelude.{
  ℕ, zero, suc, ◌+◌, ◌-◌, ◌*◌, ◌/◌, ◌%◌, ◌^◌, Bool, true, false, ◌&&◌, ◌||◌, Option, none, some,
  List, [], ◌∷◌, ◌++◌, ◌==◌, leb, ltb, if◌then◌else◌,
}
use sudo_os.Prelude.Words.{add64, sub64, page_size, align_down, align_up}
use sudo_os.Mm.Pmm.{pmm_alloc_page, pmm_free_page}
use sudo_os.Mm.Paging.{
  Machine, vmm_map_page, vmm_get_pte, user_pgtable_free_recursive, kernel_flags, is_present,
  pte_get_addr, write_entry, clear_table,
}
use sudo_os.Mm.Heap.{KernelHeap, kmalloc, kfree}

-- `vma_struct_t`, with its address.
pub record Vma : Type 0 where
  pub address : ℕ
  pub vm_start : ℕ
  pub vm_end : ℕ
  pub vm_flags : ℕ

-- `mm_struct_t`: the fields that are used, with the list of VMAs in its order; `mmap_cache` stays NULL and
-- `ref_count` 0.
pub record MmStruct : Type 0 where
  pub address : ℕ
  pub pml4_pa : ℕ
  pub vma_list : List Vma
  pub map_count : ℕ
  pub start_heap : ℕ
  pub heap : ℕ
  pub start_stack : ℕ

-- sizeof(mm_struct_t) and sizeof(vma_struct_t)
abbrev pub mm_struct_size : ℕ
mm_struct_size = 104

abbrev pub vma_struct_size : ℕ
vma_struct_size = 48

-- `kmalloc` with fuel for every free page.
abbrev pub kmalloc_all : KernelHeap → ℕ → ℕ → Option (ℕ × KernelHeap)
kmalloc_all h kernel_pml4 size = kmalloc (suc h.machine.pmm.free_pages) h kernel_pml4 size

-- The loops that take pages and map them, from round `i` on with `n` rounds left: the round that found no
-- page, if there is one.
unfoldable pub map_fresh : Machine → ℕ → ℕ → ℕ → ℕ → ℕ → Option ℕ × Machine
map_fresh m pml4 start i zero flags = (none, m)
map_fresh m pml4 start i (suc n) flags =
    let (pa, pmm) = pmm_alloc_page m.pmm in
    let rest =
      map_fresh (vmm_map_page (record m { pmm = pmm }) pml4 (add64 start (i * page_size)) pa flags)
        pml4 start (i + 1) n flags in
    if pa == 0 then (some i, record m { pmm = pmm }) else rest

-- `*pte = 0` for a page that is mapped, after its release.
unfoldable pub unmap_page : Machine → ℕ → ℕ → Machine
unmap_page m pml4 va = elim (vmm_get_pte m pml4 va) [
  | none ↦ m
  | some (t, i) ↦
      if is_present (m.tables t i)
      then record {
        pmm = pmm_free_page m.pmm (pte_get_addr (m.tables t i));
        tables = write_entry m.tables t i 0;
      }
      else m
]

-- The loops that give pages back: the rollback of `mm_map_range`, and `kstack_free`.
unfoldable pub unmap_pages : Machine → ℕ → ℕ → ℕ → ℕ → Machine
unmap_pages m pml4 start i zero = m
unmap_pages m pml4 start i (suc n) =
    unmap_pages (unmap_page m pml4 (add64 start (i * page_size))) pml4 start (i + 1) n

-- The 256 entries from 256 on are the kernel's.
abbrev pub share_kernel : (ℕ → ℕ → ℕ) → ℕ → ℕ → ℕ → ℕ → ℕ
share_kernel tables kernel_pml4 pml4 u j =
    if u == pml4 && (leb 256 j && ltb j 512) then tables kernel_pml4 j else tables u j

abbrev fresh_mm : ℕ → ℕ → MmStruct
fresh_mm address pml4_pa = record {
  address = address;
  pml4_pa = pml4_pa;
  vma_list = [];
  map_count = 0;
  start_heap = 0;
  heap = 0;
  start_stack = 0;
}

-- `mm_alloc`: `none` inside for NULL.
unfoldable pub mm_alloc : KernelHeap → ℕ → Option (Option MmStruct × KernelHeap)
mm_alloc h kernel_pml4 = elim (kmalloc_all h kernel_pml4 mm_struct_size) [
  | none ↦ none
  | some (p, h') ↦
      let (pml4_pa, pmm) = pmm_alloc_page h'.machine.pmm in
      let m : Machine = record h'.machine { pmm = pmm } in
      let tables = share_kernel (clear_table m.tables pml4_pa) kernel_pml4 pml4_pa in
      if p == 0
      then some (none, h')
      else (if pml4_pa == 0
          then some (none, kfree (record h' { machine = m }) p)
          else some
              (some (fresh_mm p pml4_pa), record h' { machine = record m { tables = tables } }))
]

-- VM_WRITE is bit 1; PTE_PRESENT, PTE_USER and PTE_RW are 1, 4 and 2.
abbrev pub pte_flags : ℕ → ℕ
pte_flags vm_flags = if vm_flags / 2 % 2 == 1 then 7 else 5

-- The mapping of the pages of a new VMA and, if memory runs out, its rollback.
unfoldable pub fill_range : KernelHeap → ℕ → ℕ → ℕ → ℕ → ℕ → Bool × KernelHeap
fill_range h pml4 vma start pages flags =
    let r = map_fresh h.machine pml4 start 0 pages flags in
    elim r.0 [
      | none ↦ (true, record h { machine = r.1 })
      | some i ↦ (false, kfree (record h { machine = unmap_pages r.1 pml4 start 0 i }) vma)
    ]

abbrev pub range_start : ℕ → ℕ
range_start va = align_down va page_size

abbrev pub range_end : ℕ → ℕ → ℕ
range_end va size = align_up (add64 va size) page_size

-- The new VMA at the end of the list.
abbrev pub add_vma : MmStruct → ℕ → ℕ → ℕ → ℕ → MmStruct
add_vma mm p start end vm_flags = record mm {
  vma_list =
      mm.vma_list
      ++ record { address = p; vm_start = start; vm_end = end; vm_flags = vm_flags } ∷ [];
  map_count = mm.map_count + 1;
}

-- `mm_map_range` for an `mm` that is not NULL. After a rollback the VMA stays in the list.
unfoldable pub mm_map_range :
    KernelHeap → ℕ → MmStruct → ℕ → ℕ → ℕ → Option (Bool × MmStruct × KernelHeap)
mm_map_range h kernel_pml4 mm va size vm_flags =
    if size == 0 then some (false, mm, h) else (elim (kmalloc_all h kernel_pml4 vma_struct_size) [
      | none ↦ none
      | some (p, h') ↦
          let start = range_start va in
          let end = range_end va size in
          let r =
            fill_range h' mm.pml4_pa p start (sub64 end start / page_size) (pte_flags vm_flags) in
          if p == 0 then some (false, mm, h') else some (r.0, add_vma mm p start end vm_flags, r.1)
    ])

-- The headers of the VMAs, in their order.
unfoldable pub free_vmas : KernelHeap → List Vma → KernelHeap
free_vmas h [] = h
free_vmas h (vma ∷ vmas) = free_vmas (kfree h vma.address) vmas

-- `mm_free` for an `mm` that is not NULL.
unfoldable pub mm_free : KernelHeap → MmStruct → KernelHeap
mm_free h mm =
    let h' = free_vmas h mm.vma_list in
    let m = user_pgtable_free_recursive h'.machine mm.pml4_pa 4 in
    kfree
      (record h' {
        machine =
            if mm.pml4_pa == 0
            then h'.machine
            else record m { pmm = pmm_free_page m.pmm mm.pml4_pa };
      })
      mm.address

-- `memcpy` of a page.
abbrev pub copy_page : (ℕ → ℕ → ℕ) → ℕ → ℕ → ℕ → ℕ → ℕ
copy_page tables dst src u j = if u == dst then tables src j else tables u j

-- What the copy of a page does with the two entries: `none` where the child has no page for it.
unfoldable pub copy_entry : Machine → ℕ × ℕ → ℕ × ℕ → Option Machine
copy_entry m (t, i) (u, j) =
    let src = m.tables t i in
    let dst_pa = pte_get_addr (m.tables u j) in
    if is_present src
    then (if dst_pa == 0
        then none
        else (let tables = copy_page m.tables dst_pa (pte_get_addr src) in
            some (record m { tables = write_entry tables u j (dst_pa + tables t i % 4096) })))
    else some m

unfoldable pub copy_va : Machine → ℕ → ℕ → ℕ → Option Machine
copy_va m src dst va = elim (vmm_get_pte m src va) [
  | none ↦ some m
  | some from ↦ elim (vmm_get_pte m dst va) [ none ↦ some m | some into ↦ copy_entry m from into ]
]

-- The loop over the pages of a VMA, with `n` rounds left.
unfoldable pub copy_pages : Machine → ℕ → ℕ → ℕ → ℕ → Option Machine
copy_pages m src dst va zero = some m
copy_pages m src dst va (suc n) = elim (copy_va m src dst va) [
  | none ↦ none
  | some m' ↦ copy_pages m' src dst (add64 va page_size) n
]

-- The loop over the VMAs: whether all were copied, and if not, `dst` is freed.
unfoldable pub copy_vmas :
    KernelHeap → ℕ → MmStruct → ℕ → List Vma → Option (Bool × MmStruct × KernelHeap)
copy_vmas h kernel_pml4 dst src [] = some (true, dst, h)
copy_vmas h kernel_pml4 dst src (vma ∷ vmas) =
    elim (mm_map_range h kernel_pml4 dst vma.vm_start (sub64 vma.vm_end vma.vm_start)
      vma.vm_flags) [
        | none ↦ none
        | some (false, dst', h') ↦ some (false, dst', mm_free h' dst')
        | some (true, dst', h') ↦
            elim (copy_pages h'.machine src dst'.pml4_pa vma.vm_start
              ((vma.vm_end - vma.vm_start) / page_size)) [
                | none ↦ some (false, dst', mm_free h' dst')
                | some m ↦ copy_vmas (record h' { machine = m }) kernel_pml4 dst' src vmas
              ]
      ]

-- `mm_copy` for address spaces that are not NULL.
unfoldable pub mm_copy :
    KernelHeap → ℕ → MmStruct → MmStruct → Option (Bool × MmStruct × KernelHeap)
mm_copy h kernel_pml4 dst src = copy_vmas h kernel_pml4 dst src.pml4_pa src.vma_list

-- KSTACK_SIZE and KERNEL_STACK_BASE; `kstack_ptr` is a global.
abbrev pub kstack_size : ℕ
kstack_size = 0x4000

-- The loop of `kstack_init`, and what it returns: the top of the stack, 0 for NULL.
unfoldable pub map_stack : Machine → ℕ → ℕ → ℕ → ℕ × Machine
map_stack m kernel_pml4 bottom top =
    let r = map_fresh m kernel_pml4 bottom 0 ((top - bottom + 4095) / page_size) kernel_flags in
    elim r.0 [ none ↦ (top, r.1) | some i ↦ (0, r.1) ]

-- `kstack_init`, with the new `kstack_ptr` last.
unfoldable pub kstack_init : Machine → ℕ → ℕ → ℕ → ℕ × Machine × ℕ
kstack_init m kernel_pml4 kstack_ptr size =
    let bottom = add64 kstack_ptr page_size in
    let top = add64 bottom size in let r = map_stack m kernel_pml4 bottom top in (r.0, r.1, top)

unfoldable pub kstack_free : Machine → ℕ → ℕ → Machine
kstack_free m kernel_pml4 kstack_base =
    unmap_pages m kernel_pml4 kstack_base 0
      ((add64 kstack_base kstack_size - kstack_base + 4095) / page_size)
