-- ===== src/Mm/Vmm/Range.antt =====
-- `mm_map_range` of kernel/src/mm/vmm.c where the heap has room for the VMA and memory is left.
use sudo_os.Prelude.{
  ℕ, ◌+◌, ◌*◌, ◌/◌, ◌%◌, ◌^◌, ◌≤◌, ◌<◌, ◌≡◌, true, false, refl, arith, some, List, ◌==◌, Bool-cases,
  inl, inr,
}
use sudo_os.Prelude.Words.{add64, sub64, page_size}
use sudo_os.Mm.Paging.Walk.{entry_at, page_of}
use sudo_os.Mm.Paging.Step.{IsTree, AreFlags}
use sudo_os.Mm.Heap.{Header, KernelHeap, header_size, heap_base, first_fit, take_block}
use sudo_os.Mm.Heap.Grow.{IsHeap}
use sudo_os.Mm.Heap.Serve.{kmalloc-fit, first_fit-Taken}
use sudo_os.Mm.Vmm.{
  MmStruct, vma_struct_size, fill_range, map_fresh, add_vma, range_start, range_end, pte_flags,
  mm_map_range,
}
use sudo_os.Mm.Vmm.Fresh.{Fresh, MapsFresh, map_fresh-MapsFresh}

abbrev pub range_pages : ℕ → ℕ → ℕ
range_pages va size = sub64 (range_end va size) (range_start va) / page_size

-- The pages of the range, from that of `va` on, have entries for pages that were free, and so has each byte
-- of it.
pub record RangeMapped (mm : MmStruct) (va size vm_flags : ℕ) (h h' : KernelHeap) : Type 0 where
  pub maps :
      MapsFresh h.machine mm.pml4_pa
        (page_of va)
        (range_pages va size)
        (pte_flags vm_flags)
        h'.machine
  pub bytes :
      (b : ℕ)
      → va ≤ b
      → b < va + size
      → Fresh h.machine h'.machine (pte_flags vm_flags) (entry_at h'.machine mm.pml4_pa b)

pte_flags-AreFlags : (vm_flags : ℕ) → AreFlags (pte_flags vm_flags)
pte_flags-AreFlags vm_flags = elim (Bool-cases (vm_flags / 2 % 2 == 1)) [
  | inl e ↦ rw e (record { low = omega arith; odd = refl })
  | inr e ↦ rw e (record { low = omega arith; odd = refl })
]

module _ (h : KernelHeap) (mm : MmStruct) (va size vm_flags : ℕ)
    (tree : IsTree h.machine mm.pml4_pa) (user : va + size ≤ 2 ^ 47)
    (enough : 4 * range_pages va size ≤ h.machine.pmm.free_pages) where
  fill_range-RangeMapped :
      (vma : ℕ) (bs : List Header)
      → (h' : KernelHeap) × (fill_range
            (record h { blocks = bs })
            mm.pml4_pa
            vma
            (range_start va)
            (range_pages va size)
            (pte_flags vm_flags)
          ≡ (true, h'))
        × RangeMapped mm va size vm_flags h h'
  unfolding fill_range
  fill_range-RangeMapped vma bs =
      let start = range_start va in
      let at : page_of start + 0 ≡ page_of va = omega arith in
      let r =
        map_fresh-MapsFresh (range_pages va size) 0 tree start (pte_flags vm_flags)
          (pte_flags-AreFlags vm_flags) (omega arith) (omega arith) enough in
      let maps = rw at at r.1 in
      let m' =
        (map_fresh h.machine mm.pml4_pa start 0 (range_pages va size) (pte_flags vm_flags)).1 in
      (
        record h { machine = m'; blocks = bs },
        rw (r.0, fill_range) refl,
        record { maps = maps; bytes = λ b lo hi. maps.fresh b (ground arith) },
      )

  -- On a kernel heap with a free block that holds a VMA, an address space whose page tables are a tree, and a
  -- range of at least one byte that ends below 2 ^ 47, with four free pages for each page of the range,
  -- `mm_map_range` returns true, adds the VMA of the whole pages of the range at the end of the list, and
  -- gives each byte of the range an entry, with the flags for `vm_flags`, to a page that was free; no two
  -- pages share one, every page outside the range has the entry that it had, and the page tables are a
  -- tree again.
  pub mm_map_range-RangeMapped :
      (kernel_pml4 : ℕ) (target : Header)
      → IsHeap kernel_pml4 h
      → first_fit h.blocks vma_struct_size ≡ some target
      → 0 < size
      → (h' : KernelHeap) × (mm_map_range h kernel_pml4 mm va size vm_flags
          ≡ some (
            true,
            add_vma mm (target.address + header_size) (range_start va) (range_end va size) vm_flags,
            h',
          ))
        × RangeMapped mm va size vm_flags h h'
  unfolding mm_map_range
  mm_map_range-RangeMapped kernel_pml4 target v fit pos =
      let room = v.room in
      let t =
        first_fit-Taken heap_base h.top vma_struct_size h.blocks target (omega arith) (omega arith)
          v.tiles fit in
      let low = t.behind in
      let inside = t.inside in
      let p : add64 target.address header_size ≡ target.address + header_size = omega arith in
      let given = kmalloc-fit h.machine.pmm.free_pages kernel_pml4 vma_struct_size h target fit in
      let off : (target.address + header_size == 0) ≡ false = ground arith in
      let some_bytes : (size == 0) ≡ false = ground arith in
      let (h', e, mapped) =
        fill_range-RangeMapped (target.address + header_size)
          (take_block h.blocks target.address vma_struct_size) in
      (h', rw (some_bytes, given, p, off, e, mm_map_range) refl, mapped)
