-- ===== src/Mm/Vmm/Tests.antt =====
-- Concrete runs of the address spaces of kernel/src/mm/vmm.c and of the kernel stacks.
use sudo_os.Prelude.{◌≡◌, true, refl, arith, some, []}
use sudo_os.Mm.Paging.{Machine}
use sudo_os.Mm.Paging.Tests.{one_table, one_table-IsTree}
use sudo_os.Mm.Heap.{KernelHeap}
use sudo_os.Mm.Heap.Tests.{three_blocks, three_blocks-IsHeap, second_block}
use sudo_os.Mm.Vmm.{MmStruct, mm_map_range, add_vma, kstack_init}
use sudo_os.Mm.Vmm.Range.{RangeMapped, mm_map_range-RangeMapped}
use sudo_os.Mm.Vmm.Stack.{StackMapped, kstack_init-StackMapped}

abbrev empty_mm : MmStruct
empty_mm = record {
  address = 0xffff900000000020;
  pml4_pa = 4096;
  vma_list = [];
  map_count = 0;
  start_heap = 0;
  heap = 0;
  start_stack = 0;
}

-- Two bytes that stand in one page.
mm_map_range-RangeMapped_example :
    (h' : KernelHeap) × (mm_map_range three_blocks 4096 empty_mm 0x400010 2 3
      ≡ some (true, add_vma empty_mm 0xffff9000000000a0 0x400000 0x401000 3, h'))
    × RangeMapped empty_mm 0x400010 2 3 three_blocks h'
unfolding sudo_os.Mm.Heap.first_fit
mm_map_range-RangeMapped_example =
    mm_map_range-RangeMapped three_blocks empty_mm 0x400010 2 3 one_table-IsTree (omega arith)
      (omega arith) 4096 second_block three_blocks-IsHeap refl (omega arith)

-- The first stack of one page.
kstack_init-StackMapped_example :
    (m' : Machine) × (kstack_init one_table 4096 0xffffb00000000000 4096
      ≡ (0xffffb00000002000, m', 0xffffb00000002000))
    × StackMapped one_table 4096 0xffffb00000000000 4096 m'
kstack_init-StackMapped_example =
    kstack_init-StackMapped one_table 4096 0xffffb00000000000 4096 one_table-IsTree refl refl
      (omega arith) (omega arith) (omega arith)
