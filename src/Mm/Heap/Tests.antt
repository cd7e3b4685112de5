-- ===== src/Mm/Heap/Tests.antt =====
-- Concrete runs of the kernel heap of kernel/src/mm/pmm.c.
use sudo_os.Prelude.{ℕ, ◌≡◌, ◌⊎◌, none, true, false, refl, arith, some, [], ◌∷◌}
use sudo_os.Mm.Paging.Tests.{one_table, one_table-IsTree}
use sudo_os.Mm.Heap.{Header, KernelHeap, kfree, kmalloc}
use sudo_os.Mm.Heap.Grow.{IsHeap, Starved, kfree-joined}
use sudo_os.Mm.Heap.Serve.{Answered, kmalloc-Answered}

-- A page of three blocks: the first and the last in use.
abbrev first_block : Header
first_block = record { address = 0xffff900000000000; size = 96; is_free = false }

abbrev pub second_block : Header
second_block = record { address = 0xffff900000000080; size = 96; is_free = true }

abbrev third_block : Header
third_block = record { address = 0xffff900000000100; size = 3808; is_free = false }

abbrev pub three_blocks : KernelHeap
three_blocks = record {
  machine = one_table;
  blocks = first_block ∷ second_block ∷ third_block ∷ [];
  top = 0xffff900000001000;
}

pub three_blocks-IsHeap : IsHeap 4096 three_blocks
three_blocks-IsHeap = record {
  tree = one_table-IsTree;
  tiles = (refl, (refl, (refl, refl)));
  room = omega arith;
}

kmalloc-Answered_example :
    ((p : ℕ) × (h' : KernelHeap) × (kmalloc 9 three_blocks 4096 40 ≡ some (p, h'))
      × Answered 4096 40 three_blocks (p, h'))
    ⊎ ((kmalloc 9 three_blocks 4096 40 ≡ none) × Starved 4096 three_blocks)
kmalloc-Answered_example =
    kmalloc-Answered 9 4096 40 three_blocks three_blocks-IsHeap (omega arith) (omega arith)

kfree-joined_example :
    (kfree three_blocks 0xffff9000000000a0).blocks
    ≡ record { address = 0xffff900000000000; size = 4064; is_free = false } ∷ []
kfree-joined_example =
    kfree-joined 4096 three_blocks [] first_block second_block third_block [] three_blocks-IsHeap
      refl
