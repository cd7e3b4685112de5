-- ===== src/Mm/Paging/Tests.antt =====
-- Concrete runs of the page tables of kernel/src/mm/paging.c.
use sudo_os.Prelude.{refl, arith}
use sudo_os.Mm.Boot.{Entry}
use sudo_os.Mm.Tests.{ten_pages, ten_pages-IsValid, page_in_use}
use sudo_os.Mm.Paging.{Machine, vmm_map_page, map_pages, KernelAddress, clear_table}
use sudo_os.Mm.Paging.Step.{IsTree, IsReady}
use sudo_os.Mm.Paging.Map.{Mapped, vmm_map_page_cases}
use sudo_os.Mm.Paging.Range.{MapsRange, map_pages-MapsRange, Tree-cleared, kernel_flags-AreFlags}

-- A PML4 without entries in page 1.
abbrev pub one_table : Machine
one_table = record { pmm = ten_pages; tables = clear_table (λ t i. 7) 4096 }

ten_pages-IsReady : IsReady ten_pages
ten_pages-IsReady = record {
  valid = ten_pages-IsValid;
  reserved = page_in_use.0;
  small = omega arith;
}

pub one_table-IsTree : IsTree one_table 4096
one_table-IsTree = record {
  ready = ten_pages-IsReady;
  height = _;
  prefix = _;
  tree = Tree-cleared (record { pmm = ten_pages; tables = λ t i. 7 }) 1 page_in_use.1;
}

vmm_map_page_cases_example :
    Mapped one_table 4096 0x400000 0x9003 (vmm_map_page one_table 4096 0x400000 0x9000 3)
vmm_map_page_cases_example =
    vmm_map_page_cases one_table-IsTree 0x400000 0x9000 3 kernel_flags-AreFlags refl

map_pages-MapsRange_example :
    MapsRange one_table 4096 0x1ff000 0x8000 2 3 (map_pages one_table 4096 0x1ff000 0x8000 2 3)
map_pages-MapsRange_example =
    map_pages-MapsRange 2 one_table-IsTree 0x1ff000 0x8000 3 kernel_flags-AreFlags refl
      (omega arith) (omega arith) (omega arith) (omega arith)

abbrev kernel_at : KernelAddress
kernel_at = record { virtual_base = 0xffffffff80000000; physical_base = 0x3000 }

abbrev one_region : Entry
one_region = record { base = 0; length = 0x2000; kind = 0 }
