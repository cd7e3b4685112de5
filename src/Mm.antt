-- ===== src/Mm.antt =====
-- Memory management: kernel/src/mm.
pub mod Pmm
mod Tests
pub mod Boot
pub mod Paging
pub mod Heap
pub mod Vmm
