-- ===== src/Mm/Boot.antt =====
-- `pmm_init` of kernel/src/mm/pmm.c: how the allocator is set up from the boot loader's memory map.
-- The map's entries are a list; their type codes are those of the Limine protocol (limine.h), of which
-- only LIMINE_MEMMAP_USABLE, 0, is tested here. The endless `hlt` where no place for the bitmap is
-- found is `none`.
pub mod Free
use sudo_os.Prelude.{
  ℕ, ◌-◌, ◌*◌, ◌/◌, ◌%◌, Bool, Option, none, some, List, [], ◌∷◌, ltb, leb, ◌==◌, ◌+◌, ◌&&◌,
  if◌then◌else◌, replicate,
}
use sudo_os.Prelude.Words.{add64, page_size, align_down, align_up}
use sudo_os.Mm.Pmm.{Pmm, pmm_set_free, pmm_set_busy}

-- `struct limine_memmap_entry`
pub record Entry : Type 0 where
  pub base : ℕ
  pub length : ℕ
  pub kind : ℕ

abbrev pub usable : ℕ
usable = 0

-- The loop that looks for the highest address.
unfoldable pub highest_end : ℕ → List Entry → ℕ
highest_end highest [] = highest
highest_end highest (e ∷ es) =
    let end = add64 e.base e.length in highest_end (if ltb highest end then end else highest) es

abbrev pub bitmap_bytes : ℕ → ℕ
bitmap_bytes pages = if pages % 8 == 0 then pages / 8 else pages / 8 + 1

abbrev pub bitmap_pages : ℕ → ℕ
bitmap_pages size = align_up size page_size / page_size

-- The loop that looks for a place for the bitmap; it is left at the first entry that is large enough.
unfoldable pub find_bitmap : ℕ → List Entry → ℕ
find_bitmap size [] = 0
find_bitmap size (e ∷ es) =
    let rest = find_bitmap size es in
    if e.kind == usable && leb size e.length
    then (if leb (bitmap_pages size * page_size) e.length then e.base else rest)
    else rest

-- One round of the loop that frees the usable regions.
unfoldable pub free_region : Pmm → Entry → Pmm
free_region p e =
    if e.kind == usable
    then (let start = align_up e.base page_size in
        let end = align_down (add64 e.base e.length) page_size in
        if leb end start then p else pmm_set_free p start ((end - start) / page_size))
    else p

unfoldable pub free_regions : Pmm → List Entry → Pmm
free_regions p [] = p
free_regions p (e ∷ es) = free_regions (free_region p e) es

-- The globals once the bitmap is in place, with every bit set.
abbrev pub all_busy : Pmm → ℕ → Pmm
all_busy p total = record p {
  bitmap = replicate (bitmap_bytes total) 255;
  bitmap_size = bitmap_bytes total;
  total_pages = total;
}

-- The regions are freed, then the bitmap's own pages and page 0 are reserved.
unfoldable pub reserve : Pmm → ℕ → Pmm
reserve p bitmap_pa = pmm_set_busy (pmm_set_busy p bitmap_pa (bitmap_pages p.bitmap_size)) 0 1

unfoldable pub pmm_init : Pmm → List Entry → Option Pmm
pmm_init p mmap =
    let total = highest_end 0 mmap / page_size in
    let bitmap_pa = find_bitmap (bitmap_bytes total) mmap in
    if bitmap_pa == 0 then none else some (reserve (free_regions (all_busy p total) mmap) bitmap_pa)
