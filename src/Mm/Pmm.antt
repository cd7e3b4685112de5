-- ===== src/Mm/Pmm.antt =====
-- The physical page allocator of kernel/src/mm/pmm.c: a bitmap of pages (a set bit is a page in use),
-- the next-fit search, and the release of a page. The globals of pmm.c are the fields of a record,
-- and each function returns the record that it leaves. A loop over indices is a recursion on the
-- rounds that are left. `kprintln` only writes to the console and is left out.
pub mod Bitmap
pub mod Valid
pub mod Ranges
pub mod Alloc
pub mod Free
pub mod Owners
use sudo_os.Prelude.{
  ℕ, zero, suc, ◌+◌, ◌-◌, ◌*◌, ◌/◌, ◌%◌, ◌^◌, Bool, true, not, Option, none, some, List, ltb, leb,
  ◌==◌, if◌then◌else◌, get_or, set,
}
use sudo_os.Prelude.Words.{add64, sub64, mul64, page_size}
use sudo_os.Prelude.Bits.{byte_test, byte_set, byte_unset}

-- The globals. The bitmap is the list of its bytes; a read out of its range gives 0 and a write out
-- of its range does nothing (in C both are undefined, and `Valid` excludes them).
pub record Pmm : Type 0 where
  pub bitmap : List ℕ
  pub bitmap_size : ℕ
  pub total_pages : ℕ
  pub free_pages : ℕ
  pub last_free_index : ℕ

abbrev pub pa2pgidx : ℕ → ℕ
pa2pgidx pa = pa / page_size

abbrev pub pgidx2pa : ℕ → ℕ
pgidx2pa pgidx = mul64 pgidx page_size

unfoldable pub bit_test : Pmm → ℕ → Bool
bit_test p bit = byte_test (get_or p.bitmap (bit / 8) 0) (bit % 8)

unfoldable pub bit_set : Pmm → ℕ → Pmm
bit_set p bit = record p {
  bitmap = set p.bitmap (bit / 8) (byte_set (get_or p.bitmap (bit / 8) 0) (bit % 8));
}

unfoldable pub bit_unset : Pmm → ℕ → Pmm
bit_unset p bit = record p {
  bitmap = set p.bitmap (bit / 8) (byte_unset (get_or p.bitmap (bit / 8) 0) (bit % 8));
}

-- One round of the loop of `pmm_set_free`.
unfoldable pub mark_free : Pmm → ℕ → Pmm
mark_free p pg =
    if bit_test p pg then record (bit_unset p pg) { free_pages = add64 p.free_pages 1 } else p

-- One round of the loop of `pmm_set_busy`.
unfoldable pub mark_busy : Pmm → ℕ → Pmm
mark_busy p pg =
    if bit_test p pg then p else record (bit_set p pg) { free_pages = sub64 p.free_pages 1 }

-- `for (i = ..; i < pgnum; i++)`, with `n` rounds left.
unfoldable pub set_free_loop : Pmm → ℕ → ℕ → ℕ → Pmm
set_free_loop p pgidx zero i = p
set_free_loop p pgidx (suc n) i = set_free_loop (mark_free p (add64 pgidx i)) pgidx n (i + 1)

unfoldable pub set_busy_loop : Pmm → ℕ → ℕ → ℕ → Pmm
set_busy_loop p pgidx zero i = p
set_busy_loop p pgidx (suc n) i = set_busy_loop (mark_busy p (add64 pgidx i)) pgidx n (i + 1)

unfoldable pub pmm_set_free : Pmm → ℕ → ℕ → Pmm
pmm_set_free p pa pgnum =
    let pgidx = pa2pgidx pa in
    if leb p.total_pages (add64 pgidx pgnum) then p else set_free_loop p pgidx pgnum 0

unfoldable pub pmm_set_busy : Pmm → ℕ → ℕ → Pmm
pmm_set_busy p pa pgnum =
    let pgidx = pa2pgidx pa in
    if leb p.total_pages (add64 pgidx pgnum) then p else set_busy_loop p pgidx pgnum 0

-- The first clear bit from `i` on, within `n` rounds.
unfoldable pub first_clear : Pmm → ℕ → ℕ → Option ℕ
first_clear p zero i = none
first_clear p (suc n) i =
    let rest = first_clear p n (i + 1) in if bit_test p i then rest else some i

-- What the allocation loops do at the page that they found.
unfoldable pub take_page : Pmm → ℕ → Pmm
take_page p i = record (bit_set p i) {
  free_pages = sub64 p.free_pages 1;
  last_free_index = add64 i 1;
}

-- The second loop, from page 0 up to the cursor.
unfoldable pub alloc_from_zero : Pmm → ℕ × Pmm
alloc_from_zero p = elim (first_clear p p.last_free_index 0) [
  | none ↦ (0, p)
  | some i ↦ (pgidx2pa i, take_page p i)
]

-- The first loop, from the cursor on, and what follows where it finds nothing.
unfoldable pub alloc_from_cursor : Pmm → ℕ × Pmm
alloc_from_cursor p = elim (first_clear p (p.total_pages - p.last_free_index) p.last_free_index) [
  | none ↦ alloc_from_zero p
  | some i ↦ (pgidx2pa i, take_page p i)
]

-- The physical address of a page, or 0.
unfoldable pub pmm_alloc_page : Pmm → ℕ × Pmm
pmm_alloc_page p = if p.free_pages == 0 then (0, p) else alloc_from_cursor p

-- The release itself, and the cursor drawn back.
unfoldable pub release_page : Pmm → ℕ → Pmm
release_page p pgidx = record (bit_unset p pgidx) {
  free_pages = add64 p.free_pages 1;
  last_free_index = if ltb pgidx p.last_free_index then pgidx else p.last_free_index;
}

unfoldable pub pmm_free_page : Pmm → ℕ → Pmm
pmm_free_page p pa =
    let pgidx = pa2pgidx pa in
    if leb p.total_pages pgidx then p else (if bit_test p pgidx then release_page p pgidx else p)
