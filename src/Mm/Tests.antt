-- ===== src/Mm/Tests.antt =====
-- Concrete runs of the page allocator of kernel/src/mm/pmm.c.
use sudo_os.Prelude.{
  ℕ, zero, suc, ◌/◌, ◌<◌, ◌≡◌, ◌≢◌, ◌⊎◌, inl, inr, true, refl, arith, some, List, [], ◌∷◌, get_or,
}
use sudo_os.Prelude.Bits.{byte_test}
use sudo_os.Prelude.Count.{count_below}
use sudo_os.Mm.Pmm.{
  Pmm, bit_test, pmm_alloc_page, pmm_free_page, first_clear, alloc_from_cursor, take_page,
}
use sudo_os.Mm.Pmm.Valid.{IsValid, is_free}
use sudo_os.Mm.Pmm.Alloc.{Allocated, BusyFrom, pmm_alloc_page-Allocated, pmm_alloc_page_cases}
use sudo_os.Mm.Pmm.Free.{Released, Refused, pmm_free_page_cases}
use sudo_os.Mm.Pmm.Owners.{World, here, next, ask, IsSafe, Reach-IsSafe}
use sudo_os.Mm.Boot.{Entry, highest_end, find_bitmap, bitmap_bytes, pmm_init}
use sudo_os.Mm.Boot.Free.{IsFresh, BitmapFits, Booted, pmm_init-Booted}

-- Ten pages, of which 0 and 1 are in use, and the cursor behind them.
abbrev pub ten_pages : Pmm
ten_pages = record {
  bitmap = 3 ∷ 0 ∷ [];
  bitmap_size = 2;
  total_pages = 10;
  free_pages = 8;
  last_free_index = 2;
}

ten_pages-Bytes : (i : ℕ) → get_or (3 ∷ 0 ∷ []) i 0 < 256
ten_pages-Bytes zero = omega arith
ten_pages-Bytes (suc zero) = omega arith
ten_pages-Bytes (suc (suc i)) = omega arith

ten_pages-counted : 8 ≡ count_below (is_free ten_pages) 10
unfolding count_below bit_test byte_test
ten_pages-counted = refl

pub ten_pages-IsValid : IsValid ten_pages
ten_pages-IsValid = record {
  bytes = ten_pages-Bytes;
  size = refl;
  room = omega arith;
  small = omega arith;
  counted = ten_pages-counted;
  cursor = omega arith;
}

pub page_in_use : (bit_test ten_pages 0 ≡ true) × (bit_test ten_pages 1 ≡ true)
unfolding bit_test byte_test
page_in_use = (refl, refl)

pmm_alloc_page-Allocated_example : (k : ℕ) × Allocated ten_pages k (pmm_alloc_page ten_pages)
pmm_alloc_page-Allocated_example = pmm_alloc_page-Allocated ten_pages-IsValid (omega arith)

pmm_alloc_page_cases_example :
    (((pmm_alloc_page ten_pages).0 ≢ 0)
      × ((k : ℕ) × Allocated ten_pages k (pmm_alloc_page ten_pages)))
    ⊎ ((pmm_alloc_page ten_pages ≡ (0, ten_pages)) × BusyFrom ten_pages 0 10)
pmm_alloc_page_cases_example = pmm_alloc_page_cases ten_pages-IsValid page_in_use.0

pmm_free_page_cases_example :
    (Released ten_pages 1 (pmm_free_page ten_pages 4096) × ¬ Refused ten_pages 1)
    ⊎ ((pmm_free_page ten_pages 4096 ≡ ten_pages) × Refused ten_pages 1)
pmm_free_page_cases_example = pmm_free_page_cases ten_pages-IsValid 4096

-- A client that holds page 1.
abbrev holder : World
holder = record { pmm = ten_pages; held = 4096 ∷ [] }

holder-IsSafe : IsSafe holder
holder-IsSafe = record {
  valid = ten_pages-IsValid;
  reserved = page_in_use.0;
  not_null = λ m. elim m [ inl e ↦ absurd (omega arith) | inr l ↦ l ];
  all_held = (omega arith, omega arith, page_in_use.1, (λ m. m), tt);
}

asked : (pmm_alloc_page ten_pages).0 ≢ 0
unfolding pmm_alloc_page first_clear alloc_from_cursor take_page bit_test byte_test
asked e = absurd (omega arith)

-- It asks for another page, and gives page 1 back.
abbrev page_taken : World
page_taken = record {
  pmm = (pmm_alloc_page ten_pages).1;
  held = (pmm_alloc_page ten_pages).0 ∷ 4096 ∷ [];
}

Reach-IsSafe_example : IsSafe page_taken
Reach-IsSafe_example = Reach-IsSafe (next here (ask asked)) holder-IsSafe

-- Memory from page 1 to page 9.
abbrev nine_pages : List Entry
nine_pages = record { base = 4096; length = 36864; kind = 0 } ∷ []

abbrev no_pages : Pmm
no_pages = record {
  bitmap = [];
  bitmap_size = 0;
  total_pages = 0;
  free_pages = 0;
  last_free_index = 0;
}

no_pages-IsFresh : IsFresh no_pages
no_pages-IsFresh = record { none_free = refl; at_start = refl }

nine_pages-found : find_bitmap (bitmap_bytes (highest_end 0 nine_pages / 4096)) nine_pages ≢ 0
unfolding find_bitmap highest_end
nine_pages-found e = absurd (omega arith)

nine_pages-fits : BitmapFits nine_pages
unfolding find_bitmap highest_end
nine_pages-fits = omega arith

pmm_init-Booted_example : (q : Pmm) × (pmm_init no_pages nine_pages ≡ some q) × Booted nine_pages q
pmm_init-Booted_example =
    pmm_init-Booted no_pages nine_pages no_pages-IsFresh nine_pages-found nine_pages-fits
