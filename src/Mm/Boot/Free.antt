-- ===== src/Mm/Boot/Free.antt =====
-- Which pages are free after `pmm_init` of kernel/src/mm/pmm.c.
use sudo_os.Prelude.{
  ℕ, ◌+◌, ◌-◌, ◌/◌, ◌%◌, ◌^◌, ◌≤◌, ◌<◌, ◌≡◌, ◌≢◌, Bool, true, false, not, ◌&&◌, ◌||◌, refl, ap,
  arith, ◌==◌, if◌then◌else◌, ltb, leb, some, List, [], ◌∷◌, Bool-cases, inl, inr, ◌∙◌, replicate,
  length-replicate, get_or-replicate, get_or-out,
}
use native.Mathlib.Decide.{dec_lt}
use sudo_os.Prelude.Bits.{byte_test-ones}
use sudo_os.Prelude.Count.{count_below_none}
use sudo_os.Prelude.Words.{add64, align_down, align_up}
use sudo_os.Mm.Pmm.{Pmm, bit_test, pmm_set_free}
use sudo_os.Mm.Pmm.Valid.{IsValid, is_free}
use sudo_os.Mm.Pmm.Ranges.{within, pmm_set_busy-Marked, pmm_set_free_cases}
use sudo_os.Mm.Boot.{
  Entry, usable, highest_end, bitmap_bytes, bitmap_pages, find_bitmap, free_region, free_regions,
  all_busy, reserve, pmm_init,
}

-- The page lies in the whole pages of a usable entry that ends below the last page.
unfoldable pub freed_by : ℕ → Entry → ℕ → Bool
freed_by total e j =
    e.kind == usable
    && ltb (add64 e.base e.length / 4096) total
    && leb (align_up e.base 4096 / 4096) j
    && ltb j (add64 e.base e.length / 4096)

unfoldable pub freed : ℕ → List Entry → ℕ → Bool
freed total [] j = false
freed total (e ∷ es) j = freed_by total e j || freed total es j

-- A fresh allocator, as the globals of pmm.c are initialised.
pub record IsFresh (p : Pmm) : Type 0 where
  pub none_free : p.free_pages ≡ 0
  pub at_start : p.last_free_index ≡ 0

highest_end-lt : (es : List Entry) (h : ℕ) → h < 2 ^ 64 → highest_end h es < 2 ^ 64
unfolding highest_end
highest_end-lt [] h lt = lt
highest_end-lt (e ∷ es) h lt =
    highest_end-lt es (if ltb h (add64 e.base e.length) then add64 e.base e.length else h)
      (ground arith)

module _ (p : Pmm) (fresh : IsFresh p) (total : ℕ) (small : total ≤ 2 ^ 52) where
  all_busy-bit : (j : ℕ) → j < total → bit_test (all_busy p total) j ≡ true
  unfolding bit_test
  all_busy-bit j lt =
      rw (get_or-replicate {A = ℕ} (bitmap_bytes total) (j / 8) 255 0 (ground arith))
        (byte_test-ones (j % 8) (omega arith))

  all_busy-IsValid : IsValid (all_busy p total)
  all_busy-IsValid = record {
    bytes = λ i. elim (dec_lt i (bitmap_bytes total)) [
      | yes lt ↦ rw (get_or-replicate {A = ℕ} (bitmap_bytes total) i 255 0 lt) (omega arith)
      | no ge ↦
          let n = length-replicate {A = ℕ} (bitmap_bytes total) 255 in
          rw (get_or-out {A = ℕ} (replicate (bitmap_bytes total) 255) i 0 (omega arith))
            (omega arith)
    ];
    size = length-replicate (bitmap_bytes total) 255;
    room = ground arith;
    small = small;
    counted = omega (
      arith,
      fresh.none_free,
      count_below_none (is_free (all_busy p total)) total (λ j lt. rw (all_busy-bit j lt)),
    );
    cursor = omega (arith, fresh.at_start);
  }

-- `q` is `p` with the bits of the pages that `f` picks cleared, and a count that fits.
record Opened (p : Pmm) (f : ℕ → Bool) (q : Pmm) : Type 0 where
  bits : (j : ℕ) → bit_test q j ≡ (if f j then false else bit_test p j)
  total : q.total_pages ≡ p.total_pages
  size : q.bitmap_size ≡ p.bitmap_size
  cursor : q.last_free_index ≡ p.last_free_index
  valid : IsValid q

Opened-none : {p : Pmm} (f : ℕ → Bool) → IsValid p → ((j : ℕ) → f j ≡ false) → Opened p f p
Opened-none f v h = record {
  bits = λ j. rw (h j);
  total = refl;
  size = refl;
  cursor = refl;
  valid = v;
}

module _ {p : Pmm} (e : Entry) (v : IsValid p) where
  abbrev start : ℕ
  start = align_up e.base 4096

  abbrev end : ℕ
  end = align_down (add64 e.base e.length) 4096

  -- The pages of a region that is not empty.
  open_range :
      start < end
      → (e.kind == usable) ≡ true
      → Opened p (freed_by p.total_pages e) (pmm_set_free p start ((end - start) / 4096))
  unfolding freed_by
  open_range lt is_usable =
      elim (pmm_set_free_cases v start ((end - start) / 4096) (omega arith) (omega arith)) [
        | inl (m, inside) ↦
            let below : start / 4096 + (end - start) / 4096 < p.total_pages = omega arith in
            record {
              bits = λ j. ground (arith, m.bits j);
              total = m.total;
              size = m.size;
              cursor = m.cursor;
              valid = m.valid;
            }
        | inr (same, top) ↦ rw same (Opened-none (freed_by p.total_pages e) v (λ j. ground arith))
      ]

  free_region-Opened : Opened p (freed_by p.total_pages e) (free_region p e)
  unfolding free_region
  free_region-Opened = elim (Bool-cases (e.kind == usable)) [
    | inr other ↦
        rw other (Opened-none (freed_by p.total_pages e) v (unfold freed_by in λ j. rw other))
    | inl is_usable ↦ elim (dec_lt start end) [
      | yes lt ↦
          let wide : leb end start ≡ false = ground arith in
          rw (is_usable, wide) (open_range lt is_usable)
      | no ge ↦
          let empty : leb end start ≡ true = ground arith in
          rw (is_usable, empty)
            (Opened-none (freed_by p.total_pages e) v (unfold freed_by in λ j. ground arith))
    ]
  ]

free_regions-Opened :
    (es : List Entry) {p : Pmm} → IsValid p → Opened p (freed p.total_pages es) (free_regions p es)
unfolding free_regions freed
free_regions-Opened [] {p} v = Opened-none (freed p.total_pages []) v (λ j. refl)
free_regions-Opened (e ∷ es) {p} v =
    let first = free_region-Opened e v in
    let rest = free_regions-Opened es first.valid in
    record {
      bits = λ j.
          let same : freed (free_region p e).total_pages es j ≡ freed p.total_pages es j =
            ap (λ t. freed t es j) first.total in
          ground (arith, rest.bits j, first.bits j);
      total = rest.total ∙ first.total;
      size = rest.size ∙ first.size;
      cursor = rest.cursor ∙ first.cursor;
      valid = rest.valid;
    }

-- The bitmap's own pages lie below the last page of memory.
abbrev pub BitmapFits : List Entry → Type 0
BitmapFits es =
    let total = highest_end 0 es / 4096 in
    find_bitmap (bitmap_bytes total) es / 4096 + bitmap_pages (bitmap_bytes total) < total

-- What `pmm_init` is to leave, for the memory map `es`.
pub record Booted (es : List Entry) (q : Pmm) : Type 0 where
  pub total : q.total_pages ≡ highest_end 0 es / 4096
  pub cursor : q.last_free_index ≡ 0
  pub valid : IsValid q
  pub free_iff :
      let pages = highest_end 0 es / 4096 in
      let size = bitmap_bytes pages in
      (j : ℕ)
      → j < pages
      → is_free q j ≡ (
          freed pages es j
          && not (within (find_bitmap size es / 4096) (bitmap_pages size) j)
          && not (j == 0))

-- The two reservations at the end.
record Reserved (o : Pmm) (bitmap_pa : ℕ) (q : Pmm) : Type 0 where
  bits :
      (j : ℕ)
      → bit_test q j ≡ (
          if within (bitmap_pa / 4096) (bitmap_pages o.bitmap_size) j || (j == 0)
          then true
          else bit_test o j)
  total : q.total_pages ≡ o.total_pages
  cursor : q.last_free_index ≡ o.last_free_index
  valid : IsValid q

reserve-Reserved :
    {o : Pmm} (bitmap_pa : ℕ)
    → IsValid o
    → o.bitmap_size ≤ 2 ^ 52
    → bitmap_pa / 4096 + bitmap_pages o.bitmap_size < o.total_pages
    → Reserved o bitmap_pa (reserve o bitmap_pa)
unfolding reserve
reserve-Reserved {o} bitmap_pa v small fits =
    let small_total = v.small in
    let room = v.room in
    let m1 =
      pmm_set_busy-Marked v bitmap_pa (bitmap_pages o.bitmap_size) (omega arith) (omega arith)
        fits in
    let m2 =
      pmm_set_busy-Marked m1.valid 0 1 (omega arith) (omega arith) (omega (arith, m1.total)) in
    record {
      bits = λ j. ground (arith, m1.bits j, m2.bits j);
      total = m2.total ∙ m1.total;
      cursor = m2.cursor ∙ m1.cursor;
      valid = m2.valid;
    }

module _ (p : Pmm) (fresh : IsFresh p) (es : List Entry) where
  abbrev pages : ℕ
  pages = highest_end 0 es / 4096

  abbrev opened : Pmm
  opened = free_regions (all_busy p pages) es

  pages-small : pages ≤ 2 ^ 52
  pages-small = omega (arith, highest_end-lt es 0 (omega arith))

  opened-Opened : Opened (all_busy p pages) (freed pages es) opened
  opened-Opened = free_regions-Opened es (all_busy-IsValid p fresh pages pages-small)

  reserve-Booted : BitmapFits es → Booted es (reserve opened (find_bitmap (bitmap_bytes pages) es))
  reserve-Booted fits =
      let bitmap_pa = find_bitmap (bitmap_bytes pages) es in
      let o = opened-Opened in
      let r : Reserved opened bitmap_pa (reserve opened bitmap_pa) =
        reserve-Reserved bitmap_pa o.valid (ground (arith, o.size, pages-small))
          (ground (arith, o.size, o.total)) in
      record {
        total = r.total ∙ o.total;
        cursor = r.cursor ∙ o.cursor ∙ fresh.at_start;
        valid = r.valid;
        free_iff = λ j lt. ground (
          arith,
          r.bits j,
          o.bits j,
          o.size,
          o.total,
          all_busy-bit p fresh pages pages-small j lt,
        );
      }

-- On fresh globals, when a place for the bitmap is found and the bitmap lies below the last page,
-- `pmm_init` returns; the allocator that it leaves is valid, its cursor is at 0, and a page is free
-- exactly if it lies in the whole pages of a usable region that ends below the last page, is none of
-- the bitmap's pages, and is not page 0.
pub pmm_init-Booted :
    (p : Pmm) (es : List Entry)
    → IsFresh p
    → find_bitmap (bitmap_bytes (highest_end 0 es / 4096)) es ≢ 0
    → BitmapFits es
    → (q : Pmm) × (pmm_init p es ≡ some q) × Booted es q
unfolding pmm_init
pmm_init-Booted p es fresh found fits =
    let bitmap_pa = find_bitmap (bitmap_bytes (highest_end 0 es / 4096)) es in
    let ne : (bitmap_pa == 0) ≡ false = ground arith in
    (reserve (opened p fresh es) bitmap_pa, rw ne, reserve-Booted p fresh es fits)
