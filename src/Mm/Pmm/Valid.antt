-- ===== src/Mm/Pmm/Valid.antt =====
-- The invariant of the page allocator of kernel/src/mm/pmm.c, and its preservation by the steps that
-- set or clear one bit: `take_page`, `mark_free`, `mark_busy` and `release_page`.
use sudo_os.Prelude.{
  ℕ, ◌+◌, ◌*◌, ◌/◌, ◌^◌, ◌≤◌, ◌<◌, ◌≡◌, Bool, true, false, not, arith, ◌==◌, if◌then◌else◌, length,
  length-set, get_or, ◌%◌, inl, inr, Bool-cases, ltb,
}
use sudo_os.Prelude.Bits.{byte_set, byte_unset}
use sudo_os.Prelude.Count.{count_below, count_below-le, count_below_flip}
use sudo_os.Prelude.Words.{add64, sub64}
use sudo_os.Mm.Pmm.{
  Pmm, bit_test, bit_set, bit_unset, mark_free, mark_busy, take_page, release_page,
}
use sudo_os.Mm.Pmm.Bitmap.{
  Bytes, bit_test-bit_set, bit_test-bit_unset, bit_set-Bytes, bit_unset-Bytes,
}

-- A page is free if its bit is clear.
abbrev pub is_free : Pmm → ℕ → Bool
is_free p pg = not (bit_test p pg)

pub record IsValid (p : Pmm) : Type 0 where
  pub bytes : Bytes p
  pub size : length p.bitmap ≡ p.bitmap_size
  pub room : p.total_pages ≤ 8 * p.bitmap_size
  pub small : p.total_pages ≤ 2 ^ 52
  pub counted : p.free_pages ≡ count_below (is_free p) p.total_pages
  pub cursor : p.last_free_index ≤ p.total_pages

-- `q` is `p` with the bit of page `i` set, or cleared.
abbrev pub Sets : Pmm → Pmm → ℕ → Type 0
Sets p q i = (j : ℕ) → bit_test q j ≡ (if i == j then true else bit_test p j)

abbrev pub Clears : Pmm → Pmm → ℕ → Type 0
Clears p q i = (j : ℕ) → bit_test q j ≡ (if i == j then false else bit_test p j)

module _ (p q : Pmm) (i n : ℕ) (lt : i < n) where
  count_below-Sets :
      Sets p q i → bit_test p i ≡ false → count_below (is_free p) n ≡ count_below (is_free q) n + 1
  count_below-Sets s h =
      count_below_flip (is_free q) (is_free p) i n lt (ground (arith, s i)) (ground arith)
        (λ j _ ne. ground (arith, s j))

  count_below-Clears :
      Clears p q i → bit_test p i ≡ true → count_below (is_free q) n ≡ count_below (is_free p) n + 1
  count_below-Clears s h =
      count_below_flip (is_free p) (is_free q) i n lt (ground arith) (ground (arith, s i))
        (λ j _ ne. ground (arith, s j))

module _ {p : Pmm} (v : IsValid p) (i : ℕ) (lt : i < p.total_pages) where
  in_bitmap : i / 8 < length p.bitmap
  in_bitmap = omega arith

  pub take_page-Sets : Sets p (take_page p i) i
  unfolding take_page bit_test
  take_page-Sets j = bit_test-bit_set p v.bytes i in_bitmap j

  pub release_page-Clears : Clears p (release_page p i) i
  unfolding release_page bit_test
  release_page-Clears j = bit_test-bit_unset p v.bytes i in_bitmap j

  mark_busy-busy : bit_test p i ≡ true → mark_busy p i ≡ p
  unfolding mark_busy
  mark_busy-busy h = rw h

  mark_busy-free :
      bit_test p i ≡ false
      → mark_busy p i ≡ record (bit_set p i) { free_pages = sub64 p.free_pages 1 }
  unfolding mark_busy
  mark_busy-free h = rw h

  mark_free-free : bit_test p i ≡ false → mark_free p i ≡ p
  unfolding mark_free
  mark_free-free h = rw h

  mark_free-busy :
      bit_test p i ≡ true
      → mark_free p i ≡ record (bit_unset p i) { free_pages = add64 p.free_pages 1 }
  unfolding mark_free
  mark_free-busy h = rw h

  set_bit-Sets : (n : ℕ) → Sets p (record (bit_set p i) { free_pages = n }) i
  unfolding bit_test
  set_bit-Sets n j = bit_test-bit_set p v.bytes i in_bitmap j

  unset_bit-Clears : (n : ℕ) → Clears p (record (bit_unset p i) { free_pages = n }) i
  unfolding bit_test
  unset_bit-Clears n j = bit_test-bit_unset p v.bytes i in_bitmap j

  pub mark_busy-Sets : Sets p (mark_busy p i) i
  mark_busy-Sets j = elim (Bool-cases (bit_test p i)) [
    | inl h ↦ rw (mark_busy-busy h) (ground arith)
    | inr h ↦ rw (mark_busy-free h) (set_bit-Sets _ j)
  ]

  pub mark_free-Clears : Clears p (mark_free p i) i
  mark_free-Clears j = elim (Bool-cases (bit_test p i)) [
    | inl h ↦ rw (mark_free-busy h) (unset_bit-Clears _ j)
    | inr h ↦ rw (mark_free-free h) (ground arith)
  ]

  -- Setting the bit of a free page, with one less in the count, keeps the invariant.
  after_set :
      (cursor : ℕ)
      → cursor ≤ p.total_pages
      → bit_test p i ≡ false
      → IsValid
          (record (bit_set p i) { free_pages = sub64 p.free_pages 1; last_free_index = cursor })
  unfolding bit_set bit_test
  after_set cursor le h =
      let q : Pmm = record (bit_set p i) {
        free_pages = sub64 p.free_pages 1;
        last_free_index = cursor;
      } in
      record {
        bytes = bit_set-Bytes p v.bytes i in_bitmap;
        size =
            ground
              (arith, length-set p.bitmap (i / 8) (byte_set (get_or p.bitmap (i / 8) 0) (i % 8)));
        room = v.room;
        small = v.small;
        counted = omega (
          arith,
          count_below-Sets p q i p.total_pages lt (bit_test-bit_set p v.bytes i in_bitmap) h,
          count_below-le (is_free p) p.total_pages,
        );
        cursor = le;
      }

  -- Clearing the bit of a page in use, with one more in the count, keeps the invariant.
  after_unset :
      (cursor : ℕ)
      → cursor ≤ p.total_pages
      → bit_test p i ≡ true
      → IsValid
          (record (bit_unset p i) { free_pages = add64 p.free_pages 1; last_free_index = cursor })
  unfolding bit_unset bit_test
  after_unset cursor le h =
      let q : Pmm = record (bit_unset p i) {
        free_pages = add64 p.free_pages 1;
        last_free_index = cursor;
      } in
      record {
        bytes = bit_unset-Bytes p v.bytes i in_bitmap;
        size =
            ground
              (arith, length-set p.bitmap (i / 8) (byte_unset (get_or p.bitmap (i / 8) 0) (i % 8)));
        room = v.room;
        small = v.small;
        counted = omega (
          arith,
          count_below-Clears p q i p.total_pages lt (bit_test-bit_unset p v.bytes i in_bitmap) h,
          count_below-le (is_free p) p.total_pages,
          count_below-le (is_free q) p.total_pages,
        );
        cursor = le;
      }

  pub take_page-IsValid : bit_test p i ≡ false → IsValid (take_page p i)
  unfolding take_page
  take_page-IsValid h = after_set (add64 i 1) (omega arith) h

  pub release_page-IsValid : bit_test p i ≡ true → IsValid (release_page p i)
  unfolding release_page
  release_page-IsValid h =
      after_unset (if ltb i p.last_free_index then i else p.last_free_index) (ground arith) h

  pub mark_busy-IsValid : IsValid (mark_busy p i)
  unfolding bit_set
  mark_busy-IsValid = elim (Bool-cases (bit_test p i)) [
    | inl h ↦ rw (mark_busy-busy h) v
    | inr h ↦ rw (mark_busy-free h) (after_set p.last_free_index v.cursor h)
  ]

  pub mark_free-IsValid : IsValid (mark_free p i)
  unfolding bit_unset
  mark_free-IsValid = elim (Bool-cases (bit_test p i)) [
    | inl h ↦ rw (mark_free-busy h) (after_unset p.last_free_index v.cursor h)
    | inr h ↦ rw (mark_free-free h) v
  ]
