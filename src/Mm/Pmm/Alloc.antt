-- ===== src/Mm/Pmm/Alloc.antt =====
-- `pmm_alloc_page` of kernel/src/mm/pmm.c: which page the next-fit search hands out, and what it
-- leaves.
use sudo_os.Prelude.{
  ℕ, zero, suc, ◌+◌, ◌-◌, ◌*◌, ◌≤◌, ◌<◌, ◌≡◌, ◌≢◌, ◌⊎◌, ◌↔◌, inl, inr, true, false, refl, none,
  some, arith, ◌==◌, Bool-cases, Option-cases,
}
use native.Mathlib.Decide.{ℕ_discrete, dec_lt}
use sudo_os.Prelude.Count.{count_below-le, count_below_pos, count_below_none}
use sudo_os.Mm.Pmm.{
  Pmm, bit_test, bit_set, first_clear, take_page, alloc_from_zero, alloc_from_cursor,
  pmm_alloc_page, pgidx2pa,
}
use sudo_os.Mm.Pmm.Valid.{IsValid, Sets, is_free, take_page-Sets, take_page-IsValid}

-- Every page from `lo` up to `hi` is in use.
abbrev pub BusyFrom : Pmm → ℕ → ℕ → Type 0
BusyFrom p lo hi = (j : ℕ) → lo ≤ j → j < hi → bit_test p j ≡ true

first_clear-some :
    (p : Pmm) (n i k : ℕ)
    → first_clear p n i ≡ some k
    → (i ≤ k) × (k < i + n) × (bit_test p k ≡ false) × BusyFrom p i k
unfolding first_clear
first_clear-some p zero i k e = ground arith
first_clear-some p (suc n) i k e = elim (Bool-cases (bit_test p i)) [
  | inl h ↦
      let e' : first_clear p n (i + 1) ≡ some k = ground arith in
      let r = first_clear-some p n (i + 1) k e' in
      (
        omega arith,
        omega arith,
        r.2,
        λ j lo hi. elim (ℕ_discrete i j) [ yes q ↦ rw (← q) h | no ne ↦ r.3 j (omega arith) hi ],
      )
  | inr h ↦
      let e' : i ≡ k = ground arith in
      (omega arith, omega arith, rw (← e') h, λ j lo hi. absurd (omega arith))
]

first_clear-none : (p : Pmm) (n i : ℕ) → first_clear p n i ≡ none → BusyFrom p i (i + n)
unfolding first_clear
first_clear-none p zero i e j lo hi = absurd (omega arith)
first_clear-none p (suc n) i e j lo hi = elim (Bool-cases (bit_test p i)) [
  | inl h ↦ elim (ℕ_discrete i j) [
    | yes q ↦ rw (← q) h
    | no ne ↦ first_clear-none p n (i + 1) (ground arith) j (omega arith) (omega arith)
  ]
  | inr h ↦ ground arith
]

-- The page that next-fit is to choose: the first free one from the cursor on, or, where all of those
-- are in use, the first free one from page 0 on.
pub record NextFit (p : Pmm) (k : ℕ) : Type 0 where
  pub in_range : k < p.total_pages
  pub unused : bit_test p k ≡ false
  pub first :
      ((p.last_free_index ≤ k) × BusyFrom p p.last_free_index k)
      ⊎ ((k < p.last_free_index) × BusyFrom p p.last_free_index p.total_pages × BusyFrom p 0 k)

-- What a successful allocation of page `k` returns and leaves.
pub record Allocated (p : Pmm) (k : ℕ) (r : ℕ × Pmm) : Type 0 where
  pub fit : NextFit p k
  pub address : r.0 ≡ k * 4096
  pub bits : Sets p r.1 k
  pub fewer : r.1.free_pages + 1 ≡ p.free_pages
  pub cursor : r.1.last_free_index ≡ k + 1
  pub total : r.1.total_pages ≡ p.total_pages
  pub valid : IsValid r.1

module _ {p : Pmm} (v : IsValid p) where
  no_free_page : p.free_pages ≡ 0 → BusyFrom p 0 p.total_pages
  no_free_page e j lo hi = elim (Bool-cases (bit_test p j)) [
    | inl h ↦ h
    | inr h ↦
        let pos = count_below_pos (is_free p) j p.total_pages hi (rw h) in
        let counted = v.counted in absurd (omega arith)
  ]

  take_page-Allocated :
      (k : ℕ) → 0 < p.free_pages → NextFit p k → Allocated p k (pgidx2pa k, take_page p k)
  unfolding take_page bit_set
  take_page-Allocated k pos fit = record {
    fit = fit;
    address = omega arith;
    bits = take_page-Sets v k fit.in_range;
    fewer = omega (arith, count_below-le (is_free p) p.total_pages);
    cursor = omega arith;
    total = refl;
    valid = take_page-IsValid v k fit.in_range fit.unused;
  }

  alloc_from_zero-Allocated :
      0 < p.free_pages
      → BusyFrom p p.last_free_index p.total_pages
      → (k : ℕ) × Allocated p k (alloc_from_zero p)
  unfolding alloc_from_zero
  alloc_from_zero-Allocated pos busy = elim (Option-cases (first_clear p p.last_free_index 0)) [
    | inl e ↦
        let all : BusyFrom p 0 p.total_pages = λ j lo hi. elim (dec_lt j p.last_free_index) [
          | yes lt ↦ first_clear-none p p.last_free_index 0 e j lo (omega arith)
          | no ge ↦ busy j (omega arith) hi
        ] in
        let counted = v.counted in
        absurd (
          omega
            (arith, count_below_none (is_free p) p.total_pages λ j lt. rw (all j (omega arith) lt)))
    | inr (k, e) ↦
        let r = first_clear-some p p.last_free_index 0 k e in
        rw (e, alloc_from_zero)
          (
            k,
            take_page-Allocated k pos (record {
              in_range = omega arith;
              unused = r.2;
              first = inr (omega arith, busy, r.3);
            }),
          )
  ]

  alloc_from_cursor-Allocated : 0 < p.free_pages → (k : ℕ) × Allocated p k (alloc_from_cursor p)
  unfolding alloc_from_cursor
  alloc_from_cursor-Allocated pos =
      let at_end = v.cursor in
      elim (Option-cases (first_clear p (p.total_pages - p.last_free_index) p.last_free_index)) [
        | inl e ↦
            rw (e, alloc_from_cursor)
              (alloc_from_zero-Allocated pos λ j lo hi.
                first_clear-none p (p.total_pages - p.last_free_index) p.last_free_index e j lo
                  (omega arith))
        | inr (k, e) ↦
            let r = first_clear-some p (p.total_pages - p.last_free_index) p.last_free_index k e in
            rw (e, alloc_from_cursor)
              (
                k,
                take_page-Allocated k pos
                    (record { in_range = omega arith; unused = r.2; first = inl (r.0, r.3) }),
              )
      ]

  -- On a valid allocator that counts a free page, `pmm_alloc_page` hands out the page that next-fit
  -- is to choose: it returns that page's address, sets its bit and no other, counts one free page
  -- less, moves the cursor behind the page, and keeps the invariant.
  pub pmm_alloc_page-Allocated : 0 < p.free_pages → (k : ℕ) × Allocated p k (pmm_alloc_page p)
  unfolding pmm_alloc_page
  pmm_alloc_page-Allocated pos =
      let ne : (p.free_pages == 0) ≡ false = ground arith in rw ne (alloc_from_cursor-Allocated pos)

  pub pmm_alloc_page-empty : p.free_pages ≡ 0 → pmm_alloc_page p ≡ (0, p)
  unfolding pmm_alloc_page
  pmm_alloc_page-empty e = rw e

  -- With page 0 reserved, the result 0 means that every page is in use and that nothing changed.
  pub pmm_alloc_page-zero :
      bit_test p 0 ≡ true
      → (((pmm_alloc_page p).0 ≡ 0) ↔ BusyFrom p 0 p.total_pages)
        × ((pmm_alloc_page p).0 ≡ 0 → (pmm_alloc_page p).1 ≡ p)
  pmm_alloc_page-zero reserved = elim (dec_lt 0 p.free_pages) [
    | yes pos ↦
        let (k, a) = pmm_alloc_page-Allocated pos in
        let unused = a.fit.unused in
        let addr = a.address in
        let off : (pmm_alloc_page p).0 ≢ 0 =
          λ e. let k0 : k ≡ 0 = omega arith in cc (rw k0 at unused) in
        (
          ((λ e. absurd (off e)), (λ all. cc (all k (omega arith) a.fit.in_range))),
          λ e. absurd (off e),
        )
    | no none_left ↦
        let e : p.free_pages ≡ 0 = omega arith in
        (
          ((λ _. no_free_page e), (λ _. rw (pmm_alloc_page-empty e))),
          λ _. rw (pmm_alloc_page-empty e),
        )
  ]

  -- `pmm_alloc_page` with page 0 reserved, on every branch: it hands out the page that next-fit is to
  -- choose, at an address other than 0, or every page is in use, and it returns 0 and changes nothing.
  pub pmm_alloc_page_cases :
      bit_test p 0 ≡ true
      → (((pmm_alloc_page p).0 ≢ 0) × ((k : ℕ) × Allocated p k (pmm_alloc_page p)))
        ⊎ ((pmm_alloc_page p ≡ (0, p)) × BusyFrom p 0 p.total_pages)
  pmm_alloc_page_cases reserved = elim (dec_lt 0 p.free_pages) [
    | yes pos ↦
        let (k, a) = pmm_alloc_page-Allocated pos in
        let unused = a.fit.unused in
        let addr = a.address in
        inl ((λ e. let k0 : k ≡ 0 = omega arith in cc (rw k0 at unused)), (k, a))
    | no none_left ↦
        let e : p.free_pages ≡ 0 = omega arith in inr (pmm_alloc_page-empty e, no_free_page e)
  ]

  -- Whatever happens, the invariant is kept.
  pub pmm_alloc_page-IsValid : IsValid (pmm_alloc_page p).1
  pmm_alloc_page-IsValid = elim (dec_lt 0 p.free_pages) [
    | yes pos ↦ (pmm_alloc_page-Allocated pos).1.valid
    | no none_left ↦ rw (pmm_alloc_page-empty (omega arith)) v
  ]
