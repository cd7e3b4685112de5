-- ===== src/Mm/Pmm/Free.antt =====
-- `pmm_free_page` of kernel/src/mm/pmm.c on every branch, and how it undoes an allocation.
use sudo_os.Prelude.{
  ℕ, ◌+◌, ◌*◌, ◌/◌, ◌≤◌, ◌<◌, ◌≡◌, true, false, refl, arith, sym, ◌∙◌, Bool-cases, inl, inr, leb,
  min, ◌⊎◌,
}
use mathlib.Core.Bool.{false≢true}
use native.Mathlib.Decide.{dec_lt}
use sudo_os.Prelude.Count.{count_below-le}
use sudo_os.Mm.Pmm.{Pmm, bit_test, bit_unset, release_page, pmm_alloc_page, pmm_free_page}
use sudo_os.Mm.Pmm.Valid.{IsValid, Clears, is_free, release_page-Clears, release_page-IsValid}
use sudo_os.Mm.Pmm.Alloc.{NextFit, pmm_alloc_page-Allocated}

-- What the release of page `k` leaves.
pub record Released (p : Pmm) (k : ℕ) (q : Pmm) : Type 0 where
  pub bits : Clears p q k
  pub more : q.free_pages ≡ p.free_pages + 1
  pub cursor : q.last_free_index ≡ min k p.last_free_index
  pub total : q.total_pages ≡ p.total_pages
  pub valid : IsValid q

-- The two refusals: an address past the last page, and a page that is not in use.
abbrev pub Refused : Pmm → ℕ → Type 0
Refused p k = (p.total_pages ≤ k) ⊎ (bit_test p k ≡ false)

module _ {p : Pmm} (v : IsValid p) where
  release_page-Released :
      (k : ℕ) → k < p.total_pages → bit_test p k ≡ true → Released p k (release_page p k)
  unfolding release_page bit_unset
  release_page-Released k lt used = record {
    bits = release_page-Clears v k lt;
    more =
        let counted = v.counted in omega (arith, count_below-le (is_free p) p.total_pages, v.small);
    cursor = ground arith;
    total = refl;
    valid = release_page-IsValid v k lt used;
  }

  pub pmm_free_page-used :
      (pa : ℕ)
      → pa / 4096 < p.total_pages
      → bit_test p (pa / 4096) ≡ true
      → Released p (pa / 4096) (pmm_free_page p pa)
  unfolding pmm_free_page
  pmm_free_page-used pa lt used =
      let inside : leb p.total_pages (pa / 4096) ≡ false = ground arith in
      rw (inside, used) (release_page-Released (pa / 4096) lt used)

  -- `pmm_free_page` on every branch: the page of an address in range that is in use is released
  -- (its bit and no other is cleared, one free page more is counted, the cursor is drawn back to it,
  -- the invariant is kept); an address out of range and a page that is already free change nothing.
  pub pmm_free_page_cases :
      (pa : ℕ)
      → (Released p (pa / 4096) (pmm_free_page p pa) × ¬ Refused p (pa / 4096))
        ⊎ ((pmm_free_page p pa ≡ p) × Refused p (pa / 4096))
  unfolding pmm_free_page
  pmm_free_page_cases pa = elim (dec_lt (pa / 4096) p.total_pages) [
    | no out ↦
        let outside : leb p.total_pages (pa / 4096) ≡ true = ground arith in
        inr (rw outside, inl (omega arith))
    | yes lt ↦
        let inside : leb p.total_pages (pa / 4096) ≡ false = ground arith in
        elim (Bool-cases (bit_test p (pa / 4096))) [
          | inl used ↦
              inl (rw (inside, used) (release_page-Released (pa / 4096) lt used), λ r. ground arith)
          | inr unused ↦ inr (rw (inside, unused), inr unused)
        ]
  ]

-- If the page at the cursor is free, it is the one that next-fit chooses.
NextFit-cursor :
    {q : Pmm} {k : ℕ}
    → q.last_free_index < q.total_pages
    → bit_test q q.last_free_index ≡ false
    → NextFit q k
    → k ≡ q.last_free_index
NextFit-cursor {q} {k} lt unused fit = elim fit.first [
  | inl (le, busy) ↦ elim (dec_lt q.last_free_index k) [
    | yes below ↦ absurd (false≢true (sym unused ∙ busy q.last_free_index (omega arith) below))
    | no above ↦ omega arith
  ]
  | inr (above, busy, _) ↦
      absurd (false≢true (sym unused ∙ busy q.last_free_index (omega arith) lt))
]

module _ {p : Pmm} (v : IsValid p) where
  -- Freeing the page that was just allocated restores every bit and the count of free pages.
  pmm_free_page-pmm_alloc_page :
      0 < p.free_pages
      → let (pa, q) = pmm_alloc_page p in
        ((j : ℕ) → bit_test (pmm_free_page q pa) j ≡ bit_test p j)
        × ((pmm_free_page q pa).free_pages ≡ p.free_pages)
        × IsValid (pmm_free_page q pa)
  pmm_free_page-pmm_alloc_page pos =
      let (k, a) = pmm_alloc_page-Allocated v pos in
      let e : (pmm_alloc_page p).0 / 4096 ≡ k = omega (arith, a.address) in
      let r : Released (pmm_alloc_page p).1 k
          (pmm_free_page (pmm_alloc_page p).1 (pmm_alloc_page p).0) =
        rw e at (
          pmm_free_page-used a.valid (pmm_alloc_page p).0 (omega (arith, a.fit.in_range, a.total))
            (rw e (ground (arith, a.bits k)))) in
      (
        (λ j. ground (arith, r.bits j, a.bits j, a.fit.unused)),
        omega (arith, r.more, a.fewer),
        r.valid,
      )

  -- A page that is released below the cursor is the next one to be handed out.
  pmm_alloc_page-pmm_free_page :
      (k : ℕ)
      → k < p.total_pages
      → bit_test p k ≡ true
      → k ≤ p.last_free_index
      → (pmm_alloc_page (pmm_free_page p (k * 4096))).0 ≡ k * 4096
  pmm_alloc_page-pmm_free_page k lt used le =
      let e : k * 4096 / 4096 ≡ k = omega arith in
      let r : Released p k (pmm_free_page p (k * 4096)) =
        rw e at (pmm_free_page-used v (k * 4096) (omega arith) (rw e used)) in
      let (k', a) = pmm_alloc_page-Allocated r.valid (omega (arith, r.more)) in
      let at_k : (pmm_free_page p (k * 4096)).last_free_index ≡ k = omega (arith, r.cursor) in
      let same : k' ≡ (pmm_free_page p (k * 4096)).last_free_index =
        NextFit-cursor (omega (arith, r.total)) (rw at_k (ground (arith, r.bits k))) a.fit in
      omega (arith, a.address)
