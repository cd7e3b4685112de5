-- ===== src/Mm/Pmm/Ranges.antt =====
-- `pmm_set_free` and `pmm_set_busy` of kernel/src/mm/pmm.c: the pages that a range marks, and the
-- guard that refuses a range.
use native.Mathlib.Decide.{dec_lt}
use sudo_os.Prelude.{
  ◌⊎◌, inl, inr, ℕ, zero, suc, ◌+◌, ◌/◌, ◌^◌, ◌≤◌, ◌<◌, ◌≡◌, Bool, true, false, ◌&&◌, refl, arith,
  if◌then◌else◌, ltb, leb,
}
use sudo_os.Prelude.Words.{add64}
use sudo_os.Mm.Pmm.{
  Pmm, bit_test, bit_set, bit_unset, mark_free, mark_busy, set_free_loop, set_busy_loop,
  pmm_set_free, pmm_set_busy,
}
use sudo_os.Mm.Pmm.Valid.{
  IsValid, mark_busy-Sets, mark_free-Clears, mark_busy-IsValid, mark_free-IsValid,
}

-- `j` is one of the `n` pages from `lo` on.
abbrev pub within : ℕ → ℕ → ℕ → Bool
within lo n j = leb lo j && ltb j (lo + n)

-- `q` is `p` with the bits of the `n` pages from `lo` on set to `b`, and a count that fits.
pub record Marked (b : Bool) (p : Pmm) (lo n : ℕ) (q : Pmm) : Type 0 where
  pub bits : (j : ℕ) → bit_test q j ≡ (if within lo n j then b else bit_test p j)
  pub total : q.total_pages ≡ p.total_pages
  pub size : q.bitmap_size ≡ p.bitmap_size
  pub cursor : q.last_free_index ≡ p.last_free_index
  pub valid : IsValid q

pub mark_busy-fields :
    (p : Pmm) (i : ℕ)
    → ((mark_busy p i).total_pages ≡ p.total_pages)
      × ((mark_busy p i).bitmap_size ≡ p.bitmap_size)
      × ((mark_busy p i).last_free_index ≡ p.last_free_index)
unfolding mark_busy bit_set
mark_busy-fields p i = ground arith

pub mark_free-fields :
    (p : Pmm) (i : ℕ)
    → ((mark_free p i).total_pages ≡ p.total_pages)
      × ((mark_free p i).bitmap_size ≡ p.bitmap_size)
      × ((mark_free p i).last_free_index ≡ p.last_free_index)
unfolding mark_free bit_unset
mark_free-fields p i = ground arith

Marked-nil : (b : Bool) {p : Pmm} (lo : ℕ) → IsValid p → Marked b p lo 0 p
Marked-nil b lo v = record {
  bits = λ j. ground arith;
  total = refl;
  size = refl;
  cursor = refl;
  valid = v;
}

set_busy_loop-Marked :
    (n : ℕ) {p : Pmm} (pgidx i : ℕ)
    → IsValid p
    → pgidx + i + n ≤ p.total_pages
    → Marked true p (pgidx + i) n (set_busy_loop p pgidx n i)
unfolding set_busy_loop
set_busy_loop-Marked zero pgidx i v le = Marked-nil true (pgidx + i) v
set_busy_loop-Marked (suc n) {p} pgidx i v le =
    let small = v.small in
    let at_page : add64 pgidx i ≡ pgidx + i = omega arith in
    let f = mark_busy-fields p (pgidx + i) in
    let r : Marked true (mark_busy p (pgidx + i)) (pgidx + (i + 1)) n
        (set_busy_loop (mark_busy p (pgidx + i)) pgidx n (i + 1)) =
      set_busy_loop-Marked n pgidx (i + 1) (mark_busy-IsValid v (pgidx + i) (omega arith))
        (omega arith) in
    rw at_page (record {
      bits = λ j. ground (arith, r.bits j, mark_busy-Sets v (pgidx + i) (omega arith) j);
      total = omega (arith, r.total);
      size = omega (arith, r.size);
      cursor = omega (arith, r.cursor);
      valid = r.valid;
    })

set_free_loop-Marked :
    (n : ℕ) {p : Pmm} (pgidx i : ℕ)
    → IsValid p
    → pgidx + i + n ≤ p.total_pages
    → Marked false p (pgidx + i) n (set_free_loop p pgidx n i)
unfolding set_free_loop
set_free_loop-Marked zero pgidx i v le = Marked-nil false (pgidx + i) v
set_free_loop-Marked (suc n) {p} pgidx i v le =
    let small = v.small in
    let at_page : add64 pgidx i ≡ pgidx + i = omega arith in
    let f = mark_free-fields p (pgidx + i) in
    let r : Marked false (mark_free p (pgidx + i)) (pgidx + (i + 1)) n
        (set_free_loop (mark_free p (pgidx + i)) pgidx n (i + 1)) =
      set_free_loop-Marked n pgidx (i + 1) (mark_free-IsValid v (pgidx + i) (omega arith))
        (omega arith) in
    rw at_page (record {
      bits = λ j. ground (arith, r.bits j, mark_free-Clears v (pgidx + i) (omega arith) j);
      total = omega (arith, r.total);
      size = omega (arith, r.size);
      cursor = omega (arith, r.cursor);
      valid = r.valid;
    })

-- The range ends with the last page or behind it.
abbrev pub ReachesTop : Pmm → ℕ → ℕ → Type 0
ReachesTop p pa pgnum = p.total_pages ≤ pa / 4096 + pgnum

module _ {p : Pmm} (v : IsValid p) (pa pgnum : ℕ) (hp : pa < 2 ^ 64) (hn : pgnum < 2 ^ 63) where
  -- `pmm_set_busy` sets the bits of exactly the `pgnum` pages from the one of `pa` on and keeps the
  -- invariant, if the range ends before the last page; any other range is refused and changes
  -- nothing, so a range that ends with the last page is refused too.
  pmm_set_busy_cases :
      (Marked true p (pa / 4096) pgnum (pmm_set_busy p pa pgnum) × ¬ ReachesTop p pa pgnum)
      ⊎ ((pmm_set_busy p pa pgnum ≡ p) × ReachesTop p pa pgnum)
  unfolding pmm_set_busy
  pmm_set_busy_cases = elim (dec_lt (pa / 4096 + pgnum) p.total_pages) [
    | yes lt ↦
        let go : leb p.total_pages (add64 (pa / 4096) pgnum) ≡ false = ground arith in
        let start : pa / 4096 + 0 ≡ pa / 4096 = omega arith in
        inl (
          rw go (rw start at (set_busy_loop-Marked pgnum (pa / 4096) 0 v (omega arith))),
          λ top. absurd (omega arith),
        )
    | no ge ↦
        let stop : leb p.total_pages (add64 (pa / 4096) pgnum) ≡ true = ground arith in
        inr (rw stop, omega arith)
  ]

  -- `pmm_set_free` clears the bits of exactly those pages, under the same guard.
  pub pmm_set_free_cases :
      (Marked false p (pa / 4096) pgnum (pmm_set_free p pa pgnum) × ¬ ReachesTop p pa pgnum)
      ⊎ ((pmm_set_free p pa pgnum ≡ p) × ReachesTop p pa pgnum)
  unfolding pmm_set_free
  pmm_set_free_cases = elim (dec_lt (pa / 4096 + pgnum) p.total_pages) [
    | yes lt ↦
        let go : leb p.total_pages (add64 (pa / 4096) pgnum) ≡ false = ground arith in
        let start : pa / 4096 + 0 ≡ pa / 4096 = omega arith in
        inl (
          rw go (rw start at (set_free_loop-Marked pgnum (pa / 4096) 0 v (omega arith))),
          λ top. absurd (omega arith),
        )
    | no ge ↦
        let stop : leb p.total_pages (add64 (pa / 4096) pgnum) ≡ true = ground arith in
        inr (rw stop, omega arith)
  ]

  -- The range of a call that is not refused.
  pub pmm_set_busy-Marked :
      pa / 4096 + pgnum < p.total_pages → Marked true p (pa / 4096) pgnum (pmm_set_busy p pa pgnum)
  pmm_set_busy-Marked lt = elim pmm_set_busy_cases [
    | inl (m, _) ↦ m
    | inr (_, top) ↦ absurd (omega arith)
  ]
