-- ===== src/Mm/Vmm/Fresh.antt =====
-- The pages that the loops of kernel/src/mm/vmm.c and kernel/src/mm/pmm.c take and map.
use native.Mathlib.Decide.{ℕ_discrete}
use sudo_os.Prelude.{
  ℕ, zero, suc, ◌+◌, ◌*◌, ◌^◌, ◌≤◌, ◌≡◌, ◌≢◌, ◌∙◌, ◌⊎◌, inl, inr, true, false, refl, arith, none,
  if◌then◌else◌, ◌==◌, Bool-cases, sym, ap,
}
use sudo_os.Prelude.Words.{add64, page_size}
use sudo_os.Mm.Pmm.{pmm_alloc_page, bit_test}
use sudo_os.Mm.Pmm.Alloc.{Allocated, pmm_alloc_page_cases}
use sudo_os.Mm.Paging.{Machine, vmm_map_page}
use sudo_os.Mm.Paging.Walk.{entry_at, entry_at-look, page_of}
use sudo_os.Mm.Paging.Step.{IsTree, AreFlags, pmm_alloc_page-IsTree, no_pages}
use sudo_os.Mm.Paging.Map.{vmm_map_page_cases}
use sudo_os.Mm.Paging.Range.{in_range}
use sudo_os.Mm.Paging.Uses.{Uses, Uses-refl, Uses-trans, pmm_alloc_page-Uses, vmm_map_page-Uses}
use sudo_os.Mm.Vmm.{map_fresh}

-- An entry for a page that was free and is in use.
pub record Fresh (m m' : Machine) (flags entry : ℕ) : Type 0 where
  pub frame : ℕ
  pub points : entry ≡ frame * 4096 + flags
  pub was_free : bit_test m.pmm frame ≡ false
  pub in_use : bit_test m'.pmm frame ≡ true

-- The `n` pages from page number `first` on have entries for pages that were free, no two for the same;
-- every other page has the entry that it had.
pub record MapsFresh (m : Machine) (root first n flags : ℕ) (m' : Machine) : Type 0 where
  pub tree : IsTree m' root
  pub others :
      (vb : ℕ) → in_range first n (page_of vb) ≡ false → entry_at m' root vb ≡ entry_at m root vb
  pub fresh :
      (vb : ℕ) → in_range first n (page_of vb) ≡ true → Fresh m m' flags (entry_at m' root vb)
  pub distinct :
      (vb vc : ℕ)
      → in_range first n (page_of vb) ≡ true
      → in_range first n (page_of vc) ≡ true
      → entry_at m' root vb ≡ entry_at m' root vc
      → page_of vb ≡ page_of vc
  pub uses : Uses m.pmm m'.pmm

-- What the round does that maps page `first` to the frame `k`.
record Round (m : Machine) (root first k flags : ℕ) (m' : Machine) : Type 0 where
  tree : IsTree m' root
  entries :
      (vb : ℕ)
      → entry_at m' root vb ≡ (if first == page_of vb then k * 4096 + flags else entry_at m root vb)
  was_free : bit_test m.pmm k ≡ false
  in_use : bit_test m'.pmm k ≡ true
  uses : Uses m.pmm m'.pmm
  pages : m.pmm.free_pages ≤ m'.pmm.free_pages + 4

then_rest :
    (m m2 m' : Machine) (root first k n flags : ℕ)
    → Round m root first k flags m2
    → MapsFresh m2 root (first + 1) n flags m'
    → MapsFresh m root first (suc n) flags m'
then_rest m m2 m' root first k n flags r q = record {
  tree = q.tree;
  others = λ vb out. let e = r.entries vb in q.others vb (ground arith) ∙ ground arith;
  fresh = λ vb h. elim (at_first vb h) [
    | inl (same, e) ↦ record {
      frame = k;
      points = e;
      was_free = r.was_free;
      in_use = q.uses.still k r.in_use;
    }
    | inr later ↦
        let f = q.fresh vb later in
        record {
          frame = f.frame;
          points = f.points;
          was_free = unused f.frame f.was_free;
          in_use = f.in_use;
        }
  ];
  distinct = λ vb vc hb hc e. elim (at_first vb hb) [
    | inl (same_b, eb) ↦ elim (at_first vc hc) [
      | inl (same_c, ec) ↦ sym same_b ∙ same_c
      | inr later ↦ absurd (apart vc later (sym e ∙ eb))
    ]
    | inr later_b ↦ elim (at_first vc hc) [
      | inl (same_c, ec) ↦ absurd (apart vb later_b (e ∙ ec))
      | inr later_c ↦ q.distinct vb vc later_b later_c e
    ]
  ];
  uses = Uses-trans r.uses q.uses;
}
  where
    at_first :
        (vb : ℕ)
        → in_range first (suc n) (page_of vb) ≡ true
        → ((first ≡ page_of vb) × (entry_at m' root vb ≡ k * 4096 + flags))
          ⊎ (in_range (first + 1) n (page_of vb) ≡ true)
    at_first vb h = elim (ℕ_discrete first (page_of vb)) [
      | yes e ↦ let e' = r.entries vb in inl (e, q.others vb (ground arith) ∙ ground arith)
      | no ne ↦ inr (ground arith)
    ]

    unused : (j : ℕ) → bit_test m2.pmm j ≡ false → bit_test m.pmm j ≡ false
    unused j h = elim (Bool-cases (bit_test m.pmm j)) [
      | inl used ↦ let u = r.uses.still j used in absurd (cc)
      | inr free ↦ free
    ]

    apart :
        (vb : ℕ)
        → in_range (first + 1) n (page_of vb) ≡ true
        → entry_at m' root vb ≢ k * 4096 + flags
    apart vb h e =
        let f = q.fresh vb h in
        let points = f.points in
        let same : f.frame ≡ k = omega arith in
        let free : bit_test m2.pmm k ≡ false = rw (← same) f.was_free in let used = r.in_use in cc

-- Where there are pages for a frame and three tables a round does its work.
first_page :
    {m : Machine} {root k : ℕ} (it : IsTree m root) (va flags : ℕ)
    → AreFlags flags
    → 4 ≤ m.pmm.free_pages
    → Allocated m.pmm k (pmm_alloc_page m.pmm)
    → Round m root
        (page_of va)
        k
        flags
        (vmm_map_page (record m { pmm = (pmm_alloc_page m.pmm).1 }) root va (k * 4096) flags)
first_page {m} {root} {k} it va flags fl enough a =
    let m1 : Machine = record m { pmm = (pmm_alloc_page m.pmm).1 } in
    let it1 : IsTree m1 root = pmm_alloc_page-IsTree it a in
    let u = vmm_map_page-Uses m1 root va (k * 4096) flags it1.ready in
    let taken : bit_test m1.pmm k ≡ true = ground (arith, a.bits k) in
    let fewer = a.fewer in
    elim (vmm_map_page_cases it1 va (k * 4096) flags fl (omega arith)) [
      | inl kept ↦ absurd (omega (arith, kept.short))
      | inr p ↦ record {
        tree = p.tree;
        entries = λ vb.
            p.entries vb
            ∙ ap (λ e. if page_of va == page_of vb then k * 4096 + flags else e)
                (entry_at-look m1 root vb ∙ sym (entry_at-look m root vb));
        was_free = a.fit.unused;
        in_use = u.still k taken;
        uses = Uses-trans (pmm_alloc_page-Uses m.pmm it.ready) u;
        pages = omega (arith, p.pages);
      }
    ]

pub map_fresh-MapsFresh :
    (n i : ℕ) {m : Machine} {root : ℕ} (it : IsTree m root) (start flags : ℕ)
    → AreFlags flags
    → page_of start + i + n ≤ 2 ^ 36
    → start + (i + n) * 4096 ≤ 2 ^ 64
    → 4 * n ≤ m.pmm.free_pages
    → ((map_fresh m root start i n flags).0 ≡ none)
      × MapsFresh m root (page_of start + i) n flags (map_fresh m root start i n flags).1
unfolding map_fresh
map_fresh-MapsFresh zero i {m} {root} it start flags fl top wrap enough = (
  refl,
  record {
    tree = it;
    others = λ vb out. refl;
    fresh = λ vb h. ground arith;
    distinct = λ vb vc hb hc e. ground arith;
    uses = Uses-refl it.ready;
  },
)
map_fresh-MapsFresh (suc n) i {m} {root} it start flags fl top wrap enough =
    elim (pmm_alloc_page_cases it.ready.valid it.ready.reserved) [
      | inr (e, busy) ↦ let none_left = no_pages m.pmm it.ready.valid busy in absurd (omega arith)
      | inl (ne, (k, a)) ↦
          let va = add64 start (i * page_size) in
          let off : (k * 4096 == 0) ≡ false = ground (arith, a.address) in
          let at : page_of va ≡ page_of start + i = omega arith in
          let r = first_page it va flags fl (omega arith) a in
          let pages = r.pages in
          let rest =
            map_fresh-MapsFresh n (i + 1) r.tree start flags fl (omega arith) (omega arith)
              (omega arith) in
          let step : page_of start + (i + 1) ≡ page_of va + 1 = omega arith in
          rw (a.address, off, ← at)
            (rest.0, then_rest m _ _ root (page_of va) k n flags r (rw (← step) (rest.1)))
    ]
