-- ===== src/Mm/Paging/Step.antt =====
-- `get_next_table` of kernel/src/mm/paging.c as an operation on a tree of tables, on every branch.
use sudo_os.Prelude.{
  ◌/◌, ℕ, suc, ◌+◌, ◌*◌, ◌%◌, ◌^◌, ◌≤◌, ◌<◌, ◌≡◌, ◌≢◌, ◌∙◌, ◌⊎◌, inl, inr, true, false, refl, arith,
  none, some, Option, Bool-cases, bit_or, ◌==◌, ap, subst,
}
use sudo_os.Mm.Pmm.{Pmm, bit_test, pmm_alloc_page}
use sudo_os.Mm.Pmm.Valid.{IsValid, is_free}
use sudo_os.Mm.Pmm.Alloc.{Allocated, BusyFrom, pmm_alloc_page_cases}
use sudo_os.Prelude.Count.{count_below_none}
use sudo_os.Mm.Paging.{
  Machine, is_present, pte_get_addr, write_entry, clear_table, new_table, get_next_table,
}
use sudo_os.Mm.Paging.Walk.{Tree, Walk, down, index, look, index-lt, Walk-Tree}
use sudo_os.Mm.Paging.Grow.{grown, table_entry, grown-Tree, grown-look, grown-Walk, grown-entry}

-- The allocator counts its pages rightly, page 0 is reserved, and addresses fit an entry.
pub record IsReady (p : Pmm) : Type 0 where
  pub valid : IsValid p
  pub reserved : bit_test p 0 ≡ true
  pub small : p.total_pages ≤ 2 ^ 40

-- A ready allocator, and a tree of tables below `root`.
pub record IsTree (m : Machine) (root : ℕ) : Type 0 where
  pub ready : IsReady m.pmm
  pub height : ℕ → ℕ
  pub prefix : ℕ → ℕ
  pub tree : Tree m root height prefix

-- The allocator alone takes a page: the tables are the ones they were.
pub pmm_alloc_page-IsTree :
    {m : Machine} {root k : ℕ}
    → IsTree m root
    → Allocated m.pmm k (pmm_alloc_page m.pmm)
    → IsTree (record m { pmm = (pmm_alloc_page m.pmm).1 }) root
pmm_alloc_page-IsTree it a = record {
  ready = record {
    valid = a.valid;
    reserved = ground (arith, a.bits 0, it.ready.reserved);
    small = omega (arith, a.total, it.ready.small);
  };
  height = it.height;
  prefix = it.prefix;
  tree = record {
    top = it.tree.top;
    child = it.tree.child;
    held = λ t ne. let r = it.tree.held t ne in (r.0, ground (arith, a.bits (t / 4096), r.1));
    low = it.tree.low;
  };
}

-- What one call of `get_next_table` leaves: a tree that stands for the same map.
pub record Grown (m : Machine) (root : ℕ) (m' : Machine) : Type 0 where
  pub tree : IsTree m' root
  pub same : (va : ℕ) → look m'.tables root 3 va ≡ look m.tables root 3 va
  pub pages : (m.pmm.free_pages ≤ m'.pmm.free_pages + 1) × (m'.pmm.free_pages ≤ m.pmm.free_pages)

pub Grown-refl : {m : Machine} {root : ℕ} → IsTree m root → Grown m root m
Grown-refl t = record { tree = t; same = λ va. refl; pages = (omega arith, omega arith) }

-- A flag word that says that the page is present, and only uses the low twelve bits.
pub record AreFlags (flags : ℕ) : Type 0 where
  pub low : flags < 4096
  pub odd : flags % 2 ≡ 1

-- One step of the walk: there is no page for a new table, and nothing changes, or the walk goes on.
abbrev pub Stepped : Machine → ℕ → ℕ → ℕ → Option ℕ × Machine → Type 0
Stepped m root va n r =
    ((r ≡ (none, m)) × (m.pmm.free_pages ≡ 0))
    ⊎ ((c : ℕ) × (r.0 ≡ some c) × Grown m root r.1 × Walk r.1.tables root va n c)

pub no_pages : (p : Pmm) → IsValid p → BusyFrom p 0 p.total_pages → p.free_pages ≡ 0
no_pages p v busy =
    v.counted ∙ count_below_none (is_free p) p.total_pages (λ j lt. rw (busy j (omega arith) lt))

new_table-page :
    (m : Machine) (t i flags k : ℕ)
    → (pmm_alloc_page m.pmm).0 ≡ k * 4096
    → (pmm_alloc_page m.pmm).0 ≢ 0
    → new_table m t i flags ≡ (
      some (k * 4096),
      record {
        pmm = (pmm_alloc_page m.pmm).1;
        tables = write_entry (clear_table m.tables (k * 4096)) t i (bit_or (k * 4096) flags);
      },
    )
unfolding new_table
new_table-page m t i flags k e ne =
    let off : ((k * 4096) == 0) ≡ false = ground (arith, e) in rw (e, off)

module _ {m : Machine} {root : ℕ} (it : IsTree m root) (va n t flags : ℕ) (fl : AreFlags flags)
    (w : Walk m.tables root va (suc n) t) where
  new_table-Stepped :
      is_present (m.tables t (index (suc n) va)) ≡ false
      → Stepped m root va n (new_table m t (index (suc n) va) flags)
  unfolding new_table
  new_table-Stepped gap = elim (pmm_alloc_page_cases it.ready.valid it.ready.reserved) [
    | inr (e, busy) ↦ rw e (inl (refl, no_pages m.pmm it.ready.valid busy))
    | inl (ne, (k, a)) ↦
        let r = Walk-Tree it.tree w in
        let lt : k < 2 ^ 40 = omega (arith, a.fit.in_range, it.ready.small) in
        let i = index (suc n) va in
        let hi = index-lt (suc n) va in
        let i0 = a.fit.unused in
        let q = (pmm_alloc_page m.pmm).1 in
        let te = table_entry k flags lt fl.low fl.odd in
        let at_entry = grown-entry it.tree k i0 lt flags fl.low fl.odd t i n r.1 hi gap in
        let w' = grown-Walk it.tree k i0 lt flags fl.low fl.odd t i n r.1 hi gap w in
        rw (new_table-page m t i flags k a.address ne) (
          inr (
            k * 4096,
            refl,
            record {
              tree = record {
                ready = record {
                  valid = a.valid;
                  reserved = ground (arith, a.bits 0, it.ready.reserved);
                  small = omega (arith, a.total, it.ready.small);
                };
                height = _;
                prefix = _;
                tree = grown-Tree it.tree k i0 lt flags fl.low fl.odd t i n r.1 hi gap q a.bits;
              };
              same = λ vb.
                  grown-look it.tree k i0 lt flags fl.low fl.odd t i n r.1 hi gap 3 root vb
                    it.tree.top.0;
              pages = (omega (arith, a.fewer), omega (arith, a.fewer));
            },
            subst (Walk (grown it.tree k i0 lt flags fl.low fl.odd t i n r.1 hi gap) root va n)
                (ap pte_get_addr at_entry ∙ te.1) (down w' (rw at_entry te.0)),
          ))
  ]

  pub get_next_table-Stepped :
      Stepped m root va n (get_next_table m t (index (suc n) va) true flags)
  unfolding get_next_table
  get_next_table-Stepped = elim (Bool-cases (is_present (m.tables t (index (suc n) va)))) [
    | inl there ↦
        rw there
          (inr (pte_get_addr (m.tables t (index (suc n) va)), refl, Grown-refl it, down w there))
    | inr gap ↦ rw gap (new_table-Stepped gap)
  ]
