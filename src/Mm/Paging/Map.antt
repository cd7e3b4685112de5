-- ===== src/Mm/Paging/Map.antt =====
-- `vmm_map_page` of kernel/src/mm/paging.c on the map from pages to entries that a tree stands for.
use native.Mathlib.Decide.{ℕ_discrete}
use sudo_os.Prelude.{
  ℕ, ◌+◌, ◌*◌, ◌/◌, ◌%◌, ◌≤◌, ◌<◌, ◌≡◌, ◌∙◌, ◌⊎◌, inl, inr, refl, arith, if◌then◌else◌, bit_or, sym,
  ◌==◌, ap,
}
use sudo_os.Prelude.Or.{bit_or_disjoint, bit_or-one}
use sudo_os.Mm.Paging.{Machine, vmm_map_page, set_page}
use sudo_os.Mm.Paging.Walk.{Walk, here, index, look, entry_at, entry_at-look, page_of}
use sudo_os.Mm.Paging.Step.{IsTree, AreFlags, get_next_table-Stepped}
use sudo_os.Mm.Paging.Leaf.{look-written, look-unwritten, written-Tree}

-- No page was left for a table: the tree stands for the map that it stood for.
pub record KeepsMap (m : Machine) (root : ℕ) (m' : Machine) : Type 0 where
  pub tree : IsTree m' root
  pub entries : (vb : ℕ) → entry_at m' root vb ≡ entry_at m root vb
  pub short : m.pmm.free_pages < 3
  pub pages : m'.pmm.free_pages ≤ m.pmm.free_pages

-- The page of `va` has the new entry, and every other page the entry that it had.
pub record MapsPage (m : Machine) (root va entry : ℕ) (m' : Machine) : Type 0 where
  pub tree : IsTree m' root
  pub entries :
      (vb : ℕ)
      → entry_at m' root vb ≡ (if page_of va == page_of vb then entry else entry_at m root vb)
  pub pages : (m.pmm.free_pages ≤ m'.pmm.free_pages + 3) × (m'.pmm.free_pages ≤ m.pmm.free_pages)

abbrev pub Mapped : Machine → ℕ → ℕ → ℕ → Machine → Type 0
Mapped m root va entry m' = KeepsMap m root m' ⊎ MapsPage m root va entry m'

page_entry :
    (pa flags : ℕ) → pa % 4096 ≡ 0 → AreFlags flags → bit_or (bit_or pa flags) 1 ≡ pa + flags
page_entry pa flags aligned fl =
    let e : pa ≡ pa / 4096 * 4096 = omega arith in
    let o : bit_or pa flags ≡ pa + flags =
      ap (λ n. bit_or n flags) e ∙ (bit_or_disjoint 12 (pa / 4096) flags fl.low ∙ omega arith) in
    rw o (omega (arith, bit_or-one (pa + flags), fl.odd))

module _ {m : Machine} {root : ℕ} where
  keeps_map :
      {m' : Machine}
      → IsTree m' root
      → ((vb : ℕ) → look m'.tables root 3 vb ≡ look m.tables root 3 vb)
      → m.pmm.free_pages < 3
      → m'.pmm.free_pages ≤ m.pmm.free_pages
      → KeepsMap m root m'
  keeps_map {m'} t same short fewer = record {
    tree = t;
    entries = λ vb. entry_at-look m' root vb ∙ (same vb ∙ sym (entry_at-look m root vb));
    short = short;
    pages = fewer;
  }

  set_page-MapsPage :
      {m3 : Machine} (va pa flags pt : ℕ)
      → AreFlags flags
      → pa % 4096 ≡ 0
      → IsTree m3 root
      → ((vb : ℕ) → look m3.tables root 3 vb ≡ look m.tables root 3 vb)
      → (m.pmm.free_pages ≤ m3.pmm.free_pages + 3) × (m3.pmm.free_pages ≤ m.pmm.free_pages)
      → Walk m3.tables root va 0 pt
      → MapsPage m root va (pa + flags) (set_page va pa flags pt m3)
  unfolding index
  set_page-MapsPage {m3} va pa flags pt fl aligned it same pages w =
      let e = page_entry pa flags aligned fl in
      let entry = bit_or (bit_or pa flags) 1 in
      let after = set_page va pa flags pt m3 in
      record {
        tree = record {
          ready = it.ready;
          height = it.height;
          prefix = it.prefix;
          tree = written-Tree it.tree va pt entry w;
        };
        entries = λ vb. entry_at-look after root vb ∙ elim (ℕ_discrete (page_of va) (page_of vb)) [
          | yes q ↦ look-written it.tree va pt entry w vb q ∙ (e ∙ ground (arith, q))
          | no ne ↦
              look-unwritten it.tree va pt entry w vb ne
              ∙ (same vb ∙ (sym (entry_at-look m root vb) ∙ ground (arith, ne)))
        ];
        pages = pages;
      }

module _ {m : Machine} {root : ℕ} (it : IsTree m root) (va pa flags : ℕ) (fl : AreFlags flags)
    (aligned : pa % 4096 ≡ 0) where
  -- On a tree of tables with a ready allocator, flags with the present bit, and an aligned physical
  -- address, `vmm_map_page` gives the page of `va` the entry `pa` with the flags and leaves the entry of
  -- every other page as `vmm_get_pte` finds it, or, with fewer than three free pages, it may give up, and
  -- no entry changes. Either way what is left is a tree of tables with a ready allocator, and at most
  -- three pages are used.
  pub vmm_map_page_cases : Mapped m root va (pa + flags) (vmm_map_page m root va pa flags)
  unfolding vmm_map_page index
  vmm_map_page_cases = elim (get_next_table-Stepped it va 2 root flags fl here) [
    | inl (e, out) ↦ rw e (inl (keeps_map it (λ vb. refl) (omega arith) (omega arith)))
    | inr (pdpt, e1, g1, w1) ↦ rw e1 (elim (get_next_table-Stepped g1.tree va 1 pdpt flags fl w1) [
      | inl (e, out) ↦
          rw e (inl (keeps_map g1.tree g1.same (omega (arith, g1.pages)) (omega (arith, g1.pages))))
      | inr (pd, e2, g2, w2) ↦
          let same2 = λ (vb : ℕ). g2.same vb ∙ g1.same vb in
          rw e2 (elim (get_next_table-Stepped g2.tree va 0 pd flags fl w2) [
            | inl (e, out) ↦ rw e (
                inl (
                  keeps_map g2.tree same2 (omega (arith, g1.pages, g2.pages))
                    (omega (arith, g1.pages, g2.pages))))
            | inr (pt, e3, g3, w3) ↦ rw e3 (
                inr (
                  set_page-MapsPage va pa flags pt fl aligned g3.tree (λ vb. g3.same vb ∙ same2 vb)
                    (
                      omega (arith, g1.pages, g2.pages, g3.pages),
                      omega (arith, g1.pages, g2.pages, g3.pages),
                    )
                    w3))
          ])
    ])
  ]

  -- Whatever happens, the tables stay a tree.
  pub vmm_map_page-IsTree : IsTree (vmm_map_page m root va pa flags) root
  vmm_map_page-IsTree = elim vmm_map_page_cases [ inl k ↦ k.tree | inr p ↦ p.tree ]

  pub vmm_map_page-fewer : (vmm_map_page m root va pa flags).pmm.free_pages ≤ m.pmm.free_pages
  vmm_map_page-fewer = elim vmm_map_page_cases [ inl k ↦ k.pages | inr p ↦ p.pages.1 ]
