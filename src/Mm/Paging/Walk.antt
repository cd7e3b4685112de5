-- ===== src/Mm/Paging/Walk.antt =====
-- The walk over the tables of kernel/src/mm/paging.c, one level a step, and the invariant of a tree of
-- tables. The height of a table is the level that paging.c names in comments: 4 for a PML4 down to 1
-- for a page table, and here 0 for a page that is no table.
use sudo_os.Prelude.{
  ℕ, zero, suc, ◌+◌, ◌*◌, ◌/◌, ◌%◌, ◌^◌, ◌≤◌, ◌<◌, ◌≡◌, ◌≢◌, ◌∙◌, true, false, refl, arith, none,
  some, if◌then◌else◌,
}
use sudo_os.Mm.Pmm.{bit_test}
use sudo_os.Mm.Paging.{
  Machine, is_present, pte_get_addr, pml4_idx, pdpt_idx, pd_idx, pt_idx, get_next_table,
  vmm_get_pte,
}

-- The index that a table with `n` levels below it is read at, and the part of the address above it.
unfoldable pub index : ℕ → ℕ → ℕ
index zero va = pt_idx va
index (suc zero) va = pd_idx va
index (suc (suc zero)) va = pdpt_idx va
index (suc (suc (suc n))) va = pml4_idx va

unfoldable pub path : ℕ → ℕ → ℕ
path zero va = va / 2 ^ 21 % 2 ^ 27
path (suc zero) va = va / 2 ^ 30 % 2 ^ 18
path (suc (suc zero)) va = va / 2 ^ 39 % 2 ^ 9
path (suc (suc (suc n))) va = 0

-- The number of the page of an address that the tables tell apart: they ignore bits 48 to 63.
abbrev pub page_of : ℕ → ℕ
page_of va = va / 2 ^ 12 % 2 ^ 36

-- The entry that the walk ends at from a table with `n` levels below it, 0 where a table is missing.
unfoldable pub look : (ℕ → ℕ → ℕ) → ℕ → ℕ → ℕ → ℕ
look tables t zero va = tables t (index zero va)
look tables t (suc n) va =
    let rest = look tables (pte_get_addr (tables t (index (suc n) va))) n va in
    if is_present (tables t (index (suc n) va)) then rest else 0

-- The entry that `vmm_get_pte` points at, 0 for NULL.
abbrev pub entry_at : Machine → ℕ → ℕ → ℕ
entry_at m pml4 va = elim (vmm_get_pte m pml4 va) [ none ↦ 0 | some (t, i) ↦ m.tables t i ]

-- What makes the pages that `height` names the tables of a tree below `root`: a present entry of a
-- table points at a table one level lower, whose prefix is that of the table with the index behind it;
-- and every table has a page of its own that is in use.
pub record Tree (m : Machine) (root : ℕ) (height prefix : ℕ → ℕ) : Type 0 where
  pub top : (height root ≡ 4) × (prefix root ≡ 0)
  pub child :
      (t i n : ℕ)
      → height t ≡ suc (suc n)
      → i < 512
      → is_present (m.tables t i) ≡ true
      → (height (pte_get_addr (m.tables t i)) ≡ suc n)
        × (prefix (pte_get_addr (m.tables t i)) ≡ prefix t * 512 + i)
  pub held : (t : ℕ) → height t ≢ 0 → (t % 4096 ≡ 0) × (bit_test m.pmm (t / 4096) ≡ true)
  pub low : (t : ℕ) → height t ≤ 4

-- The tables that the walk to `va` from `root` passes: `t` has `n` levels below it.
pub data Walk (tables : ℕ → ℕ → ℕ) (root va : ℕ) : ℕ → ℕ → Type 0 where
  here : Walk tables root va 3 root
  down :
      {n t : ℕ}
      → Walk tables root va (suc n) t
      → is_present (tables t (index (suc n) va)) ≡ true
      → Walk tables root va n (pte_get_addr (tables t (index (suc n) va)))

pub index-lt : (n va : ℕ) → index n va < 512
unfolding index
index-lt zero va = omega arith
index-lt (suc zero) va = omega arith
index-lt (suc (suc zero)) va = omega arith
index-lt (suc (suc (suc n))) va = omega arith

pub path-step : (n va : ℕ) → n < 3 → path n va ≡ path (suc n) va * 512 + index (suc n) va
unfolding path index
path-step zero va lt = omega arith
path-step (suc zero) va lt = omega arith
path-step (suc (suc zero)) va lt = omega arith
path-step (suc (suc (suc n))) va lt = absurd (omega arith)

pub page_of-path : (va : ℕ) → page_of va ≡ path 0 va * 512 + index 0 va
unfolding path index
page_of-path va = omega arith

pub same_index : (va vb : ℕ) → page_of va ≡ page_of vb → (n : ℕ) → index n va ≡ index n vb
unfolding index
same_index va vb e zero = omega arith
same_index va vb e (suc zero) = omega arith
same_index va vb e (suc (suc zero)) = omega arith
same_index va vb e (suc (suc (suc n))) = omega arith

pub look-same_page :
    (tables : ℕ → ℕ → ℕ) (t n va vb : ℕ)
    → page_of va ≡ page_of vb
    → look tables t n va ≡ look tables t n vb
unfolding look
look-same_page tables t zero va vb e = rw (same_index va vb e 0)
look-same_page tables t (suc n) va vb e = rw (
  same_index va vb e (suc n),
  look-same_page tables (pte_get_addr (tables t (index (suc n) vb))) n va vb e,
)

pub look-absent :
    (tables : ℕ → ℕ → ℕ) (t n va : ℕ)
    → is_present (tables t (index (suc n) va)) ≡ false
    → look tables t (suc n) va ≡ 0
unfolding look
look-absent tables t n va h = rw h

pub look-present :
    (tables : ℕ → ℕ → ℕ) (t n va : ℕ)
    → is_present (tables t (index (suc n) va)) ≡ true
    → look tables t (suc n) va ≡ look tables (pte_get_addr (tables t (index (suc n) va))) n va
unfolding look
look-present tables t n va h = rw h

-- The walk of `vmm_get_pte` is the one of `look`.
pub entry_at-look : (m : Machine) (pml4 va : ℕ) → entry_at m pml4 va ≡ look m.tables pml4 3 va
unfolding look index vmm_get_pte get_next_table
entry_at-look m pml4 va = ground arith

pub look-Walk :
    {tables : ℕ → ℕ → ℕ} {root va n t : ℕ}
    → Walk tables root va n t
    → look tables root 3 va ≡ look tables t n va
look-Walk here = refl
look-Walk {tables} {va = va} (down {n} {t} w h) = look-Walk w ∙ look-present tables t n va h

pub Walk-Tree :
    {m : Machine} {root va n t : ℕ} {height prefix : ℕ → ℕ}
    → Tree m root height prefix
    → Walk m.tables root va n t
    → (n < 4) × (height t ≡ suc n) × (prefix t ≡ path n va)
unfolding path
Walk-Tree tr here = (omega arith, tr.top.0, tr.top.1)
Walk-Tree {va = va} tr (down {n} {t} w h) =
    let r = Walk-Tree tr w in
    let c = tr.child t (index (suc n) va) n r.1 (index-lt (suc n) va) h in
    (omega arith, c.0, omega (arith, c.1, r.2, path-step n va (omega arith)))
