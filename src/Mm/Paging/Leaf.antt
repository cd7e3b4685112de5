-- ===== src/Mm/Paging/Leaf.antt =====
-- The last step of `vmm_map_page` of kernel/src/mm/paging.c: the entry in the page table itself.
use native.Mathlib.Decide.{ℕ_discrete}
use sudo_os.Prelude.{ℕ, zero, suc, ◌<◌, ◌≡◌, ◌≢◌, ◌∙◌, inl, inr, arith, Bool-cases, sym, ap}
use sudo_os.Mm.Paging.{Machine, is_present, pte_get_addr, write_entry}
use sudo_os.Mm.Paging.Walk.{
  Tree, Walk, here, down, index, path, look, look-absent, look-present, index-lt, Walk-Tree,
  page_of, page_of-path, look-Walk, look-same_page, path-step,
}

-- The entry of `va` in the page table `pt`, which the walk to `va` ends at, becomes `entry`.
module _ {m : Machine} {root : ℕ} {height prefix : ℕ → ℕ} (tr : Tree m root height prefix)
    (va pt entry : ℕ) (w : Walk m.tables root va 0 pt) where
  abbrev pub written : ℕ → ℕ → ℕ
  written = write_entry m.tables pt (index 0 va) entry

  written-upper : (u j l : ℕ) → height u ≡ suc (suc l) → written u j ≡ m.tables u j
  written-upper u j l e =
      let r = Walk-Tree tr w in
      let d : u ≢ pt = λ f. let bad : height u ≡ height pt = ap height f in absurd (omega arith) in
      ground (arith, d)

  written-entry : written pt (index 0 va) ≡ entry
  written-entry = ground arith

  written-other : (u j : ℕ) → (u ≡ pt → j ≢ index 0 va) → written u j ≡ m.tables u j
  written-other u j d = elim (ℕ_discrete u pt) [
    | yes e ↦ ground (arith, d e)
    | no ne ↦ ground arith
  ]

  written-Walk : {l u : ℕ} → Walk m.tables root va l u → Walk written root va l u
  written-Walk here = here
  written-Walk (down {n = l} {t = u} v h) =
      let e = written-upper u (index (suc l) va) l (Walk-Tree tr v).1 in
      let next : Walk written root va l (pte_get_addr (written u (index (suc l) va))) =
        down (written-Walk v) (rw e h) in
      rw e at next

  pub look-written : (vb : ℕ) → page_of va ≡ page_of vb → look written root 3 vb ≡ entry
  unfolding look
  look-written vb e =
      look-same_page written root 3 vb va (sym e) ∙ (look-Walk (written-Walk w) ∙ written-entry)

  look-elsewhere :
      (l u vb : ℕ)
      → page_of va ≢ page_of vb
      → l < 4
      → height u ≡ suc l
      → prefix u ≡ path l vb
      → look written u l vb ≡ look m.tables u l vb
  unfolding look
  look-elsewhere zero u vb ne lt e p = written-other u (index 0 vb) λ f g.
      let r = Walk-Tree tr w in
      let q : prefix u ≡ prefix pt = ap prefix f in
      ne (omega (arith, page_of-path va, page_of-path vb))
  look-elsewhere (suc l) u vb ne lt e p =
      let same = written-upper u (index (suc l) vb) l e in
      elim (Bool-cases (is_present (m.tables u (index (suc l) vb)))) [
        | inr gap ↦ look-absent written u l vb (rw same gap) ∙ sym (look-absent m.tables u l vb gap)
        | inl there ↦
            let c = tr.child u (index (suc l) vb) l e (index-lt (suc l) vb) there in
            look-present written u l vb (rw same there)
            ∙ (ap (λ w. look written (pte_get_addr w) l vb) same
                ∙ look-elsewhere l (pte_get_addr (m.tables u (index (suc l) vb))) vb ne
                    (omega arith) c.0 (c.1 ∙ omega (arith, path-step l vb (omega arith))))
            ∙ sym (look-present m.tables u l vb there)
      ]

  pub look-unwritten :
      (vb : ℕ) → page_of va ≢ page_of vb → look written root 3 vb ≡ look m.tables root 3 vb
  unfolding path
  look-unwritten vb ne = look-elsewhere 3 root vb ne (omega arith) tr.top.0 tr.top.1

  pub written-Tree : Tree (record m { tables = written }) root height prefix
  written-Tree = record {
    top = tr.top;
    child = λ u j l e lt h.
        let same = written-upper u j l e in let c = tr.child u j l e lt (rw same at h) in rw same c;
    held = tr.held;
    low = tr.low;
  }
