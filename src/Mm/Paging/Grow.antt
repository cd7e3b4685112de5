-- ===== src/Mm/Paging/Grow.antt =====
-- `get_next_table` of kernel/src/mm/paging.c in a tree of tables: the step to a table that is there, and
-- the new table.
use native.Mathlib.Decide.{ℕ_discrete}
use sudo_os.Prelude.{
  ℕ, zero, suc, ◌+◌, ◌*◌, ◌/◌, ◌%◌, ◌^◌, ◌<◌, ◌≡◌, ◌≢◌, ◌∙◌, ◌⊎◌, inl, inr, true, false, arith,
  if◌then◌else◌, Bool-cases, bit_or, sym, ◌==◌, ap,
}
use sudo_os.Prelude.Or.{bit_or_disjoint}
use sudo_os.Mm.Pmm.{Pmm, bit_test}
use sudo_os.Mm.Paging.{Machine, is_present, pte_get_addr, write_entry, clear_table}
use sudo_os.Mm.Paging.Walk.{
  Tree, Walk, here, down, index, look, look-absent, look-present, index-lt, Walk-Tree,
}

-- The entry of a table page: page `k`, with flags that say that it is present.
pub table_entry :
    (k flags : ℕ)
    → k < 2 ^ 40
    → flags < 4096
    → flags % 2 ≡ 1
    → (is_present (bit_or (k * 4096) flags) ≡ true)
      × (pte_get_addr (bit_or (k * 4096) flags) ≡ k * 4096)
table_entry k flags hk hf odd =
    let e : bit_or (k * 4096) flags ≡ k * 4096 + flags = bit_or_disjoint 12 k flags hf in
    rw e (ground arith, omega arith)

look_zero : (tables : ℕ → ℕ → ℕ) (t n va : ℕ) → ((j : ℕ) → tables t j ≡ 0) → look tables t n va ≡ 0
unfolding look
look_zero tables t zero va z = z (index zero va)
look_zero tables t (suc n) va z = rw (z (index (suc n) va))

-- Page `k`, which is free, becomes the table behind entry `i` of table `t`, which is not present.
module _ {m : Machine} {root : ℕ} {height prefix : ℕ → ℕ} (tr : Tree m root height prefix) (k : ℕ)
    (unused : bit_test m.pmm k ≡ false) (hk : k < 2 ^ 40) (flags : ℕ) (hf : flags < 4096)
    (odd : flags % 2 ≡ 1) (t i n : ℕ) (above : height t ≡ suc (suc n)) (hi : i < 512)
    (gap : is_present (m.tables t i) ≡ false) where
  abbrev pub grown : ℕ → ℕ → ℕ
  grown = write_entry (clear_table m.tables (k * 4096)) t i (bit_or (k * 4096) flags)

  abbrev grown_height : ℕ → ℕ
  grown_height u = if u == k * 4096 then suc n else height u

  abbrev grown_prefix : ℕ → ℕ
  grown_prefix u = if u == k * 4096 then prefix t * 512 + i else prefix u

  no_table : (u : ℕ) → height u ≢ 0 → u ≢ k * 4096
  no_table u ne e =
      let whole : u / 4096 ≡ k = omega arith in
      cc ((tr.held u ne).1, ap (bit_test m.pmm) whole, unused)

  same_height : (u : ℕ) → height u ≢ 0 → grown_height u ≡ height u
  same_height u ne = ground (arith, no_table u ne)

  same_prefix : (u : ℕ) → height u ≢ 0 → grown_prefix u ≡ prefix u
  same_prefix u ne = ground (arith, no_table u ne)

  grown-new : (j : ℕ) → grown (k * 4096) j ≡ 0
  grown-new j = ground (arith, no_table t (omega arith))

  pub grown-entry : grown t i ≡ bit_or (k * 4096) flags
  grown-entry = ground arith

  grown-other : (u j : ℕ) → height u ≢ 0 → (u ≢ t) ⊎ (j ≢ i) → grown u j ≡ m.tables u j
  grown-other u j ne (inl d) = ground (arith, no_table u ne)
  grown-other u j ne (inr d) = ground (arith, no_table u ne)

  grown_cases : (u j : ℕ) → height u ≢ 0 → ((u ≡ t) × (j ≡ i)) ⊎ (grown u j ≡ m.tables u j)
  grown_cases u j ne = elim (ℕ_discrete u t) [
    | no d ↦ inr (grown-other u j ne (inl d))
    | yes e ↦ elim (ℕ_discrete j i) [ no d ↦ inr (grown-other u j ne (inr d)) | yes f ↦ inl (e, f) ]
  ]

  pub kept : (u j : ℕ) → height u ≢ 0 → is_present (m.tables u j) ≡ true → grown u j ≡ m.tables u j
  kept u j ne h = elim (grown_cases u j ne) [
    | inl (e, f) ↦ absurd (cc (rw (e, f) at h, gap))
    | inr e ↦ e
  ]

  pub grown-look : (l u va : ℕ) → height u ≡ suc l → look grown u l va ≡ look m.tables u l va
  unfolding look
  grown-look zero u va e = elim (grown_cases u (index 0 va) (omega arith)) [
    | inl (f, _) ↦ let bad : height t ≡ 1 = rw (← f) e in absurd (omega arith)
    | inr f ↦ f
  ]
  grown-look (suc l) u va e = elim (grown_cases u (index (suc l) va) (omega arith)) [
    | inl (f, g) ↦
        let absent : is_present (m.tables u (index (suc l) va)) ≡ false = rw (f, g) gap in
        let to_new : grown u (index (suc l) va) ≡ bit_or (k * 4096) flags = rw (f, g) grown-entry in
        let te = table_entry k flags hk hf odd in
        let there : is_present (grown u (index (suc l) va)) ≡ true = rw to_new te.0 in
        let goes : pte_get_addr (grown u (index (suc l) va)) ≡ k * 4096 = rw to_new te.1 in
        look-present grown u l va there
        ∙ (ap (λ w. look grown w l va) goes ∙ look_zero grown (k * 4096) l va grown-new)
        ∙ sym (look-absent m.tables u l va absent)
    | inr f ↦ elim (Bool-cases (is_present (m.tables u (index (suc l) va)))) [
      | inr absent ↦
          let absent' : is_present (grown u (index (suc l) va)) ≡ false = rw f absent in
          look-absent grown u l va absent' ∙ sym (look-absent m.tables u l va absent)
      | inl there ↦
          let there' : is_present (grown u (index (suc l) va)) ≡ true = rw f there in
          let c = tr.child u (index (suc l) va) l e (index-lt (suc l) va) there in
          look-present grown u l va there'
          ∙ (ap (λ w. look grown (pte_get_addr w) l va) f
              ∙ grown-look l (pte_get_addr (m.tables u (index (suc l) va))) va c.0)
          ∙ sym (look-present m.tables u l va there)
    ]
  ]

  grown-held :
      (q : Pmm)
      → ((j : ℕ) → bit_test q j ≡ (if k == j then true else bit_test m.pmm j))
      → (u : ℕ) → grown_height u ≢ 0
      → (u % 4096 ≡ 0) × (bit_test q (u / 4096) ≡ true)
  grown-held q sets u ne = elim (ℕ_discrete u (k * 4096)) [
    | yes e ↦
        let whole : k ≡ u / 4096 = omega arith in (omega arith, ground (arith, sets (u / 4096)))
    | no d ↦
        let old : height u ≢ 0 = ground arith in
        let r = tr.held u old in (r.0, ground (arith, sets (u / 4096), r.1))
  ]

  grown-child :
      (u j l : ℕ)
      → grown_height u ≡ suc (suc l)
      → j < 512
      → is_present (grown u j) ≡ true
      → (grown_height (pte_get_addr (grown u j)) ≡ suc l)
        × (grown_prefix (pte_get_addr (grown u j)) ≡ grown_prefix u * 512 + j)
  grown-child u j l e lt h = elim (ℕ_discrete u (k * 4096)) [
    | yes f ↦ let z : grown u j ≡ 0 = rw f (grown-new j) in absurd (cc (rw z at h))
    | no d ↦
        let e' : height u ≡ suc (suc l) = ground arith in
        let p = same_prefix u (omega arith) in
        elim (grown_cases u j (omega arith)) [
          | inl (f, g) ↦
              let to_new : grown u j ≡ bit_or (k * 4096) flags = rw (f, g) grown-entry in
              let goes : pte_get_addr (grown u j) ≡ k * 4096 =
                rw to_new (table_entry k flags hk hf odd).1 in
              let q : prefix u ≡ prefix t = ap prefix f in
              let a : height u ≡ height t = ap height f in
              (rw goes (ground arith), rw goes (ground arith))
          | inr f ↦
              let c = tr.child u j l e' lt (rw f at h) in
              let s = same_height (pte_get_addr (m.tables u j)) (omega (arith, c.0)) in
              let s' = same_prefix (pte_get_addr (m.tables u j)) (omega (arith, c.0)) in
              rw f (s ∙ c.0, s' ∙ (c.1 ∙ rw p))
        ]
  ]

  pub grown-Tree :
      (q : Pmm)
      → ((j : ℕ) → bit_test q j ≡ (if k == j then true else bit_test m.pmm j))
      → Tree (record { pmm = q; tables = grown }) root grown_height grown_prefix
  grown-Tree q sets = record {
    top = (
      same_height root (omega (arith, tr.top.0)) ∙ tr.top.0,
      same_prefix root (omega (arith, tr.top.0)) ∙ tr.top.1,
    );
    child = grown-child;
    held = grown-held q sets;
    low = λ u. ground (arith, tr.low u, tr.low t);
  }

  pub grown-Walk : {va l u : ℕ} → Walk m.tables root va l u → Walk grown root va l u
  grown-Walk here = here
  grown-Walk {va} (down {n = l} {t = u} w h) =
      let r = Walk-Tree tr w in
      let e = kept u (index (suc l) va) (omega (arith, r.1)) h in
      let there : is_present (grown u (index (suc l) va)) ≡ true = rw e h in
      let next : Walk grown root va l (pte_get_addr (grown u (index (suc l) va))) =
        down (grown-Walk w) there in
      rw e at next
