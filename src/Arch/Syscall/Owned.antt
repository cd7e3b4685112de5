-- ===== src/Arch/Syscall/Owned.antt =====
-- Which process owns which open file, as the operations of kernel/src/fs/ramfs.c change the descriptors.
use sudo_os.Prelude.{
  ℕ, zero, suc, ◌<◌, ◌≡◌, ◌≢◌, ◌⊎◌, ◌∙◌, refl, ap, sym, subst, arith, Option, none, some, List, [],
  ◌∷◌, ◌==◌, if◌then◌else◌, Bool-cases, inl, inr, get_or, set, length,
}
use sudo_os.Fs.Ramfs.{Handle}
use sudo_os.Fs.Ramfs.Fds.{ref_of, SameBut, Move, stays, opens, closes}
use sudo_os.Arch.System.{update_at}

-- Descriptor `fd` of process `p` names the open file `i`.
abbrev pub Names : (ℕ → List (Option ℕ)) → ℕ → ℕ → ℕ → Type 0
Names tables p fd i = get_or (tables p) fd none ≡ some i

-- Every open file that a descriptor names is one of the table's with a count, and no two descriptors, of one
-- process or of two, name the same open file.
pub record Owned (hs : List Handle) (tables : ℕ → List (Option ℕ)) : Type 0 where
  pub in_range : (p fd i : ℕ) → Names tables p fd i → i < length hs
  pub counted : (p fd i : ℕ) → Names tables p fd i → ref_of hs i ≢ 0
  pub alone : (p q fd gd i : ℕ) → Names tables p fd i → Names tables q gd i → (p ≡ q) × (fd ≡ gd)

-- An entry of a table with one entry written is the one written or an old one elsewhere.
get_or-set_cases :
    (xs : List (Option ℕ)) (i j k : ℕ) (v : Option ℕ)
    → get_or (set xs i v) j none ≡ some k
    → ((i ≡ j) × (v ≡ some k)) ⊎ ((i ≢ j) × (get_or xs j none ≡ some k))
get_or-set_cases [] i j k v e = absurd (cc)
get_or-set_cases (x ∷ xs) zero zero k v e = inl (refl, e)
get_or-set_cases (x ∷ xs) zero (suc j) k v e = inr ((λ h. omega arith), e)
get_or-set_cases (x ∷ xs) (suc i) zero k v e = inr ((λ h. omega arith), e)
get_or-set_cases (x ∷ xs) (suc i) (suc j) k v e = elim (get_or-set_cases xs i j k v e) [
  | inl (h, g) ↦ inl (ap suc h, g)
  | inr (h, g) ↦ inr ((λ h'. h (omega arith)), g)
]

-- A name in the tables after a write to the one of process `c`.
update_at-Names :
    (tables : ℕ → List (Option ℕ)) (c fd : ℕ) (v : Option ℕ) (p gd k : ℕ)
    → Names (update_at tables c (set (tables c) fd v)) p gd k
    → ((c ≡ p) × (fd ≡ gd) × (v ≡ some k)) ⊎ (Names tables p gd k × ((c ≡ p) → fd ≢ gd))
update_at-Names tables c fd v p gd k e = elim (Bool-cases (p == c)) [
  | inl same ↦
      let at : p ≡ c = ground arith in
      let e' : get_or (set (tables c) fd v) gd none ≡ some k =
        subst (λ b. get_or (if b then set (tables c) fd v else tables p) gd none ≡ some k) same e in
      elim (get_or-set_cases (tables c) fd gd k v e') [
        | inl (h, g) ↦ inl (sym at, h, g)
        | inr (h, g) ↦ inr (rw at g, λ _. h)
      ]
  | inr other ↦
      let ne : p ≢ c = ground arith in
      let e' : Names tables p gd k =
        subst (λ b. get_or (if b then set (tables c) fd v else tables p) gd none ≡ some k) other
          e in
      inr (e', λ h. absurd (ne (sym h)))
]

-- Where every name is an old one, of an open file whose count is the same.
pub Owned-fewer :
    (hs hs' : List Handle) (tables tables' : ℕ → List (Option ℕ))
    → Owned hs tables
    → length hs' ≡ length hs
    → ((p fd i : ℕ) → Names tables' p fd i → Names tables p fd i × (ref_of hs' i ≡ ref_of hs i))
    → Owned hs' tables'
Owned-fewer hs hs' tables tables' o size old = record {
  in_range = λ p fd i h. let lt = o.in_range p fd i (old p fd i h).0 in omega arith;
  counted = λ p fd i h z. let (n, same) = old p fd i h in o.counted p fd i n (sym same ∙ z);
  alone = λ p q fd gd i h g. o.alone p q fd gd i (old p fd i h).0 (old q gd i g).0;
}

module _ (hs hs' : List Handle) (tables : ℕ → List (Option ℕ)) (c : ℕ) (o : Owned hs tables) where
  Owned-stays :
      length hs' ≡ length hs
      → ((j : ℕ) → ref_of hs' j ≡ ref_of hs j)
      → Owned hs' (update_at tables c (tables c))
  Owned-stays size same =
      Owned-fewer hs hs' tables (update_at tables c (tables c)) o size λ p fd i h. (
        elim (Bool-cases (p == c)) [
          | inl e ↦
              let at : p ≡ c = ground arith in
              rw at (subst (λ b. get_or (if b then tables c else tables p) fd none ≡ some i) e h)
          | inr e ↦ subst (λ b. get_or (if b then tables c else tables p) fd none ≡ some i) e h
        ],
        same i,
      )

  Owned-closes :
      (i fd : ℕ)
      → Names tables c fd i
      → SameBut i hs hs'
      → Owned hs' (update_at tables c (set (tables c) fd none))
  Owned-closes i fd at but =
      Owned-fewer hs hs' tables (update_at tables c (set (tables c) fd none)) o but.size λ p gd k h.
        elim (update_at-Names tables c fd none p gd k h) [
          | inl (_, _, e) ↦ absurd (cc)
          | inr (n, other) ↦ (
            n,
            but.others k λ e.
                let (same_p, same_fd) = o.alone c p fd gd k (rw e at) n in other same_p same_fd,
          )
        ]

  -- A name is the new one, or an old one of another open file.
  Owned-opens :
      (i fd : ℕ)
      → i < length hs
      → ref_of hs i ≡ 0
      → SameBut i hs hs'
      → ref_of hs' i ≡ 1
      → Owned hs' (update_at tables c (set (tables c) fd (some i)))
  Owned-opens i fd lt z but one = record {
    in_range = λ p gd k h. elim (names p gd k h) [
      | inl (_, _, e) ↦ let size = but.size in omega arith
      | inr (n, other) ↦ let size = but.size in let old = o.in_range p gd k n in omega arith
    ];
    counted = λ p gd k h zero_count. elim (names p gd k h) [
      | inl (_, _, e) ↦ let count : ref_of hs' i ≡ 0 = rw e zero_count in absurd (omega arith)
      | inr (n, other) ↦ o.counted p gd k n (sym (but.others k other) ∙ zero_count)
    ];
    alone = λ p q gd gd' k h g. elim (names p gd k h) [
      | inl (e, e', is_new) ↦ elim (names q gd' k g) [
        | inl (e2, e2', _) ↦ (sym e ∙ e2, sym e' ∙ e2')
        | inr (_, other) ↦ absurd (other (sym is_new))
      ]
      | inr (n, other) ↦ elim (names q gd' k g) [
        | inl (_, _, is_new) ↦ absurd (other (sym is_new))
        | inr (n', _) ↦ o.alone p q gd gd' k n n'
      ]
    ];
  }
    where
      names :
          (p gd k : ℕ)
          → Names (update_at tables c (set (tables c) fd (some i))) p gd k
          → ((c ≡ p) × (fd ≡ gd) × (i ≡ k)) ⊎ (Names tables p gd k × (k ≢ i))
      names p gd k h = elim (update_at-Names tables c fd (some i) p gd k h) [
        | inl (e, e', g) ↦ inl (e, e', (cc))
        | inr (n, _) ↦ inr (n, λ e. o.counted p gd k n (ap (ref_of hs) e ∙ z))
      ]

  pub Owned-Move :
      (fds' : List (Option ℕ)) → Move hs hs' (tables c) fds' → Owned hs' (update_at tables c fds')
  Owned-Move fds' (stays size same e) = rw e (Owned-stays size same)
  Owned-Move fds' (opens i fd lt z but one e) = rw e (Owned-opens i fd lt z but one)
  Owned-Move fds' (closes i fd at but e) = rw e (Owned-closes i fd at but)
