-- ===== src/Mm/Pmm/Owners.antt =====
-- The clients of the page allocator of kernel/src/mm/pmm.c: page tables, the heap, kernel stacks and
-- user memory take pages by `pmm_alloc_page` and give them back by `pmm_free_page`, in any order. Each
-- address that a client holds was returned to it and has not been given back.
use sudo_os.Prelude.{
  ℕ, ◌*◌, ◌/◌, ◌<◌, ◌≡◌, ◌≢◌, ◌⊎◌, inl, inr, true, false, sym, ap, Bool-cases, ◌∙◌, arith, List, [],
  ◌∷◌, ◌==◌, if◌then◌else◌,
}
use native.Mathlib.Decide.{ℕ_discrete, dec_lt}
use sudo_os.Mm.Pmm.{Pmm, bit_test, pmm_alloc_page, pmm_free_page}
use sudo_os.Mm.Pmm.Valid.{IsValid}
use sudo_os.Mm.Pmm.Alloc.{pmm_alloc_page-Allocated, pmm_alloc_page-empty, pmm_alloc_page-zero}
use sudo_os.Mm.Pmm.Free.{Released, pmm_free_page-used}

-- The allocator and the addresses that its clients hold.
pub record World : Type 0 where
  pub pmm : Pmm
  pub held : List ℕ

abbrev pub Holds : ℕ → List ℕ → Type 0
Holds a [] = ⊥
Holds a (b ∷ bs) = (a ≡ b) ⊎ Holds a bs

abbrev pub drop_address : ℕ → List ℕ → List ℕ
drop_address a [] = []
drop_address a (b ∷ bs) = if a == b then bs else b ∷ drop_address a bs

-- A client asks for a page, and keeps what it gets unless that is 0; or it gives back one that it holds.
pub data Step (w : World) : World → Type 0 where
  ask :
      (pmm_alloc_page w.pmm).0 ≢ 0
      → Step w (record { pmm = (pmm_alloc_page w.pmm).1; held = (pmm_alloc_page w.pmm).0 ∷ w.held })
  fail :
      (pmm_alloc_page w.pmm).0 ≡ 0
      → Step w (record { pmm = (pmm_alloc_page w.pmm).1; held = w.held })
  give_back :
      (a : ℕ)
      → Holds a w.held
      → Step w (record { pmm = pmm_free_page w.pmm a; held = drop_address a w.held })

pub data Reach (w : World) : World → Type 0 where
  here : Reach w w
  next : {t u : World} → Reach w t → Step t u → Reach w u

-- Each address is that of a page in range which is in use, and no address stands twice.
abbrev pub AllHeld : Pmm → List ℕ → Type 0
AllHeld p [] = Unit
AllHeld p (a ∷ rest) =
    (a / 4096 * 4096 ≡ a)
    × (a / 4096 < p.total_pages)
    × (bit_test p (a / 4096) ≡ true)
    × (¬ Holds a rest)
    × AllHeld p rest

pub record IsSafe (w : World) : Type 0 where
  pub valid : IsValid w.pmm
  pub reserved : bit_test w.pmm 0 ≡ true
  pub not_null : ¬ Holds 0 w.held
  pub all_held : AllHeld w.pmm w.held

-- A held address has these properties.
held_used :
    (p : Pmm) (a : ℕ) (rest : List ℕ)
    → AllHeld p rest
    → Holds a rest
    → (a / 4096 * 4096 ≡ a) × (a / 4096 < p.total_pages) × (bit_test p (a / 4096) ≡ true)
held_used p a [] h m = absurd m
held_used p a (b ∷ bs) h (inl e) = rw e (h.0, h.1, h.2)
held_used p a (b ∷ bs) h (inr m) = held_used p a bs h.4 m

Holds-drop_address : (b a : ℕ) (rest : List ℕ) → Holds b (drop_address a rest) → Holds b rest
Holds-drop_address b a [] m = m
Holds-drop_address b a (c ∷ cs) m = elim (Bool-cases (a == c)) [
  | inl e ↦ inr (rw e at m)
  | inr e ↦
      let m' : (b ≡ c) ⊎ Holds b (drop_address a cs) = rw e at m in
      elim m' [ inl q ↦ inl q | inr l ↦ inr (Holds-drop_address b a cs l) ]
]

-- If the bits of the held pages stay, all are still held.
AllHeld-mono :
    (p q : Pmm) (rest : List ℕ)
    → q.total_pages ≡ p.total_pages
    → ((j : ℕ) → bit_test p j ≡ true → bit_test q j ≡ true)
    → AllHeld p rest
    → AllHeld q rest
AllHeld-mono p q [] t keep h = tt
AllHeld-mono p q (a ∷ rest) t keep h =
    (h.0, omega arith, keep (a / 4096) h.2, h.3, AllHeld-mono p q rest t keep h.4)

-- A page that was free is held by nobody.
not_held :
    (p : Pmm) (k : ℕ) (rest : List ℕ)
    → AllHeld p rest
    → bit_test p k ≡ false
    → ¬ Holds (k * 4096) rest
not_held p k rest h unused m =
    let u = held_used p (k * 4096) rest h m in
    let e : k * 4096 / 4096 ≡ k = omega arith in cc (rw e at u.2)

-- Releasing an address that is not held leaves the held ones held.
AllHeld-release :
    {p q : Pmm} (a : ℕ) (rest : List ℕ)
    → a / 4096 * 4096 ≡ a
    → Released p (a / 4096) q
    → ¬ Holds a rest
    → AllHeld p rest
    → AllHeld q rest
AllHeld-release a [] al r out h = tt
AllHeld-release a (b ∷ bs) al r out h =
    let ne : a / 4096 ≢ b / 4096 = λ e. out (inl (sym al ∙ ap (λ n. n * 4096) e ∙ h.0)) in
    (
      h.0,
      omega (arith, r.total, h.1),
      ground (arith, r.bits (b / 4096), h.2),
      h.3,
      AllHeld-release a bs al r (λ m. out (inr m)) h.4,
    )

-- Releasing a held address leaves the others held.
AllHeld-drop_address :
    {p q : Pmm} (a : ℕ) (rest : List ℕ)
    → a / 4096 * 4096 ≡ a
    → Released p (a / 4096) q
    → AllHeld p rest
    → AllHeld q (drop_address a rest)
AllHeld-drop_address a [] al r h = tt
AllHeld-drop_address a (b ∷ bs) al r h = elim (ℕ_discrete a b) [
  | yes e ↦
      let hit : (a == b) ≡ true = ground arith in
      rw hit (AllHeld-release a bs al r (rw (← e) at h.3) h.4)
  | no ne ↦
      let miss : (a == b) ≡ false = ground arith in
      let apart : a / 4096 ≢ b / 4096 = λ e. ne (sym al ∙ ap (λ n. n * 4096) e ∙ h.0) in
      rw miss (
        h.0,
        omega (arith, r.total, h.1),
        ground (arith, r.bits (b / 4096), h.2),
        λ m. h.3 (Holds-drop_address b a bs m),
        AllHeld-drop_address a bs al r h.4,
      )
]

Step-IsSafe : {w u : World} → Step w u → IsSafe w → IsSafe u
Step-IsSafe {w} (ask ne) s = elim (dec_lt 0 w.pmm.free_pages) [
  | yes pos ↦
      let (k, a) = pmm_alloc_page-Allocated s.valid pos in
      let page : (pmm_alloc_page w.pmm).0 / 4096 ≡ k = omega (arith, a.address) in
      record {
        valid = a.valid;
        reserved = ground (arith, a.bits 0, s.reserved);
        not_null = λ m. elim m [ inl e ↦ ne (sym e) | inr l ↦ s.not_null l ];
        all_held = (
          omega (arith, a.address),
          omega (arith, a.total, a.fit.in_range),
          rw page (ground (arith, a.bits k)),
          rw a.address (not_held w.pmm k w.held s.all_held a.fit.unused),
          AllHeld-mono w.pmm (pmm_alloc_page w.pmm).1 w.held a.total
              (λ j h. ground (arith, a.bits j)) s.all_held,
        );
      }
  | no none_left ↦ absurd (ne (rw (pmm_alloc_page-empty s.valid (omega arith))))
]
Step-IsSafe {w} (fail e) s = rw ((pmm_alloc_page-zero s.valid s.reserved).1 e) (record {
  valid = s.valid;
  reserved = s.reserved;
  not_null = s.not_null;
  all_held = s.all_held;
})
Step-IsSafe {w} (give_back a m) s =
    let u = held_used w.pmm a w.held s.all_held m in
    let r = pmm_free_page-used s.valid a u.1 u.2 in
    let nonzero : a ≢ 0 = λ e. s.not_null (rw e at m) in
    let off : (a / 4096 == 0) ≡ false = ground (arith, u.0) in
    record {
      valid = r.valid;
      reserved = ground (arith, r.bits 0, s.reserved);
      not_null = λ l. s.not_null (Holds-drop_address 0 a w.held l);
      all_held = AllHeld-drop_address a w.held u.0 r s.all_held;
    }

-- Any sequence of requests, failed requests and returns of held pages keeps a safe world safe: the
-- allocator stays valid, page 0 stays reserved, and the addresses held are never 0, are page addresses
-- in range of pages in use, and are all different, so no page is handed out while it is held.
pub Reach-IsSafe : {w u : World} → Reach w u → IsSafe w → IsSafe u
Reach-IsSafe here s = s
Reach-IsSafe (next r st) s = Step-IsSafe st (Reach-IsSafe r s)
