-- ===== src/Mm/Heap/Grow.antt =====
-- `kfree` and `kheap_expand` of kernel/src/mm/pmm.c on a heap whose blocks fill its range.
use mathlib.Core.Option.{some-injective}
use sudo_os.Prelude.{
  ◌⊎◌, sym, Option, none, some, Option-cases, ℕ, zero, suc, ◌+◌, ◌*◌, ◌^◌, ◌%◌, ◌≤◌, ◌<◌, ◌≡◌, ◌∙◌,
  Bool, true, false, refl, arith, List, [], ◌∷◌, ◌++◌, ◌==◌, Bool-cases, inl, inr, ap, subst,
}
use sudo_os.Prelude.Words.{add64, sub64, page_size}
use sudo_os.Mm.Pmm.{pmm_alloc_page}
use sudo_os.Mm.Pmm.Alloc.{Allocated, pmm_alloc_page_cases}
use sudo_os.Mm.Paging.{Machine, vmm_map_page, vmm_get_pte, has_page, is_present, kernel_flags}
use sudo_os.Mm.Paging.Step.{IsTree, pmm_alloc_page-IsTree}
use sudo_os.Mm.Paging.Map.{vmm_map_page-IsTree, vmm_map_page-fewer, vmm_map_page_cases}
use sudo_os.Mm.Paging.Walk.{entry_at, page_of}
use sudo_os.Mm.Paging.Range.{kernel_flags-AreFlags}
use sudo_os.Mm.Heap.{
  Header, KernelHeap, header_size, heap_base, kfree, link_page, add_page, kheap_expand,
}
use sudo_os.Mm.Heap.Tiles.{Tiles, Tiles-append, release-Tiles, release-between}

-- The kernel's page tables are a tree, the blocks fill the heap from its base up to its top, and the
-- addresses would last for all free pages.
pub record IsHeap (root : ℕ) (h : KernelHeap) : Type 0 where
  pub tree : IsTree h.machine root
  pub tiles : Tiles heap_base h.blocks h.top
  pub room : h.top + 4096 * h.machine.pmm.free_pages < 2 ^ 64

kfree-Tiles :
    (h : KernelHeap) (ptr top : ℕ)
    → Tiles heap_base h.blocks top
    → top < 2 ^ 64
    → Tiles heap_base (kfree h ptr).blocks top
unfolding kfree
kfree-Tiles h ptr top t lt = elim (Bool-cases (ptr == 0)) [
  | inl e ↦ rw e t
  | inr e ↦ rw e (release-Tiles lt heap_base (sub64 ptr header_size) h.blocks t)
]

pub kfree-rest :
    (h : KernelHeap) (ptr : ℕ) → ((kfree h ptr).machine ≡ h.machine) × ((kfree h ptr).top ≡ h.top)
unfolding kfree
kfree-rest h ptr = elim (Bool-cases (ptr == 0)) [
  | inl e ↦ rw e (refl, refl)
  | inr e ↦ rw e (refl, refl)
]

pub kfree-IsHeap : (root : ℕ) (h : KernelHeap) (ptr : ℕ) → IsHeap root h → IsHeap root (kfree h ptr)
kfree-IsHeap root h ptr v =
    let room = v.room in
    let t = kfree-Tiles h ptr h.top v.tiles (omega arith) in
    let r = kfree-rest h ptr in
    record { tree = rw (r.0) v.tree; tiles = rw (r.1) t; room = rw (r.0, r.1) v.room }

has_page-entry_at :
    (m : Machine) (root va : ℕ) → has_page m root va ≡ is_present (entry_at m root va)
unfolding has_page
has_page-entry_at m root va = elim (Option-cases (vmm_get_pte m root va)) [
  | inl e ↦ rw (e, has_page, entry_at) refl
  | inr ((t, i), e) ↦ rw (e, has_page, entry_at) refl
]

link_page-IsHeap :
    (root : ℕ) (h : KernelHeap) (m : Machine)
    → IsHeap root h
    → IsTree m root
    → m.pmm.free_pages + 1 ≤ h.machine.pmm.free_pages
    → IsHeap root (link_page h m)
      × ((link_page h m).machine.pmm.free_pages + 1 ≤ h.machine.pmm.free_pages)
unfolding link_page
link_page-IsHeap root h m v tree less =
    let room = v.room in
    let hdr : Header = record { address = h.top; size = 4064; is_free = false } in
    let linked : KernelHeap = record { machine = m; blocks = h.blocks ++ hdr ∷ []; top = h.top } in
    let one : Tiles h.top (hdr ∷ []) (h.top + 4096) = (refl, omega arith) in
    let all : Tiles heap_base linked.blocks (h.top + 4096) =
      Tiles-append heap_base h.top (h.top + 4096) h.blocks (hdr ∷ []) v.tiles one in
    let t = kfree-Tiles linked (add64 h.top header_size) (h.top + 4096) all (omega arith) in
    let r = kfree-rest linked (add64 h.top header_size) in
    let next : add64 h.top page_size ≡ h.top + 4096 = omega arith in
    (
      record { tree = rw (r.0) tree; tiles = rw next t; room = rw (r.0, next) (omega arith) },
      rw (r.0) less,
    )

-- A round with the page `k`: one more page, or the fault, with few pages left for the tables.
add_page_cases :
    (root k : ℕ) (h : KernelHeap)
    → IsHeap root h
    → Allocated h.machine.pmm k (pmm_alloc_page h.machine.pmm)
    → let m : Machine = record h.machine { pmm = (pmm_alloc_page h.machine.pmm).1 } in
      ((h' : KernelHeap) × (add_page h root (k * 4096) m ≡ some h')
        × IsHeap root h'
        × (h'.machine.pmm.free_pages + 1 ≤ h.machine.pmm.free_pages))
      ⊎ ((add_page h root (k * 4096) m ≡ none) × (h.machine.pmm.free_pages ≤ 3))
unfolding add_page
add_page_cases root k h v a =
    let m : Machine = record h.machine { pmm = (pmm_alloc_page h.machine.pmm).1 } in
    let it : IsTree m root = pmm_alloc_page-IsTree v.tree a in
    let aligned : k * 4096 % 4096 ≡ 0 = omega arith in
    let fl = kernel_flags-AreFlags in
    let tree = vmm_map_page-IsTree it h.top (k * 4096) kernel_flags fl aligned in
    let fewer = vmm_map_page-fewer it h.top (k * 4096) kernel_flags fl aligned in
    let less = a.fewer in
    let m' = vmm_map_page m root h.top (k * 4096) kernel_flags in
    elim (Bool-cases (has_page m' root h.top)) [
      | inl e ↦
          let (heap, used) = link_page-IsHeap root h m' v tree (omega arith) in
          inl (link_page h m', rw e refl, heap, used)
      | inr e ↦ inr (
        rw e refl,
        elim (vmm_map_page_cases it h.top (k * 4096) kernel_flags fl aligned) [
          | inl kept ↦ omega (arith, kept.short)
          | inr mapped ↦
              let self : (page_of h.top == page_of h.top) ≡ true = ground arith in
              let there : entry_at m' root h.top ≡ k * 4096 + kernel_flags =
                rw self at (mapped.entries h.top) in
              let off : is_present (entry_at m' root h.top) ≡ false =
                sym (has_page-entry_at m' root h.top) ∙ e in
              let bad : is_present (k * 4096 + kernel_flags) ≡ false = rw there at off in
              absurd (ground arith)
        ],
      )
    ]

-- Growing by `k` pages leads to the heap `h'`.
abbrev pub Grows : ℕ → ℕ → KernelHeap → KernelHeap → Type 0
Grows root k h h' = kheap_expand h root k ≡ some (true, h')

-- After some pages the heap has at most three free pages, and growing it by one more faults.
pub record Starved (root : ℕ) (h : KernelHeap) : Type 0 where
  pub pages : ℕ
  pub at : KernelHeap
  pub grows : Grows root pages h at
  pub heap : IsHeap root at
  pub few : at.machine.pmm.free_pages ≤ 3
  pub faults : kheap_expand at root 1 ≡ none

-- Growing by `n` pages: they are added and used up; or memory runs out; or it faults.
abbrev pub Expanded : ℕ → ℕ → KernelHeap → Type 0
Expanded root n h =
    ((h' : KernelHeap) × Grows root n h h'
      × IsHeap root h'
      × (h'.machine.pmm.free_pages + n ≤ h.machine.pmm.free_pages))
    ⊎ (((h' : KernelHeap) × (kheap_expand h root n ≡ some (false, h')) × IsHeap root h')
        ⊎ ((kheap_expand h root n ≡ none) × Starved root h))

module _ (root : ℕ) (h : KernelHeap) where
  abbrev with_page : Option KernelHeap
  with_page =
      let (pa, pmm) = pmm_alloc_page h.machine.pmm in
      add_page h root pa (record h.machine { pmm = pmm })

  kheap_expand-next :
      (n : ℕ) (h1 : KernelHeap)
      → ((pmm_alloc_page h.machine.pmm).0 == 0) ≡ false
      → with_page ≡ some h1
      → kheap_expand h root (suc n) ≡ kheap_expand h1 root n
  unfolding kheap_expand
  kheap_expand-next n h1 off e = rw (off, e, kheap_expand) refl

  kheap_expand-fault :
      (n : ℕ)
      → ((pmm_alloc_page h.machine.pmm).0 == 0) ≡ false
      → with_page ≡ none
      → kheap_expand h root (suc n) ≡ none
  unfolding kheap_expand
  kheap_expand-fault n off e = rw (off, e, kheap_expand) refl

-- Growing again from where growing led.
pub kheap_expand-again :
    (k n root : ℕ) (h h' : KernelHeap)
    → Grows root k h h'
    → kheap_expand h root (k + n) ≡ kheap_expand h' root n
unfolding kheap_expand
kheap_expand-again zero n root h h' g =
    let same : h ≡ h' = ap (λ r. r.1) (some-injective (true, h) (true, h') g) in
    let none_more : zero + n ≡ n = omega arith in
    rw none_more (ap (λ x. kheap_expand x root n) same)
kheap_expand-again (suc k) n root h h' g =
    elim (Bool-cases ((pmm_alloc_page h.machine.pmm).0 == 0)) [
      | inl z ↦
          let bad : Path (Option (Bool × KernelHeap)) (some (false, _)) (some (true, h')) =
            rw z at g in
          let no : false ≡ true = ap (λ r. r.0) (some-injective _ _ bad) in absurd (ground arith)
      | inr nz ↦ elim (Option-cases (with_page root h)) [
        | inl e ↦
            let bad : Path (Option (Bool × KernelHeap)) none (some (true, h')) =
              sym (kheap_expand-fault root h k nz e) ∙ g in
            absurd (ground arith)
        | inr (h1, e) ↦
            let rest : Grows root k h1 h' = sym (kheap_expand-next root h k h1 nz e) ∙ g in
            let one_more : suc k + n ≡ suc (k + n) = omega arith in
            rw one_more
              (kheap_expand-next root h (k + n) h1 nz e ∙ kheap_expand-again k n root h1 h' rest)
      ]
    ]

pub Starved-after :
    (k root : ℕ) (h h' : KernelHeap) → Grows root k h h' → Starved root h' → Starved root h
Starved-after k root h h' g s = record {
  pages = k + s.pages;
  at = s.at;
  grows = kheap_expand-again k s.pages root h h' g ∙ s.grows;
  heap = s.heap;
  few = s.few;
  faults = s.faults;
}

pub kheap_expand_cases : (n root : ℕ) (h : KernelHeap) → IsHeap root h → Expanded root n h
unfolding kheap_expand
kheap_expand_cases zero root h v = inl (h, refl, v, omega arith)
kheap_expand_cases (suc n) root h v =
    elim (pmm_alloc_page_cases v.tree.ready.valid v.tree.ready.reserved) [
      | inr (e, busy) ↦ inr (inl (h, rw e refl, v))
      | inl (ne, (k, a)) ↦
          let off : ((pmm_alloc_page h.machine.pmm).0 == 0) ≡ false = ground (arith, ne) in
          elim (add_page_cases root k h v a) [
            | inr (e, few) ↦
                let e' : with_page root h ≡ none = rw (a.address) e in
                inr (
                  inr (
                    kheap_expand-fault root h n off e',
                    record {
                      pages = 0;
                      at = h;
                      grows = refl;
                      heap = v;
                      few = few;
                      faults = kheap_expand-fault root h 0 off e';
                    },
                  ))
            | inl (h1, e, v1, less) ↦
                let e' : with_page root h ≡ some h1 = rw (a.address) e in
                let one : Grows root 1 h h1 = kheap_expand-next root h 0 h1 off e' in
                let step = kheap_expand-next root h n h1 off e' in
                elim (kheap_expand_cases n root h1 v1) [
                  | inl (h', g, v', used) ↦ inl (h', step ∙ g, v', omega arith)
                  | inr (inl (h', g, v')) ↦ inr (inl (h', step ∙ g, v'))
                  | inr (inr (g, s)) ↦ inr (inr (step ∙ g, Starved-after 1 root h h1 one s))
                ]
          ]
    ]

-- On a heap whose blocks fill its range, `kfree` of the block between two others makes one block of the
-- three, whether the neighbours are free or in use: it reaches from the header of the one before to the
-- end of the one behind and keeps the state of the one before. Nothing else in the list changes.
pub kfree-joined :
    (root : ℕ) (h : KernelHeap) (before : List Header) (prev hdr next : Header)
    (after : List Header)
    → IsHeap root h
    → h.blocks ≡ before ++ prev ∷ hdr ∷ next ∷ after
    → (kfree h (hdr.address + header_size)).blocks
      ≡ before
        ++ record prev { size = prev.size + header_size + hdr.size + header_size + next.size }
          ∷ after
unfolding kfree
kfree-joined root h before prev hdr next after v e =
    let room = v.room in
    let t = subst (λ bs. Tiles heap_base bs h.top) e v.tiles in
    let r = release-between (omega arith) heap_base before prev hdr next after t in
    let at : sub64 (hdr.address + header_size) header_size ≡ hdr.address = omega (arith, r.0.1) in
    let there : (hdr.address + header_size == 0) ≡ false = ground arith in
    let size : prev.size + (hdr.size + next.size + header_size) + header_size
        ≡ prev.size + header_size + hdr.size + header_size + next.size =
      omega arith in
    rw (there, at, e) (r.1 ∙ ap (λ n. before ++ record prev { size = n } ∷ after) size)
