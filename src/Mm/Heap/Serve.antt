-- ===== src/Mm/Heap/Serve.antt =====
-- `kmalloc` of kernel/src/mm/pmm.c: the first block that fits, its split, and the growth of the heap.
use mathlib.Core.List.{Memᴰ}
use mathlib.Core.Option.{some-injective}
use sudo_os.Prelude.{
  ◌∙◌, ℕ, zero, suc, ◌+◌, ◌^◌, ◌≤◌, ◌<◌, ◌≡◌, ◌⊎◌, true, false, refl, arith, Option, none, some,
  List, [], ◌∷◌, ◌++◌, ◌==◌, ◌&&◌, leb, Bool-cases, Option-cases, inl, inr, subst,
}
use sudo_os.Prelude.Words.{add64, sub64, align_up}
use sudo_os.Mm.Heap.{
  Header, KernelHeap, header_size, heap_base, min_split, first_fit, split_block, take_block,
  pages_needed, kheap_expand, kmalloc,
}
use sudo_os.Mm.Heap.Tiles.{Tiles, Tiles-le}
use sudo_os.Mm.Heap.Grow.{
  IsHeap, Grows, Starved, Starved-after, kheap_expand-again, kheap_expand_cases,
}

-- A block in use at `at` with `size` bytes.
pub record Serves (bs : List Header) (at size : ℕ) : Type 0 where
  pub block : Header
  pub listed : Memᴰ block bs
  pub place : block.address ≡ at
  pub taken : block.is_free ≡ false
  pub enough : size ≤ block.size

Serves-tail :
    (hdr : Header) {bs : List Header} {at size : ℕ} → Serves bs at size → Serves (hdr ∷ bs) at size
Serves-tail hdr s = record {
  block = s.block;
  listed = Memᴰ.tail s.listed;
  place = s.place;
  taken = s.taken;
  enough = s.enough;
}

-- What the first fit `target` for `size` is, and what taking it leaves.
pub record Taken (from top size : ℕ) (bs : List Header) (target : Header) : Type 0 where
  pub behind : from ≤ target.address
  pub inside : target.address + header_size ≤ top
  pub listed : Memᴰ target bs
  pub was_free : (target.is_free ≡ true) × (size ≤ target.size)
  pub tiles : Tiles from (take_block bs target.address size) top
  pub serves : Serves (take_block bs target.address size) target.address size

split_block-Tiles :
    (from top size : ℕ) (hdr : Header) (rest : List Header)
    → top < 2 ^ 64
    → 48 ≤ from
    → size ≤ hdr.size
    → Tiles from (hdr ∷ rest) top
    → Tiles from (split_block hdr size ++ rest) top
      × Serves (split_block hdr size ++ rest) hdr.address size
unfolding split_block
split_block-Tiles from top size hdr rest fits low le (e, t) =
    let room = Tiles-le (from + header_size + hdr.size) rest top t in
    elim (Bool-cases (leb (add64 (add64 size header_size) min_split) hdr.size)) [
      | inr h ↦ rw h (
        (e, t),
        record {
          block = record hdr { is_free = false };
          listed = Memᴰ.head refl;
          place = refl;
          taken = refl;
          enough = le;
        },
      )
      | inl h ↦
          let fit : size + 48 ≤ hdr.size = ground arith in
          let place : add64 (add64 hdr.address header_size) size ≡ from + header_size + size =
            omega arith in
          let left : from
                + header_size
                + size
                + header_size
                + sub64 (sub64 hdr.size size) header_size
              ≡ from + header_size + hdr.size =
            omega arith in
          rw h (
            (e, (place, rw left t)),
            record {
              block = record hdr { size = size; is_free = false };
              listed = Memᴰ.head refl;
              place = refl;
              taken = refl;
              enough = omega arith;
            },
          )
    ]

pub first_fit-Taken :
    (from top size : ℕ) (bs : List Header) (target : Header)
    → top < 2 ^ 64
    → 48 ≤ from
    → Tiles from bs top
    → first_fit bs size ≡ some target
    → Taken from top size bs target
unfolding first_fit take_block
first_fit-Taken from top size [] target fits low t e = ground arith
first_fit-Taken from top size (hdr ∷ rest) target fits low (a, t) e =
    elim (Bool-cases (hdr.is_free && leb size hdr.size)) [
      | inl h ↦
          let same : some hdr ≡ some target = rw h at e in
          let it : (hdr.address == hdr.address) ≡ true = ground arith in
          let fit : (hdr.is_free ≡ true) × (size ≤ hdr.size) = (ground arith, ground arith) in
          let r = split_block-Tiles from top size hdr rest fits low fit.1 (a, t) in
          subst (Taken from top size (hdr ∷ rest)) (some-injective hdr target same) (record {
            behind = omega arith;
            inside = omega (arith, Tiles-le (from + header_size + hdr.size) rest top t);
            listed = Memᴰ.head refl;
            was_free = fit;
            tiles = rw it r.0;
            serves = rw it r.1;
          })
      | inr h ↦
          let r =
            first_fit-Taken (from + header_size + hdr.size) top size rest target fits (omega arith)
              t (rw h at e) in
          let other : (hdr.address == target.address) ≡ false = ground (arith, r.behind) in
          record {
            behind = omega (arith, r.behind);
            inside = r.inside;
            listed = Memᴰ.tail r.listed;
            was_free = r.was_free;
            tiles = rw other (a, r.tiles);
            serves = rw other (Serves-tail hdr r.serves);
          }
    ]

-- A block `target` that was free and has the bytes, in the list of the heap `from`, which the heap grew to,
-- is taken, and the block in use at its place has the bytes; the rest of the heap is as it was.
pub record Served (root size : ℕ) (h : KernelHeap) (r : ℕ × KernelHeap) : Type 0 where
  pub pages : ℕ
  pub source : KernelHeap
  pub grows : Grows root pages h source
  pub target : Header
  pub listed : Memᴰ target source.blocks
  pub was_free : (target.is_free ≡ true) × (size ≤ target.size)
  pub pointer : (r.0 ≡ target.address + header_size) × (heap_base ≤ target.address)
  pub kept :
      r.1 ≡ record source { blocks = take_block source.blocks target.address (align_up size 8) }
  pub serves : Serves r.1.blocks target.address size

-- What a call of `kmalloc` returns and leaves: NULL, where growing ran out of memory, or a block. The
-- blocks fill the heap.
pub record Answered (root size : ℕ) (h : KernelHeap) (r : ℕ × KernelHeap) : Type 0 where
  pub heap : IsHeap root r.1
  pub pointer :
      ((r.0 ≡ 0) × (n : ℕ) × (kheap_expand h root n ≡ some (false, r.1))) ⊎ Served root size h r

pages_needed-pos : (size : ℕ) → 1 ≤ pages_needed size
unfolding pages_needed
pages_needed-pos size = ground arith

-- A request that a block of the list can serve.
fits_now :
    (root size : ℕ) (h : KernelHeap) (target : Header)
    → IsHeap root h
    → align_up size 8 ≡ size
    → first_fit h.blocks size ≡ some target
    → Answered root size h (
      add64 target.address header_size,
      record h { blocks = take_block h.blocks target.address size },
    )
unfolding kheap_expand
fits_now root size h target v settled e =
    let room = v.room in
    let r =
      first_fit-Taken heap_base h.top size h.blocks target (omega arith) (omega arith) v.tiles e in
    let inside = r.inside in
    record {
      heap = record { tree = v.tree; tiles = r.tiles; room = v.room };
      pointer = inr (record {
        pages = 0;
        source = h;
        grows = refl;
        target = target;
        listed = r.listed;
        was_free = r.was_free;
        pointer = (omega arith, r.behind);
        kept = rw settled refl;
        serves = r.serves;
      });
    }

-- What holds of a call on the heap that `h` grew to holds of the call on `h`.
grown_before :
    (k root size : ℕ) (h h' : KernelHeap) (r : ℕ × KernelHeap)
    → Grows root k h h'
    → Answered root size h' r
    → Answered root size h r
grown_before k root size h h' r g a = record {
  heap = a.heap;
  pointer = elim a.pointer [
    | inl (z, n, e) ↦ inl (z, k + n, kheap_expand-again k n root h h' g ∙ e)
    | inr s ↦ inr (record {
      pages = k + s.pages;
      source = s.source;
      grows = kheap_expand-again k s.pages root h h' g ∙ s.grows;
      target = s.target;
      listed = s.listed;
      was_free = s.was_free;
      pointer = s.pointer;
      kept = s.kept;
      serves = s.serves;
    })
  ];
}

module _ (fuel root size : ℕ) (h : KernelHeap) where
  pub kmalloc-fit :
      (target : Header)
      → first_fit h.blocks (align_up size 8) ≡ some target
      → kmalloc (suc fuel) h root size
        ≡ some (
          add64 target.address header_size,
          record h { blocks = take_block h.blocks target.address (align_up size 8) },
        )
  unfolding kmalloc
  kmalloc-fit target e = rw (e, kmalloc) refl

  kmalloc-null :
      (h' : KernelHeap)
      → first_fit h.blocks (align_up size 8) ≡ none
      → kheap_expand h root (pages_needed (align_up size 8)) ≡ some (false, h')
      → kmalloc (suc fuel) h root size ≡ some (0, h')
  unfolding kmalloc
  kmalloc-null h' e g = rw (e, g, kmalloc) refl

  kmalloc-again :
      (h' : KernelHeap)
      → first_fit h.blocks (align_up size 8) ≡ none
      → Grows root (pages_needed (align_up size 8)) h h'
      → kmalloc (suc fuel) h root size ≡ kmalloc fuel h' root (align_up size 8)
  unfolding kmalloc
  kmalloc-again h' e g = rw (e, g, kmalloc) refl

  kmalloc-fault :
      first_fit h.blocks (align_up size 8) ≡ none
      → kheap_expand h root (pages_needed (align_up size 8)) ≡ none
      → kmalloc (suc fuel) h root size ≡ none
  unfolding kmalloc
  kmalloc-fault e g = rw (e, g, kmalloc) refl

-- A result, and what it is; or a fault.
abbrev Returns : ℕ → ℕ → KernelHeap → Option (ℕ × KernelHeap) → Type 0
Returns root size h o =
    ((p : ℕ) × (h' : KernelHeap) × (o ≡ some (p, h')) × Answered root size h (p, h'))
    ⊎ ((o ≡ none) × Starved root h)

kmalloc_aligned :
    (fuel root size : ℕ) (h : KernelHeap)
    → IsHeap root h
    → h.machine.pmm.free_pages < fuel
    → Returns root (align_up size 8) h (kmalloc fuel h root size)
kmalloc_aligned zero root size h v enough = absurd (omega arith)
kmalloc_aligned (suc fuel) root size h v enough =
    let size' = align_up size 8 in
    let n = pages_needed size' in
    let settled : align_up size' 8 ≡ size' = omega arith in
    elim (Option-cases (first_fit h.blocks size')) [
      | inr (target, e) ↦
          inl
            (_, _, kmalloc-fit fuel root size h target e, fits_now root size' h target v settled e)
      | inl e ↦ elim (kheap_expand_cases n root h v) [
        | inr (inr (g, s)) ↦ inr (kmalloc-fault fuel root size h e g, s)
        | inr (inl (h', g, v')) ↦ inl (
          0,
          h',
          kmalloc-null fuel root size h h' e g,
          record { heap = v'; pointer = inl (refl, n, g) },
        )
        | inl (h1, g, v1, used) ↦
            let again =
              kmalloc_aligned fuel root size' h1 v1 (omega (arith, pages_needed-pos size')) in
            let step = kmalloc-again fuel root size h h1 e g in
            elim (rw settled at again) [
              | inl (p, h', q, a) ↦
                  inl (p, h', step ∙ q, grown_before n root size' h h1 (p, h') g a)
              | inr (q, s) ↦ inr (step ∙ q, Starved-after n root h h1 g s)
            ]
      ]
    ]

-- The bytes asked for, in place of those that they round up to.
for_size :
    (root size : ℕ) (h : KernelHeap) (r : ℕ × KernelHeap)
    → size + 8 ≤ 2 ^ 64
    → Answered root (align_up size 8) h r
    → Answered root size h r
for_size root size h r le a = record {
  heap = a.heap;
  pointer = elim a.pointer [
    | inl z ↦ inl z
    | inr s ↦
        let settled : align_up (align_up size 8) 8 ≡ align_up size 8 = omega arith in
        let most = s.serves.enough in
        let fit = s.was_free.1 in
        inr (record {
          pages = s.pages;
          source = s.source;
          grows = s.grows;
          target = s.target;
          listed = s.listed;
          was_free = (s.was_free.0, omega arith);
          pointer = s.pointer;
          kept = rw settled at s.kept;
          serves = record {
            block = s.serves.block;
            listed = s.serves.listed;
            place = s.serves.place;
            taken = s.serves.taken;
            enough = omega arith;
          };
        })
  ];
}

-- On a heap whose blocks fill its range, whose page tables are a tree and whose addresses last, with fuel
-- for more rounds than there are free pages, and for a size that rounds up within 64 bits, a call of
-- `kmalloc` returns, or it faults because some growth of the heap led to at most three free pages and
-- the write to the header in the next page finds no mapping. If it returns, the heap grew by some pages, and
-- either memory ran out and the pointer is NULL, or it points behind the header of a block that was free
-- and had the bytes asked for and that is now taken; nothing else of the grown heap changed. The blocks
-- fill the range of the heap afterwards too, and the page tables are a tree.
pub kmalloc-Answered :
    (fuel root size : ℕ) (h : KernelHeap)
    → IsHeap root h
    → h.machine.pmm.free_pages < fuel
    → size + 8 ≤ 2 ^ 64
    → ((p : ℕ) × (h' : KernelHeap) × (kmalloc fuel h root size ≡ some (p, h'))
        × Answered root size h (p, h'))
      ⊎ ((kmalloc fuel h root size ≡ none) × Starved root h)
kmalloc-Answered fuel root size h v enough le = elim (kmalloc_aligned fuel root size h v enough) [
  | inl (p, h', e, a) ↦ inl (p, h', e, for_size root size h (p, h') le a)
  | inr f ↦ inr f
]
