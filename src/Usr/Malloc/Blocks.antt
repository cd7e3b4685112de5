-- ===== src/Usr/Malloc/Blocks.antt =====
-- The layout of the blocks of usr/lib/stdlib.c, and what `malloc` and `free` do to those in use.
use sudo_os.Prelude.{
  ℕ, ◌+◌, ◌-◌, ◌^◌, ◌≤◌, ◌<◌, ◌≡◌, ◌≢◌, ◌⊎◌, inl, inr, Bool, true, false, ◌%◌, sym, subst, ◌∙◌,
  arith, Option, none, some, List, [], ◌∷◌, ◌++◌, ◌==◌,
}
use mathlib.Core.Bool.{false≢true}
use native.Mathlib.Decide.{ℕ_discrete}
use sudo_os.Prelude.Words.{sub64, page_size}
use sudo_os.Usr.Malloc.{Block, Heap, header_in_page, mark, free}

-- From `lo` on the blocks follow one another, header and data, without overlap, and end at `hi` or below.
abbrev pub Laid : ℕ → List Block → ℕ → Type 0
Laid lo [] hi = lo ≤ hi
Laid lo (b ∷ bs) hi = (lo ≤ b.address) × Laid (b.address + 24 + b.size) bs hi

pub record IsValid (h : Heap) : Type 0 where
  pub laid : Laid 1 h.blocks h.heap
  pub small : h.heap < 2 ^ 63

-- `ptr` is the data of a block in use.
abbrev pub InUse : ℕ → List Block → Type 0
InUse ptr [] = ⊥
InUse ptr (b ∷ bs) = ((ptr ≡ b.address + 24) × (b.is_free ≡ false)) ⊎ InUse ptr bs

-- `ptr` is the data of a block in use that has at least `size` bytes.
abbrev pub Serves : ℕ → ℕ → List Block → Type 0
Serves ptr size [] = ⊥
Serves ptr size (b ∷ bs) =
    ((ptr ≡ b.address + 24) × (b.is_free ≡ false) × (size ≤ b.size)) ⊎ Serves ptr size bs

Laid-le : (lo hi : ℕ) (bs : List Block) → Laid lo bs hi → lo ≤ hi
Laid-le lo hi [] l = l
Laid-le lo hi (b ∷ bs) l =
    let rest = Laid-le (b.address + 24 + b.size) hi bs l.1 in let above = l.0 in omega arith

-- Blocks that lie from `lo` on are in use only behind it.
InUse-above : (lo hi ptr : ℕ) (bs : List Block) → Laid lo bs hi → InUse ptr bs → lo + 24 ≤ ptr
InUse-above lo hi ptr [] l u = absurd u
InUse-above lo hi ptr (b ∷ bs) l (inl e) = let at = e.0 in let above = l.0 in omega arith
InUse-above lo hi ptr (b ∷ bs) l (inr u) =
    let rest = InUse-above (b.address + 24 + b.size) hi ptr bs l.1 u in
    let above = l.0 in omega arith

InUse-below : (lo hi ptr : ℕ) (bs : List Block) → Laid lo bs hi → InUse ptr bs → ptr ≤ hi
InUse-below lo hi ptr [] l u = absurd u
InUse-below lo hi ptr (b ∷ bs) l (inl e) =
    let at = e.0 in let end = Laid-le (b.address + 24 + b.size) hi bs l.1 in omega arith
InUse-below lo hi ptr (b ∷ bs) l (inr u) = InUse-below (b.address + 24 + b.size) hi ptr bs l.1 u

-- What a request does to the blocks: the result was not in use, it serves the request, and everything
-- that was in use still is.
pub record Granted (old : List Block) (size ptr : ℕ) (new : List Block) : Type 0 where
  pub unused : ¬ InUse ptr old
  pub serves : Serves ptr size new
  pub kept : (q : ℕ) → InUse q old → InUse q new

abbrev from_some : Option (ℕ × List Block) → ℕ × List Block
from_some none = (0, [])
from_some (some r) = r

abbrev Reused : ℕ → ℕ → ℕ → List Block → ℕ × List Block → Type 0
Reused lo hi size bs r = Granted bs size r.0 r.1 × Laid lo r.1 hi

-- A new block behind the others.
abbrev fresh_block : ℕ → ℕ → List Block
fresh_block a size = record { address = a; size = size; is_free = false } ∷ []

-- What `malloc` leaves where it returns `ptr`.
pub record Served (h : Heap) (size ptr : ℕ) (h' : Heap) : Type 0 where
  pub granted : Granted h.blocks size ptr h'.blocks
  pub valid : IsValid h'

module _ (maps : ℕ → ℕ → Bool × Bool) {h : Heap} (v : IsValid h) (size : ℕ) (some_bytes : 0 < size)
    (small : h.heap + 24 + size < 2 ^ 63) where
  -- A header was in the page that is lost; or NULL; or a block.
  abbrev Outcomes : Option (Option ℕ × Heap) → Type 0
  Outcomes o =
      ((o ≡ none) × (h.heap % page_size ≢ 0) × (header_in_page h.blocks h.heap ≡ true))
      ⊎ ((o ≡ some (none, h))
          ⊎ ((ptr : ℕ) × (h' : Heap) × (o ≡ some (some ptr, h')) × Served h size ptr h'))

  abbrev with_block : Heap
  with_block = record { blocks = h.blocks ++ fresh_block h.heap size; heap = h.heap + (24 + size) }

-- What the release of the block at `a` leaves.
record Marked (lo hi a : ℕ) (old new : List Block) : Type 0 where
  gone : ¬ InUse (a + 24) new
  kept : (q : ℕ) → q ≢ a + 24 → InUse q old → InUse q new
  laid : Laid lo new hi

mark-Marked : (lo hi a : ℕ) (bs : List Block) → Laid lo bs hi → Marked lo hi a bs (mark bs a)
unfolding mark
mark-Marked lo hi a [] l = record { gone = λ u. u; kept = λ q ne u. u; laid = l }
mark-Marked lo hi a (b ∷ bs) l = elim (ℕ_discrete b.address a) [
  | yes e ↦
      let hit : (b.address == a) ≡ true = ground arith in
      rw hit (record {
        gone = λ u. elim u [
          | inl x ↦ absurd (false≢true (sym x.1))
          | inr u' ↦
              let far = InUse-above (b.address + 24 + b.size) hi (a + 24) bs l.1 u' in
              absurd (omega arith)
        ];
        kept = λ q ne u. elim u [
          | inl x ↦ let at = x.0 in absurd (ne (omega arith))
          | inr u' ↦ inr u'
        ];
        laid = l;
      })
  | no ne ↦
      let miss : (b.address == a) ≡ false = ground arith in
      let r = mark-Marked (b.address + 24 + b.size) hi a bs l.1 in
      rw miss (record {
        gone =
            λ u. elim u [ inl x ↦ let at = x.0 in absurd (ne (omega arith)) | inr u' ↦ r.gone u' ];
        kept = λ q other u. elim u [ inl x ↦ inl x | inr u' ↦ inr (r.kept q other u') ];
        laid = (l.0, r.laid);
      })
]

-- What `free` leaves.
pub record Freed (h : Heap) (ptr : ℕ) (h' : Heap) : Type 0 where
  pub gone : ¬ InUse ptr h'.blocks
  pub kept : (q : ℕ) → q ≢ ptr → InUse q h.blocks → InUse q h'.blocks
  pub valid : IsValid h'

-- `free` of a pointer in use makes exactly that pointer unused, and the blocks still do not overlap.
free-Freed : {h : Heap} (ptr : ℕ) → IsValid h → InUse ptr h.blocks → Freed h ptr (free h ptr)
unfolding free
free-Freed {h} ptr v u =
    let above = InUse-above 1 h.heap ptr h.blocks v.laid u in
    let below = InUse-below 1 h.heap ptr h.blocks v.laid u in
    let small = v.small in
    let nonzero : (ptr == 0) ≡ false = ground arith in
    let at : sub64 ptr 24 ≡ ptr - 24 = omega arith in
    let back : ptr - 24 + 24 ≡ ptr = omega arith in
    let m = mark-Marked 1 h.heap (ptr - 24) h.blocks v.laid in
    rw (nonzero, at)
      (record {
        gone = subst (λ p. ¬ InUse p (mark h.blocks (ptr - 24))) back m.gone;
        kept = λ q ne w. m.kept q (λ e. ne (e ∙ back)) w;
        valid = record { laid = m.laid; small = small };
      })
