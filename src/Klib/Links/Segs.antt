-- ===== src/Klib/Links/Segs.antt =====
-- Chains of linked nodes, and what the writes of kernel/src/lib/list.h do to one.
use sudo_os.Prelude.{ℕ, ◌≡◌, ◌≢◌, ◌∙◌, sym, arith, List, [], ◌∷◌, ◌++◌}
use sudo_os.Klib.Links.{Links, list_add}

-- From `a` the nodes `xs` follow, then `z`, linked in both directions.
abbrev pub Seg : Links → ℕ → List ℕ → ℕ → Type 0
Seg l a [] z = (l.next a ≡ z) × (l.prev z ≡ a)
Seg l a (x ∷ xs) z = (l.next a ≡ x) × (l.prev x ≡ a) × Seg l x xs z

abbrev pub NotIn : ℕ → List ℕ → Type 0
NotIn a [] = Unit {0}
NotIn a (x ∷ xs) = (a ≢ x) × NotIn a xs

abbrev pub Distinct : List ℕ → Type 0
Distinct [] = Unit {0}
Distinct (x ∷ xs) = NotIn x xs × Distinct xs

-- The node before the end, and the one behind the start.
abbrev pub last : ℕ → List ℕ → ℕ
last a [] = a
last a (x ∷ xs) = last x xs

abbrev pub first : List ℕ → ℕ → ℕ
first [] z = z
first (x ∷ xs) z = x

pub NotIn-append : (a : ℕ) (xs ys : List ℕ) → NotIn a xs → NotIn a ys → NotIn a (xs ++ ys)
NotIn-append a [] ys h g = g
NotIn-append a (x ∷ xs) ys h g = (h.0, NotIn-append a xs ys h.1 g)

pub NotIn-left : (a : ℕ) (xs ys : List ℕ) → NotIn a (xs ++ ys) → NotIn a xs
NotIn-left a [] ys h = tt
NotIn-left a (x ∷ xs) ys h = (h.0, NotIn-left a xs ys h.1)

pub NotIn-right : (a : ℕ) (xs ys : List ℕ) → NotIn a (xs ++ ys) → NotIn a ys
NotIn-right a [] ys h = h
NotIn-right a (x ∷ xs) ys h = NotIn-right a xs ys h.1

pub ne-last : (n a : ℕ) (xs : List ℕ) → NotIn n (a ∷ xs) → n ≢ last a xs
ne-last n a [] h = h.0
ne-last n a (x ∷ xs) h = ne-last n x xs h.1

pub ne-first : (n : ℕ) (xs : List ℕ) (z : ℕ) → NotIn n (xs ++ z ∷ []) → n ≢ first xs z
ne-first n [] z h = h.0
ne-first n (x ∷ xs) z h = h.0

-- Links that agree on the nodes of a chain, but for `p` and `n` as sources and `q` and `n` as targets.
pub record Agree (l l' : Links) (n p q : ℕ) : Type 0 where
  pub next : (a : ℕ) → a ≢ n → a ≢ p → l'.next a ≡ l.next a
  pub prev : (a : ℕ) → a ≢ n → a ≢ q → l'.prev a ≡ l.prev a

NotIn-flip : (n a : ℕ) → n ≢ a → a ≢ n
NotIn-flip n a h e = h (sym e)

pub Seg-Agree :
    (l l' : Links) (n p q a : ℕ) (xs : List ℕ) (z : ℕ)
    → Agree l l' n p q
    → NotIn n (a ∷ xs)
    → NotIn p (a ∷ xs)
    → NotIn n (xs ++ z ∷ [])
    → NotIn q (xs ++ z ∷ [])
    → Seg l a xs z
    → Seg l' a xs z
Seg-Agree l l' n p q a [] z g ns ps nt qt s = (
  g.next a (NotIn-flip n a ns.0) (NotIn-flip p a ps.0) ∙ s.0,
  g.prev z (NotIn-flip n z nt.0) (NotIn-flip q z qt.0) ∙ s.1,
)
Seg-Agree l l' n p q a (x ∷ xs) z g ns ps nt qt s = (
  g.next a (NotIn-flip n a ns.0) (NotIn-flip p a ps.0) ∙ s.0,
  g.prev x (NotIn-flip n x nt.0) (NotIn-flip q x qt.0) ∙ s.1,
  Seg-Agree l l' n p q x xs z g ns.1 ps.1 nt.1 qt.1 s.2,
)

pub list_add-Agree : (l : Links) (n p q : ℕ) → Agree l (list_add l n p q) n p q
unfolding list_add
list_add-Agree l n p q = record { next = λ a an ap. ground arith; prev = λ a an aq. ground arith }

pub list_add-new : (l : Links) (n p q : ℕ) → n ≢ p → n ≢ q → Seg (list_add l n p q) p (n ∷ []) q
unfolding list_add
list_add-new l n p q np nq = (ground arith, ground arith, (ground arith, ground arith))
