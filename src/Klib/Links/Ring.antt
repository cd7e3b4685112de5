-- ===== src/Klib/Links/Ring.antt =====
-- The rings of kernel/src/lib/list.h as lists of nodes behind a head.
use mathlib.Core.List.{append-nil}
use sudo_os.Prelude.{ℕ, ◌≡◌, ◌⊎◌, sym, subst, List, [], ◌∷◌, ◌++◌, ◌==◌, if◌then◌else◌}
use sudo_os.Klib.Links.{Links, list_add, list_add_after, list_add_before, list_del}
use sudo_os.Klib.Links.Segs.{Seg, NotIn, Distinct, last, first, NotIn-append}
use sudo_os.Klib.Links.Splice.{Seg-insert}

-- From `head` the nodes `xs` follow and then `head` again, linked in both directions, and no node is there twice.
pub record Ring (l : Links) (head : ℕ) (xs : List ℕ) : Type 0 where
  pub seg : Seg l head xs head
  pub apart : Distinct (head ∷ xs)

-- A call of one of the functions with the ring's head.
pub data Op : Type 0 where
  add_after add_before del : ℕ → Op

unfoldable pub apply : Links → ℕ → Op → Links
apply l head (add_after n) = list_add_after l n head
apply l head (add_before n) = list_add_before l n head
apply l head (del n) = list_del l n

unfoldable pub run : Links → ℕ → List Op → Links
run l head [] = l
run l head (op ∷ ops) = run (apply l head op) head ops

-- The calls on the list of nodes.
unfoldable pub erase : ℕ → List ℕ → List ℕ
erase n [] = []
erase n (x ∷ xs) = if x == n then xs else x ∷ erase n xs

abbrev pub view : List ℕ → Op → List ℕ
view xs (add_after n) = n ∷ xs
view xs (add_before n) = xs ++ n ∷ []
view xs (del n) = erase n xs

unfoldable pub run_view : List ℕ → List Op → List ℕ
run_view xs [] = xs
run_view xs (op ∷ ops) = run_view (view xs op) ops

abbrev pub In : ℕ → List ℕ → Type 0
In n [] = ⊥
In n (x ∷ xs) = (x ≡ n) ⊎ In n xs

-- Only a node that is in no place of the ring is added, and only one of its nodes is taken out.
abbrev pub Allowed : ℕ → List ℕ → Op → Type 0
Allowed head xs (add_after n) = NotIn n (head ∷ xs)
Allowed head xs (add_before n) = NotIn n (head ∷ xs)
Allowed head xs (del n) = In n xs

abbrev pub AllAllowed : ℕ → List ℕ → List Op → Type 0
AllAllowed head xs [] = Unit {0}
AllAllowed head xs (op ∷ ops) = Allowed head xs op × AllAllowed head (view xs op) ops

Distinct-snoc : (xs : List ℕ) (a : ℕ) → Distinct xs → NotIn a xs → Distinct (xs ++ a ∷ [])
Distinct-snoc [] a d h = (tt, tt)
Distinct-snoc (x ∷ xs) a d h =
    (NotIn-append x xs (a ∷ []) d.0 ((λ e. h.0 (sym e)), tt), Distinct-snoc xs a d.1 h.1)

pub Distinct-rotate : (xs : List ℕ) (a : ℕ) → Distinct (a ∷ xs) → Distinct (xs ++ a ∷ [])
Distinct-rotate xs a d = Distinct-snoc xs a d.1 d.0

NotIn-rotate : (n a : ℕ) (xs : List ℕ) → NotIn n (a ∷ xs) → NotIn n (xs ++ a ∷ [])
NotIn-rotate n a xs h = NotIn-append n xs (a ∷ []) h.1 (h.0, tt)

-- The node in front of the head is the last one, and the one behind it the first.
Seg-ends :
    (l : Links) (a : ℕ) (xs : List ℕ) (z : ℕ)
    → Seg l a xs z
    → (l.next a ≡ first xs z) × (l.prev z ≡ last a xs)
Seg-ends l a [] z s = (s.0, s.1)
Seg-ends l a (x ∷ xs) z s = (s.0, (Seg-ends l x xs z s.2).1)

pub list_add_after-Ring :
    (l : Links) (head n : ℕ) (xs : List ℕ)
    → Ring l head xs
    → NotIn n (head ∷ xs)
    → Ring (list_add_after l n head) head (n ∷ xs)
unfolding list_add_after
list_add_after-Ring l head n xs r new =
    let e = (Seg-ends l head xs head r.seg).0 in
    record {
      seg =
          subst (λ q. Seg (list_add l n head q) head (n ∷ xs) head) (sym e)
            (Seg-insert l n head [] xs head r.apart (Distinct-rotate xs head r.apart) new
              (NotIn-rotate n head xs new) r.seg);
      apart = (((λ h. new.0 (sym h)), r.apart.0), (new.1, r.apart.1));
    }

pub list_add_before-Ring :
    (l : Links) (head n : ℕ) (xs : List ℕ)
    → Ring l head xs
    → NotIn n (head ∷ xs)
    → Ring (list_add_before l n head) head (xs ++ n ∷ [])
unfolding list_add_before
list_add_before-Ring l head n xs r new =
    let e = (Seg-ends l head xs head r.seg).1 in
    let whole : xs ++ [] ≡ xs = append-nil xs in
    record {
      seg =
          subst (λ p. Seg (list_add l n p head) head (xs ++ n ∷ []) head) (sym e)
            (Seg-insert l n head xs [] head (rw whole r.apart) (Distinct-rotate xs head r.apart)
              (rw whole new) (NotIn-rotate n head xs new) (rw whole r.seg));
      apart = (
        NotIn-append head xs (n ∷ []) r.apart.0 ((λ h. new.0 (sym h)), tt),
        Distinct-snoc xs n r.apart.1 new.1,
      );
    }
