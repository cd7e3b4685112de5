-- ===== src/Klib/Links/Splice.antt =====
-- A node put into a chain and taken out of one by kernel/src/lib/list.h.
use sudo_os.Prelude.{ℕ, ◌≡◌, ◌≢◌, ◌∙◌, sym, arith, List, [], ◌∷◌, ◌++◌}
use sudo_os.Klib.Links.{Links, list_init, list_add, list_del}
use sudo_os.Klib.Links.Segs.{
  Seg, NotIn, Distinct, last, first, NotIn-left, NotIn-right, ne-last, ne-first, Agree, Seg-Agree,
  list_add-Agree, list_add-new,
}

ne_sym : {a b : ℕ} → a ≢ b → b ≢ a
ne_sym h e = h (sym e)

pub Seg-insert :
    (l : Links) (n a : ℕ) (xs ys : List ℕ) (z : ℕ)
    → Distinct (a ∷ xs ++ ys)
    → Distinct (xs ++ (ys ++ z ∷ []))
    → NotIn n (a ∷ xs ++ ys)
    → NotIn n (xs ++ (ys ++ z ∷ []))
    → Seg l a (xs ++ ys) z
    → Seg (list_add l n (last a xs) (first ys z)) a (xs ++ n ∷ ys) z
Seg-insert l n a [] [] z ds dt ns nt s = list_add-new l n a z ns.0 nt.0
Seg-insert l n a [] (y ∷ r) z ds dt ns nt s =
    let new = list_add-new l n a y ns.0 nt.0 in
    (
      new.0,
      new.1,
      (
        new.2.0,
        new.2.1,
        Seg-Agree l (list_add l n a y) n a y y r z (list_add-Agree l n a y) ns.1 ds.0 nt.1 dt.0 s.2,
      ),
    )
Seg-insert l n a (x ∷ r) ys z ds dt ns nt s =
    let p = last x r in
    let q = first ys z in
    let g = list_add-Agree l n p q in
    (
      g.next a (ne_sym ns.0) (ne-last a x r (NotIn-left a (x ∷ r) ys ds.0)) ∙ s.0,
      g.prev x (ne_sym nt.0) (ne-first x ys z (NotIn-right x r (ys ++ z ∷ []) dt.0)) ∙ s.1,
      Seg-insert l n x r ys z ds.1 dt.1 ns.1 nt.1 s.2,
    )

-- The neighbours of a node in a chain.
pub Seg-around :
    (l : Links) (n a : ℕ) (xs ys : List ℕ) (z : ℕ)
    → Seg l a (xs ++ n ∷ ys) z
    → (l.prev n ≡ last a xs) × (l.next n ≡ first ys z)
Seg-around l n a [] [] z s = (s.1, s.2.0)
Seg-around l n a [] (y ∷ r) z s = (s.1, s.2.0)
Seg-around l n a (x ∷ r) ys z s = Seg-around l n x r ys z s.2

-- Links in which the neighbours `p` and `q` of `n` are linked, and `n` with itself.
pub record Unlinked (l l' : Links) (n p q : ℕ) : Type 0 where
  pub agree : Agree l l' n p q
  pub forth : l'.next p ≡ q
  pub back : l'.prev q ≡ p
  pub alone : (l'.next n ≡ n) × (l'.prev n ≡ n)

pub list_del-Unlinked :
    (l : Links) (n p q : ℕ)
    → l.prev n ≡ p
    → l.next n ≡ q
    → n ≢ p
    → n ≢ q
    → Unlinked l (list_del l n) n p q
unfolding list_del list_init
list_del-Unlinked l n p q e f np nq = record {
  agree = record { next = λ a an ap. ground arith; prev = λ a an aq. ground arith };
  forth = ground arith;
  back = ground arith;
  alone = (ground arith, ground arith);
}

pub Seg-delete :
    (l l' : Links) (n a : ℕ) (xs ys : List ℕ) (z : ℕ)
    → Distinct (a ∷ xs ++ n ∷ ys)
    → Distinct (xs ++ n ∷ (ys ++ z ∷ []))
    → Unlinked l l' n (last a xs) (first ys z)
    → Seg l a (xs ++ n ∷ ys) z
    → Seg l' a (xs ++ ys) z
Seg-delete l l' n a [] [] z ds dt u s = (u.forth, u.back)
Seg-delete l l' n a [] (y ∷ r) z ds dt u s =
    (u.forth, u.back, Seg-Agree l l' n a y y r z u.agree ds.1.0 ds.0.1 dt.0.1 dt.1.0 s.2.2)
Seg-delete l l' n a (x ∷ r) ys z ds dt u s =
    let g = u.agree in
    let behind = NotIn-right a (x ∷ r) (n ∷ ys) ds.0 in
    let ahead = NotIn-right x r (n ∷ (ys ++ z ∷ [])) dt.0 in
    (
      g.next a behind.0 (ne-last a x r (NotIn-left a (x ∷ r) (n ∷ ys) ds.0)) ∙ s.0,
      g.prev x ahead.0 (ne-first x ys z ahead.1) ∙ s.1,
      Seg-delete l l' n x r ys z ds.1 dt.1 u s.2,
    )
