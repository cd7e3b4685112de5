-- ===== src/Klib/Links/Runs.antt =====
-- Sequences of calls of kernel/src/lib/list.h against lists of nodes.
use mathlib.Core.List.{append_assoc}
use sudo_os.Prelude.{ℕ, ◌≡◌, sym, ap, subst, arith, List, [], ◌∷◌, ◌++◌, ◌==◌, Bool-cases, inl, inr}
use sudo_os.Klib.Links.{Links, list_init, list_del}
use sudo_os.Klib.Links.Segs.{
  NotIn, Distinct, last, first, NotIn-append, NotIn-left, NotIn-right, ne-last, ne-first,
}
use sudo_os.Klib.Links.Splice.{Seg-around, list_del-Unlinked, Seg-delete}
use sudo_os.Klib.Links.Ring.{
  Ring, Op, add_after, add_before, del, apply, run, erase, view, run_view, In, Allowed, AllAllowed,
  Distinct-rotate, list_add_after-Ring, list_add_before-Ring,
}

-- Where `n` stands in `xs`, and what is left without it.
record Erased (n : ℕ) (xs : List ℕ) : Type 0 where
  front : List ℕ
  back : List ℕ
  whole : xs ≡ front ++ n ∷ back
  rest : erase n xs ≡ front ++ back

erase-Erased : (n : ℕ) (xs : List ℕ) → In n xs → Erased n xs
unfolding erase
erase-Erased n [] h = elim h [ ]
erase-Erased n (x ∷ xs) h = elim (Bool-cases (x == n)) [
  | inl e ↦
      let at : x ≡ n = ground arith in record { front = []; back = xs; whole = rw at; rest = rw e }
  | inr e ↦
      let r =
        erase-Erased n xs
          (elim h [ inl at ↦ absurd (ground (arith, at, e)) | inr later ↦ later ]) in
      record {
        front = x ∷ r.front;
        back = r.back;
        whole = ap (λ l. x ∷ l) r.whole;
        rest = rw e (ap (λ l. x ∷ l) r.rest);
      }
]

Distinct-middle :
    (xs : List ℕ) (n : ℕ) (ys : List ℕ) → Distinct (xs ++ n ∷ ys) → NotIn n xs × NotIn n ys
Distinct-middle [] n ys d = (tt, d.0)
Distinct-middle (x ∷ xs) n ys d =
    let r = Distinct-middle xs n ys d.1 in
    let other = NotIn-right x xs (n ∷ ys) d.0 in (((λ e. other.0 (sym e)), r.0), r.1)

NotIn-without : (a n : ℕ) (xs ys : List ℕ) → NotIn a (xs ++ n ∷ ys) → NotIn a (xs ++ ys)
NotIn-without a n xs ys h =
    NotIn-append a xs ys (NotIn-left a xs (n ∷ ys) h) (NotIn-right a xs (n ∷ ys) h).1

Distinct-without :
    (xs : List ℕ) (n : ℕ) (ys : List ℕ) → Distinct (xs ++ n ∷ ys) → Distinct (xs ++ ys)
Distinct-without [] n ys d = d.1
Distinct-without (x ∷ xs) n ys d = (NotIn-without x n xs ys d.0, Distinct-without xs n ys d.1)

list_del-between :
    (l : Links) (head n : ℕ) (xs ys : List ℕ)
    → Ring l head (xs ++ n ∷ ys)
    → Ring (list_del l n) head (xs ++ ys)
list_del-between l head n xs ys r =
    let around = Seg-around l n head xs ys head r.seg in
    let m = Distinct-middle (head ∷ xs) n ys r.apart in
    let targets : Distinct (xs ++ n ∷ (ys ++ head ∷ [])) =
      subst Distinct (append_assoc xs (n ∷ ys) (head ∷ []))
        (Distinct-rotate (xs ++ n ∷ ys) head r.apart) in
    let ahead = NotIn-append n ys (head ∷ []) m.1 (m.0.0, tt) in
    let u =
      list_del-Unlinked l n (last head xs) (first ys head) around.0 around.1 (ne-last n head xs m.0)
        (ne-first n ys head ahead) in
    record {
      seg = Seg-delete l (list_del l n) n head xs ys head r.apart targets u r.seg;
      apart = Distinct-without (head ∷ xs) n ys r.apart;
    }

list_del-Ring :
    (l : Links) (head n : ℕ) (xs : List ℕ)
    → Ring l head xs
    → In n xs
    → Ring (list_del l n) head (erase n xs)
list_del-Ring l head n xs r here =
    let e = erase-Erased n xs here in
    subst (Ring (list_del l n) head) (sym e.rest)
      (list_del-between l head n e.front e.back (subst (Ring l head) e.whole r))

apply-Ring :
    (l : Links) (head : ℕ) (xs : List ℕ) (op : Op)
    → Ring l head xs
    → Allowed head xs op
    → Ring (apply l head op) head (view xs op)
unfolding apply
apply-Ring l head xs (add_after n) r h = list_add_after-Ring l head n xs r h
apply-Ring l head xs (add_before n) r h = list_add_before-Ring l head n xs r h
apply-Ring l head xs (del n) r h = list_del-Ring l head n xs r h

-- Any sequence of calls on a ring, each of which adds a node that is in no place of it or takes one of its
-- nodes out, leaves the ring of the list that the same steps give: `list_add_after` with the head puts the
-- node first, `list_add_before` puts it last, and `list_del` takes it out. In a ring each node is linked to
-- the next one in both directions, the last one and the first one to the head, and no node is there twice.
pub run-Ring :
    (ops : List Op) (l : Links) (head : ℕ) (xs : List ℕ)
    → Ring l head xs
    → AllAllowed head xs ops
    → Ring (run l head ops) head (run_view xs ops)
unfolding run run_view
run-Ring [] l head xs r h = r
run-Ring (op ∷ ops) l head xs r h =
    run-Ring ops (apply l head op) head (view xs op) (apply-Ring l head xs op r h.0) h.1

-- A head that `list_init` sets up is the ring of no node.
pub list_init-Ring : (l : Links) (head : ℕ) → Ring (list_init l head) head []
unfolding list_init
list_init-Ring l head = record { seg = (ground arith, ground arith); apart = (tt, tt) }
