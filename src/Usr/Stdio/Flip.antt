-- ===== src/Usr/Stdio/Flip.antt =====
-- The loop of `itoa` of usr/lib/stdio.c that turns the digits round in place.
use mathlib.Core.List.{append_assoc, append-nil}
use sudo_os.Prelude.{
  ℕ, zero, suc, ◌+◌, ◌-◌, ◌≤◌, ◌≡◌, ◌∙◌, refl, sym, ap, subst, arith, true, false, List, [], ◌∷◌,
  ◌++◌, ltb, length, length-append, get_or, set,
}
use sudo_os.Klib.{copy_back}
use sudo_os.Klib.Digits.{copy_back-append}
use sudo_os.Usr.Stdio.{swap, flip, flipped}

set_at : (xs : List ℕ) (a b : ℕ) (ys : List ℕ) → set (xs ++ a ∷ ys) (length xs) b ≡ xs ++ b ∷ ys
set_at [] a b ys = refl
set_at (x ∷ xs) a b ys = ap (λ l. x ∷ l) (set_at xs a b ys)

get_at : (xs : List ℕ) (a : ℕ) (ys : List ℕ) → get_or (xs ++ a ∷ ys) (length xs) 0 ≡ a
get_at [] a ys = refl
get_at (x ∷ xs) a ys = get_at xs a ys

-- A list by its first and its last element.
data Ends : List ℕ → Type 0 where
  none_left : Ends []
  one_left : (a : ℕ) → Ends (a ∷ [])
  two_ends : (a b : ℕ) (xs : List ℕ) → Ends (a ∷ (xs ++ b ∷ []))

Ends-cons : (a : ℕ) {xs : List ℕ} → Ends xs → Ends (a ∷ xs)
Ends-cons a none_left = one_left a
Ends-cons a (one_left b) = two_ends a b []
Ends-cons a (two_ends x b xs) = two_ends a b (x ∷ xs)

ends : (xs : List ℕ) → Ends xs
ends [] = none_left
ends (a ∷ xs) = Ends-cons a (ends xs)

-- The two ends of what is left trade places.
swap-ends :
    (pre : List ℕ) (a b : ℕ) (mid post : List ℕ) (i j : ℕ)
    → i ≡ length pre
    → j ≡ length pre + length mid + 1
    → swap (pre ++ a ∷ (mid ++ b ∷ post)) i j ≡ pre ++ b ∷ (mid ++ a ∷ post)
swap-ends pre a b mid post i j ei ej =
    let regroup = λ (x y : ℕ). append_assoc pre (x ∷ mid) (y ∷ post) in
    let at_j : j ≡ length (pre ++ b ∷ mid) = omega (arith, length-append {0} pre (b ∷ mid)) in
    let at_j' : j ≡ length (pre ++ a ∷ mid) = omega (arith, length-append {0} pre (a ∷ mid)) in
    let old_j : get_or (pre ++ a ∷ (mid ++ b ∷ post)) j 0 ≡ b =
      rw (at_j', ← regroup a b) (get_at (pre ++ a ∷ mid) b post) in
    let old_i : get_or (pre ++ a ∷ (mid ++ b ∷ post)) i 0 ≡ a =
      rw ei (get_at pre a (mid ++ b ∷ post)) in
    let first : set (pre ++ a ∷ (mid ++ b ∷ post)) i b ≡ pre ++ b ∷ (mid ++ b ∷ post) =
      rw ei (set_at pre a b (mid ++ b ∷ post)) in
    let second : set (pre ++ b ∷ (mid ++ b ∷ post)) j a ≡ pre ++ b ∷ (mid ++ a ∷ post) =
      rw (at_j, ← regroup b b, ← regroup b a) (set_at (pre ++ b ∷ mid) b a post) in
    rw (old_j, old_i, first) second

flip-copy_back :
    (fuel : ℕ) (pre post mid : List ℕ) (i j : ℕ)
    → Ends mid
    → length mid ≤ fuel
    → i ≡ length pre
    → j ≡ length pre + length mid - 1
    → flip fuel (pre ++ (mid ++ post)) i j ≡ pre ++ copy_back mid post
unfolding flip copy_back
flip-copy_back zero pre post _ i j none_left le ei ej = refl
flip-copy_back zero pre post _ i j (one_left a) le ei ej = absurd (omega arith)
flip-copy_back zero pre post _ i j (two_ends a b xs) le ei ej = absurd (omega arith)
flip-copy_back (suc fuel) pre post _ i j none_left le ei ej =
    let stop : ltb i j ≡ false = ground arith in rw stop
flip-copy_back (suc fuel) pre post _ i j (one_left a) le ei ej =
    let stop : ltb i j ≡ false = ground arith in rw stop
flip-copy_back (suc fuel) pre post _ i j (two_ends a b xs) le ei ej =
    let long : length (xs ++ b ∷ []) ≡ length xs + 1 = length-append xs (b ∷ []) in
    let go : ltb i j ≡ true = ground arith in
    let whole : (xs ++ b ∷ []) ++ post ≡ xs ++ b ∷ post = append_assoc xs (b ∷ []) post in
    let here : swap (pre ++ a ∷ (xs ++ b ∷ post)) i j ≡ (pre ++ b ∷ []) ++ (xs ++ a ∷ post) =
      swap-ends pre a b xs post i j ei (omega arith)
      ∙ sym (append_assoc pre (b ∷ []) (xs ++ a ∷ post)) in
    let next : length (pre ++ b ∷ []) ≡ length pre + 1 = length-append pre (b ∷ []) in
    let rest =
      flip-copy_back fuel (pre ++ b ∷ []) (a ∷ post) xs (i + 1) (j - 1) (ends xs) (omega arith)
        (omega arith) (omega arith) in
    rw (go, whole, here)
      (rest
        ∙ (append_assoc pre (b ∷ []) (copy_back xs (a ∷ post))
            ∙ ap (λ l. pre ++ l) (sym (copy_back-append xs (a ∷ post) b))))

-- The loop of swaps is the backwards copy of the kernel.
pub flipped-copy_back : (buf : List ℕ) → flipped buf ≡ copy_back buf []
flipped-copy_back buf =
    subst (λ l. flip (length buf) l 0 (length buf - 1) ≡ copy_back buf []) (append-nil buf)
      (flip-copy_back (length buf) [] [] buf 0 (length buf - 1) (ends buf) (omega arith) refl
        (omega arith))
