-- ===== src/Mm/Heap/Tiles.antt =====
-- The blocks of the kernel heap of kernel/src/mm/pmm.c as they lie in memory, and what `kfree` does to
-- them.
use sudo_os.Prelude.{
  ℕ, ◌+◌, ◌^◌, ◌≤◌, ◌<◌, ◌≡◌, ◌∙◌, true, false, arith, List, [], ◌∷◌, ◌++◌, ◌==◌, Bool-cases, inl,
  inr, ap,
}
use sudo_os.Prelude.Words.{add64}
use sudo_os.Mm.Heap.{Header, header_size, merge_next, release}

-- From the address `from` up to `top` there is nothing but the blocks of the list, in its order, each a
-- header with its payload.
abbrev pub Tiles : ℕ → List Header → ℕ → Type 0
Tiles from [] top = from ≡ top
Tiles from (hdr ∷ rest) top = (hdr.address ≡ from) × Tiles (from + header_size + hdr.size) rest top

pub Tiles-le : (from : ℕ) (bs : List Header) (top : ℕ) → Tiles from bs top → from ≤ top
Tiles-le from [] top t = omega arith
Tiles-le from (hdr ∷ rest) top (e, t) =
    omega (arith, Tiles-le (from + header_size + hdr.size) rest top t)

pub Tiles-append :
    (from mid top : ℕ) (front bs : List Header)
    → Tiles from front mid
    → Tiles mid bs top
    → Tiles from (front ++ bs) top
Tiles-append from mid top [] bs s t = rw s t
Tiles-append from mid top (hdr ∷ rest) bs (e, s) t =
    (e, Tiles-append (from + header_size + hdr.size) mid top rest bs s t)

-- Two neighbours become one block, whatever the state of the second.
abbrev pub joined : Header → Header → Header
joined hdr next = record hdr { size = hdr.size + next.size + header_size }

release-skip :
    (b c : Header) (rest : List Header) (at : ℕ)
    → (b.address == at) ≡ false
    → (c.address == at) ≡ false
    → release at (b ∷ c ∷ rest) ≡ b ∷ release at (c ∷ rest)
unfolding release
release-skip b c rest at not_b not_c = rw (not_b, not_c)

module _ {top : ℕ} (fits : top < 2 ^ 64) where
  pub merge_next-joined :
      (from : ℕ) (hdr next : Header) (rest : List Header)
      → Tiles from (hdr ∷ next ∷ rest) top
      → merge_next hdr (next ∷ rest) ≡ joined hdr next ∷ rest
  unfolding merge_next
  merge_next-joined from hdr next rest (e, (f, t)) =
      let le = Tiles-le (from + header_size + hdr.size + header_size + next.size) rest top t in
      let touch : (add64 (add64 hdr.address hdr.size) header_size == next.address) ≡ true =
        ground arith in
      let size : add64 hdr.size (add64 next.size header_size) ≡ hdr.size + next.size + header_size =
        omega arith in
      rw (touch, size)

  merge_next-Tiles :
      (from : ℕ) (hdr : Header) (rest : List Header)
      → Tiles from (hdr ∷ rest) top
      → Tiles from (merge_next hdr rest) top
  unfolding merge_next
  merge_next-Tiles from hdr [] t = t
  merge_next-Tiles from hdr (next ∷ rest) (e, (f, t)) =
      let sum : from + header_size + (hdr.size + next.size + header_size)
          ≡ from + header_size + hdr.size + header_size + next.size =
        omega arith in
      rw (merge_next-joined from hdr next rest (e, (f, t))) (e, rw sum t)

  -- Whatever it is given, `kfree` leaves blocks that fill the same range.
  pub release-Tiles :
      (from at : ℕ) (bs : List Header) → Tiles from bs top → Tiles from (release at bs) top
  unfolding release
  release-Tiles from at [] t = t
  release-Tiles from at (hdr ∷ []) (e, t) = elim (Bool-cases (hdr.address == at)) [
    | inl h ↦ rw h (e, t)
    | inr h ↦ rw h (e, t)
  ]
  release-Tiles from at (prev ∷ hdr ∷ rest) (e, t) = elim (Bool-cases (prev.address == at)) [
    | inl h ↦ rw h (merge_next-Tiles from (record prev { is_free = true }) (hdr ∷ rest) (e, t))
    | inr h ↦ elim (Bool-cases (hdr.address == at)) [
      | inl g ↦
          rw (h, g)
            (merge_next-Tiles from prev (merge_next (record hdr { is_free = true }) rest) (
              e,
              merge_next-Tiles (from + header_size + prev.size) (record hdr { is_free = true }) rest
                  t,
            ))
      | inr g ↦ rw (h, g) (e, release-Tiles (from + header_size + prev.size) at (hdr ∷ rest) t)
    ]
  ]

  -- The block between two others, whatever stands before and behind them.
  pub release-between :
      (from : ℕ) (before : List Header) (prev hdr next : Header) (after : List Header)
      → Tiles from (before ++ prev ∷ hdr ∷ next ∷ after) top
      → ((from < hdr.address) × (hdr.address < top))
        × (release hdr.address (before ++ prev ∷ hdr ∷ next ∷ after)
            ≡ before ++ joined prev (joined (record hdr { is_free = true }) next) ∷ after)
  unfolding release
  release-between from [] prev hdr next after (e, (f, t)) =
      let not_prev : (prev.address == hdr.address) ≡ false = ground arith in
      let it : (hdr.address == hdr.address) ≡ true = ground arith in
      let free_hdr : Header = record hdr { is_free = true } in
      let one = merge_next-joined (from + header_size + prev.size) free_hdr next after (f, t) in
      let sum : from + header_size + prev.size + header_size + (hdr.size + next.size + header_size)
          ≡ from + header_size + prev.size + header_size + hdr.size + header_size + next.size =
        omega arith in
      let two = merge_next-joined from prev (joined free_hdr next) after (e, (f, rw sum t.1)) in
      let le =
        Tiles-le (from + header_size + prev.size + header_size + hdr.size + header_size + next.size)
          after top t.1 in
      ((omega arith, omega arith), rw (not_prev, it, one) two)
  release-between from (b ∷ []) prev hdr next after (e, t) =
      let r = release-between (from + header_size + b.size) [] prev hdr next after t in
      let not_b : (b.address == hdr.address) ≡ false = ground (arith, r.0.0) in
      let not_prev : (prev.address == hdr.address) ≡ false = ground arith in
      (
        (omega (arith, r.0.0), r.0.1),
        release-skip b prev (hdr ∷ next ∷ after) hdr.address not_b not_prev ∙ ap (λ l. b ∷ l) r.1,
      )
  release-between from (b ∷ c ∷ before) prev hdr next after (e, t) =
      let r = release-between (from + header_size + b.size) (c ∷ before) prev hdr next after t in
      let not_b : (b.address == hdr.address) ≡ false = ground (arith, r.0.0) in
      let not_c : (c.address == hdr.address) ≡ false = ground (arith, r.0.0) in
      (
        (omega (arith, r.0.0), r.0.1),
        release-skip b c (before ++ prev ∷ hdr ∷ next ∷ after) hdr.address not_b not_c
            ∙ ap (λ l. b ∷ l) r.1,
      )
