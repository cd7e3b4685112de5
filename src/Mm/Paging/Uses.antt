-- ===== src/Mm/Paging/Uses.antt =====
-- No function of kernel/src/mm/paging.c that makes tables gives a page back.
use sudo_os.Prelude.{ℕ, ◌≡◌, ◌==◌, true, none, some, Option, Bool-cases, inl, inr, arith}
use sudo_os.Mm.Pmm.{Pmm, pmm_alloc_page, bit_test}
use sudo_os.Mm.Pmm.Alloc.{pmm_alloc_page_cases}
use sudo_os.Mm.Paging.{
  Machine, is_present, new_table, get_next_table, vmm_map_page, or_return, pml4_idx, pdpt_idx,
  pd_idx, set_page,
}
use sudo_os.Mm.Paging.Step.{IsReady}

-- A ready allocator that has taken pages and given none back.
pub record Uses (p p' : Pmm) : Type 0 where
  pub ready : IsReady p'
  pub still : (k : ℕ) → bit_test p k ≡ true → bit_test p' k ≡ true

pub Uses-refl : {p : Pmm} → IsReady p → Uses p p
Uses-refl r = record { ready = r; still = λ k h. h }

pub Uses-trans : {p q r : Pmm} → Uses p q → Uses q r → Uses p r
Uses-trans u v = record { ready = v.ready; still = λ k h. v.still k (u.still k h) }

pub pmm_alloc_page-Uses : (p : Pmm) → IsReady p → Uses p (pmm_alloc_page p).1
pmm_alloc_page-Uses p r = elim (pmm_alloc_page_cases r.valid r.reserved) [
  | inr (e, busy) ↦ rw e (Uses-refl r)
  | inl (ne, (k, a)) ↦ record {
    ready = record {
      valid = a.valid;
      reserved = ground (arith, a.bits 0, r.reserved);
      small = omega (arith, a.total, r.small);
    };
    still = λ j h. ground (arith, a.bits j);
  }
]

new_table-Uses :
    (m : Machine) (t i flags : ℕ) → IsReady m.pmm → Uses m.pmm (new_table m t i flags).1.pmm
unfolding new_table
new_table-Uses m t i flags r = elim (Bool-cases ((pmm_alloc_page m.pmm).0 == 0)) [
  | inl e ↦ rw e (pmm_alloc_page-Uses m.pmm r)
  | inr e ↦ rw e (pmm_alloc_page-Uses m.pmm r)
]

get_next_table-Uses :
    (m : Machine) (t i flags : ℕ)
    → IsReady m.pmm
    → Uses m.pmm (get_next_table m t i true flags).1.pmm
unfolding get_next_table
get_next_table-Uses m t i flags r = elim (Bool-cases (is_present (m.tables t i))) [
  | inl e ↦ rw e (Uses-refl r)
  | inr e ↦ rw e (new_table-Uses m t i flags r)
]

or_return-Uses :
    (p : Pmm) (r : Option ℕ × Machine) (go : ℕ → Machine → Machine)
    → Uses p r.1.pmm
    → ((t : ℕ) (m : Machine) → IsReady m.pmm → Uses m.pmm (go t m).pmm)
    → Uses p (or_return r go).pmm
or_return-Uses p (none, m) go u h = u
or_return-Uses p (some t, m) go u h = Uses-trans u (h t m u.ready)

pub vmm_map_page-Uses :
    (m : Machine) (pml4 va pa flags : ℕ)
    → IsReady m.pmm
    → Uses m.pmm (vmm_map_page m pml4 va pa flags).pmm
unfolding vmm_map_page
vmm_map_page-Uses m pml4 va pa flags r =
    let at_pd = λ (pd : ℕ) (m2 : Machine).
      or_return (get_next_table m2 pd (pd_idx va) true flags) (set_page va pa flags) in
    let at_pdpt = λ (pdpt : ℕ) (m1 : Machine).
      or_return (get_next_table m1 pdpt (pdpt_idx va) true flags) at_pd in
    or_return-Uses m.pmm (get_next_table m pml4 (pml4_idx va) true flags) at_pdpt
      (get_next_table-Uses m pml4 (pml4_idx va) flags r)
      λ pdpt m1 r1.
        or_return-Uses m1.pmm (get_next_table m1 pdpt (pdpt_idx va) true flags) at_pd
          (get_next_table-Uses m1 pdpt (pdpt_idx va) flags r1)
          λ pd m2 r2.
            or_return-Uses m2.pmm (get_next_table m2 pd (pd_idx va) true flags)
              (set_page va pa flags) (get_next_table-Uses m2 pd (pd_idx va) flags r2)
              λ pt m3 r3. Uses-refl r3
