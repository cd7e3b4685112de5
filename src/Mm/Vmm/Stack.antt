-- ===== src/Mm/Vmm/Stack.antt =====
-- `kstack_init` of kernel/src/mm/pmm.c where memory is left.
use sudo_os.Prelude.{
  ℕ, ◌+◌, ◌-◌, ◌*◌, ◌/◌, ◌%◌, ◌^◌, ◌≤◌, ◌<◌, ◌≡◌, ◌⊎◌, inl, inr, refl, arith, Option, none, some,
}
use sudo_os.Prelude.Words.{add64, page_size}
use sudo_os.Mm.Paging.{Machine, kernel_flags}
use sudo_os.Mm.Paging.Walk.{entry_at, page_of}
use sudo_os.Mm.Paging.Step.{IsTree}
use sudo_os.Mm.Paging.Range.{kernel_flags-AreFlags}
use sudo_os.Mm.Vmm.{map_fresh, map_stack, kstack_init}
use sudo_os.Mm.Vmm.Fresh.{Fresh, map_fresh-MapsFresh}

-- A stack from a page above `below` on: its bytes have entries for pages that were free, and the rest, the
-- guard page below it included, has the entries that it had.
pub record StackMapped (m : Machine) (root below size : ℕ) (m' : Machine) : Type 0 where
  pub tree : IsTree m' root
  pub stack :
      (b : ℕ)
      → below + page_size ≤ b
      → b < below + page_size + size
      → Fresh m m' kernel_flags (entry_at m' root b)
  pub guard : (b : ℕ) → below ≤ b → b < below + page_size → entry_at m' root b ≡ entry_at m root b
  pub older : (b : ℕ) → page_of b < page_of below → entry_at m' root b ≡ entry_at m root b

map_stack-mapped :
    (m : Machine) (kernel_pml4 bottom top n : ℕ)
    → (top - bottom + 4095) / page_size ≡ n
    → (map_fresh m kernel_pml4 bottom 0 n kernel_flags).0 ≡ none
    → map_stack m kernel_pml4 bottom top
      ≡ (top, (map_fresh m kernel_pml4 bottom 0 n kernel_flags).1)
unfolding map_stack
map_stack-mapped m kernel_pml4 bottom top n r e = rw (r, map_stack) (rw (e, map_stack) (rw r refl))

-- On a tree of kernel page tables, with an aligned `kstack_ptr`, a size of whole pages, addresses that do not
-- wrap and four free pages for each page of the stack, `kstack_init` returns the top of the stack, which is
-- where `kstack_ptr` then stands: a page and the size above the old one. Each byte of the size below the top
-- has a writable entry for a page that was free; the page below the stack, its guard, and every page
-- below `kstack_ptr` have the entries that they had, and the page tables are a tree again.
pub kstack_init-StackMapped :
    (m : Machine) (kernel_pml4 kstack_ptr size : ℕ)
    → IsTree m kernel_pml4
    → kstack_ptr % 4096 ≡ 0
    → size % 4096 ≡ 0
    → kstack_ptr + page_size + size < 2 ^ 64
    → page_of kstack_ptr + 1 + size / 4096 < 2 ^ 36
    → 4 * (size / 4096) ≤ m.pmm.free_pages
    → (m' : Machine) × (kstack_init m kernel_pml4 kstack_ptr size
        ≡ (kstack_ptr + page_size + size, m', kstack_ptr + page_size + size))
      × StackMapped m kernel_pml4 kstack_ptr size m'
unfolding kstack_init
kstack_init-StackMapped m kernel_pml4 kstack_ptr size tree aligned whole fits last enough =
    let bottom = kstack_ptr + page_size in
    let n = size / 4096 in
    let at_bottom : add64 kstack_ptr page_size ≡ bottom = omega arith in
    let at_top : add64 bottom size ≡ bottom + size = omega arith in
    let rounds : (bottom + size - bottom + 4095) / page_size ≡ n = omega arith in
    let first : page_of bottom ≡ page_of kstack_ptr + 1 = omega arith in
    let from : page_of bottom + 0 ≡ page_of bottom = omega arith in
    let r =
      map_fresh-MapsFresh n 0 tree bottom kernel_flags kernel_flags-AreFlags (omega arith)
        (omega arith) enough in
    let maps = rw from at r.1 in
    (
      (map_fresh m kernel_pml4 bottom 0 n kernel_flags).1,
      rw
          (
            at_bottom,
            at_top,
            map_stack-mapped m kernel_pml4 bottom (bottom + size) n rounds r.0,
            kstack_init,
          )
          refl,
      record {
        tree = maps.tree;
        stack = λ b lo hi. maps.fresh b (ground arith);
        guard = λ b lo hi. maps.others b (ground arith);
        older = λ b lo. maps.others b (ground arith);
      },
    )

-- `kstack_init` returns the top of the stack or NULL.
pub kstack_init-top :
    (m : Machine) (kernel_pml4 kstack_ptr size : ℕ)
    → ((kstack_init m kernel_pml4 kstack_ptr size).0 ≡ 0)
      ⊎ ((kstack_init m kernel_pml4 kstack_ptr size).0 ≡ add64 (add64 kstack_ptr page_size) size)
unfolding kstack_init map_stack
kstack_init-top m kernel_pml4 kstack_ptr size = on_result (
    map_fresh m kernel_pml4 (add64 kstack_ptr page_size) 0
      ((add64 (add64 kstack_ptr page_size) size - add64 kstack_ptr page_size + 4095) / page_size)
      kernel_flags)
  where
    on_result :
        (r : Option ℕ × Machine)
        → let r' : ℕ × Machine = elim r.0 [
          | none ↦ (add64 (add64 kstack_ptr page_size) size, r.1)
          | some i ↦ (0, r.1)
        ] in
          (r'.0 ≡ 0) ⊎ (r'.0 ≡ add64 (add64 kstack_ptr page_size) size)
    on_result (none, m') = inr refl
    on_result (some i, m') = inl refl
