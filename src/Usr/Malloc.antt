-- ===== src/Usr/Malloc.antt =====
-- The heap of a user program: `malloc` and `free` of usr/lib/stdlib.c, over `sbrk` of usr/lib/syscall.c
-- and the system call SYS_BRK of kernel/src/arch/interrupts.c. The list that `head` and `tail` hold is
-- the list of its headers, the first one first. What the kernel's `mm_map_range` does is an argument, a function
-- of the range's start and size: what it returns, and whether it set the entry of the first page, which
-- it may also have done, and undone, where it fails. It maps whole pages, so where the old break is not
-- aligned the page that holds it is gone then, and what stood there is lost. The bytes of the blocks are not
-- modelled; `malloc` is `none` where a header is lost.
pub mod Blocks
use sudo_os.Prelude.{
  ℕ, ◌+◌, ◌-◌, ◌*◌, ◌^◌, Bool, true, false, ◌&&◌, ◌||◌, not, ◌%◌, Option, none, some, List, [], ◌∷◌,
  ◌++◌, ◌==◌, ltb, leb, if◌then◌else◌,
}
use sudo_os.Prelude.Words.{add64, sub64, page_size}

-- `header_t`, with its address; `next` is the list.
pub record Block : Type 0 where
  pub address : ℕ
  pub size : ℕ
  pub is_free : Bool

-- The list of the headers, and the kernel's `mm->heap`.
pub record Heap : Type 0 where
  pub blocks : List Block
  pub heap : ℕ

-- `sizeof(header_t)`
abbrev pub header_size : ℕ
header_size = 24

-- SYS_BRK: the result, the new end of the heap, and whether the page of the old end is lost.
unfoldable pub sys_brk : (ℕ → ℕ → Bool × Bool) → ℕ → ℕ → ℕ × ℕ × Bool
sys_brk maps cur_brk new_brk =
    if new_brk == 0
    then (cur_brk, cur_brk, false)
    else (if ltb cur_brk new_brk
        then (let (mapped, first) = maps cur_brk (new_brk - cur_brk) in
            let lost = first && not (cur_brk % page_size == 0) in
            if mapped then (new_brk, new_brk, lost) else (cur_brk, cur_brk, lost))
        else (cur_brk, cur_brk, false))

-- `sbrk`, where `none` is the result `(void *)-1`; the rest is as for SYS_BRK.
unfoldable pub sbrk : (ℕ → ℕ → Bool × Bool) → ℕ → ℕ → Option ℕ × ℕ × Bool
sbrk maps heap increment =
    let (current_brk, heap1, same) = sys_brk maps heap 0 in
    let new_brk = add64 current_brk increment in
    let (ret, heap2, lost) = sys_brk maps heap1 new_brk in
    if current_brk == 2 ^ 64 - 1
    then (none, heap1, false)
    else (if increment == 0
        then (some current_brk, heap1, false)
        else (if ltb ret new_brk then (none, heap2, lost) else (some current_brk, heap2, lost)))

-- Part 1 of `malloc`: the first free block that is large enough is taken.
unfoldable pub reuse : List Block → ℕ → Option (ℕ × List Block)
reuse [] size = none
reuse (b ∷ bs) size =
    let rest = reuse bs size in
    if b.is_free && leb size b.size
    then some (b.address + header_size, record b { is_free = false } ∷ bs)
    else elim rest [ none ↦ none | some r ↦ some (r.0, b ∷ r.1) ]

-- Whether a header reaches into the page of the address `brk`, at which the blocks end.
unfoldable pub header_in_page : List Block → ℕ → Bool
header_in_page [] brk = false
header_in_page (b ∷ bs) brk =
    leb (brk - brk % page_size) (b.address + header_size - 1) || header_in_page bs brk

-- Parts 2 and 3 of `malloc`, for what `sbrk` gives. A block at address 0 is NULL for the tests of `head` and
-- `tail`, and no list holds it.
unfoldable pub grow : Heap → ℕ → Option ℕ × ℕ × Bool → Option (Option ℕ × Heap)
grow h size r = if r.2 && header_in_page h.blocks h.heap then none else (elim r.0 [
  | none ↦ some (none, record h { heap = r.1 })
  | some a ↦
      let new : List Block = record { address = a; size = size; is_free = false } ∷ [] in
      some (
        some (a + header_size),
        record { blocks = if a == 0 then h.blocks else h.blocks ++ new; heap = r.1 },
      )
])

-- `malloc`: the pointer, `none` for NULL, and the heap.
unfoldable pub malloc : (ℕ → ℕ → Bool × Bool) → Heap → ℕ → Option (Option ℕ × Heap)
malloc maps h size = if size == 0 then some (none, h) else elim (reuse h.blocks size) [
  | some r ↦ some (some r.0, record h { blocks = r.1 })
  | none ↦ grow h size (sbrk maps h.heap (add64 header_size size))
]

-- The header in front of a pointer is marked as free.
unfoldable pub mark : List Block → ℕ → List Block
mark [] a = []
mark (b ∷ bs) a =
    let rest = mark bs a in if b.address == a then record b { is_free = true } ∷ bs else b ∷ rest

-- `free`
unfoldable pub free : Heap → ℕ → Heap
free h ptr = if ptr == 0 then h else record h { blocks = mark h.blocks (sub64 ptr header_size) }
