-- ===== src/Proc/Create/Forked.antt =====
-- What `sys_fork` of kernel/src/proc/proc.c does, on every outcome.
use sudo_os.Prelude.{
  Option-cases, ℕ, ◌+◌, ◌^◌, ◌<◌, ◌≡◌, ◌≢◌, ◌⊎◌, ◌∙◌, refl, ap, none, some, ◌==◌, if◌then◌else◌,
  Bool-cases, inl, inr, replicate,
}
use sudo_os.Prelude.Int.{ℤ, pos, negsuc}
use sudo_os.Mm.Heap.{KernelHeap}
use sudo_os.Mm.Vmm.{kmalloc_all}
use sudo_os.Arch.System.{current}
use sudo_os.Proc.Create.{
  World, put_memory, max_fd, clear_pcb, alloc_new_pcb, name_child, copy_memory, sys_fork, pcb_size,
}
use sudo_os.Proc.Create.Fork.{Spared, Spared-trans, Born, name_child-Born}
use sudo_os.Proc.Create.Child.{queue, Started}
use sudo_os.Proc.Create.Outcome.{Ended, Started-after, frame_place, CopyFaults, copy_memory_cases}

-- The state after a call of `sys_fork` and its result, for the child's PCB at `child`.
pub record Forked (child : ℕ) (w : World) (r : ℤ × World) : Type 0 where
  pub spared : Spared child w r.1
  pub table : r.1.system.fd_table child ≡ replicate max_fd none
  pub home : r.1.system.cwd_inode child ≡ w.system.cwd_inode (current w.system)
  pub from : r.1.system.parent child ≡ current w.system
  pub ending :
      ((r.0 ≡ negsuc 0) × (queue r.1 ≡ queue w))
      ⊎ ((r.0 ≡ pos w.next_pid) × Started child (frame_place w) w r.1)

-- From the state in which the child has its PCB and its name.
after_naming :
    (child : ℕ) (w v : World) (r : ℤ × World)
    → child ≢ current w.system
    → Born child w v
    → Ended child v r
    → Forked child w r
after_naming child w v r ne b (l, e) = record {
  spared = Spared-trans child w v r.1 b.spared l.spared;
  table = l.table ∙ b.table;
  home = l.home ∙ b.home;
  from = l.from ∙ b.from;
  ending = elim e [
    | inl (minus, freed) ↦ inl (minus, freed ∙ b.queued)
    | inr (number, st) ↦ inr (
      number ∙ ap pos b.number,
      Started-after child w v r.1 ne b.spared b.queued b.words b.stacks st,
    )
  ];
}

-- `kmalloc` gives the child's PCB an address where the current process has none.
abbrev pub FreshPcb : World → Type 0
FreshPcb w =
    (p : ℕ) (h : KernelHeap)
    → kmalloc_all w.memory w.kernel_pml4 pcb_size ≡ some (p, h)
    → p ≢ current w.system

abbrev pub ForkFaults : World → Type 0
ForkFaults w =
    (alloc_new_pcb w ≡ none)
    ⊎ ((child : ℕ) × (v : World) × (alloc_new_pcb w ≡ some (child, v))
        × CopyFaults (name_child v child) child)

module _ (w : World) where
  alloc_new_pcb-null : kmalloc_all w.memory w.kernel_pml4 pcb_size ≡ none → alloc_new_pcb w ≡ none
  unfolding alloc_new_pcb
  alloc_new_pcb-null k = rw (k, alloc_new_pcb) refl

  -- The PCB that `kmalloc` gave, if it is not NULL.
  alloc_new_pcb-given :
      (p : ℕ) (h : KernelHeap)
      → kmalloc_all w.memory w.kernel_pml4 pcb_size ≡ some (p, h)
      → alloc_new_pcb w ≡ (if p == 0 then none else some (p, clear_pcb (put_memory w h) p))
  unfolding alloc_new_pcb
  alloc_new_pcb-given p h k = rw (k, alloc_new_pcb) refl

-- Where `kmalloc` does not hand out the PCB of the current process and the address of the next kernel stack does
-- not wrap, `sys_fork` faults only where `alloc_new_pcb` does, on a PCB that is NULL or a heap that faults; where
-- `mm_alloc` or `mm_copy` does; or where the copy succeeds but `kstack_init` gives a stack that lacks a page for the
-- trap frame or the context. Otherwise it returns and leaves the current process, the files, and the PCB of
-- every process but the child. The child has no open descriptor, the working directory of the current process, and
-- that process as its parent. Either the result is -1 and the ready queue is as it was; or the result is
-- the next process number, the child is ready and stands last in the ready queue, and its
-- trap frame at the top of a kernel stack is a copy of the one of the current process, but with 0 for `rax`.
pub sys_fork-Forked :
    (w : World) (entry : ℕ)
    → FreshPcb w
    → w.kstack_ptr + 0x5000 < 2 ^ 64
    → ((sys_fork w entry ≡ none) × ForkFaults w)
      ⊎ ((r : ℤ × World) × (child : ℕ) × (sys_fork w entry ≡ some r) × Forked child w r)
unfolding sys_fork
sys_fork-Forked w entry fresh room =
    elim (Option-cases (kmalloc_all w.memory w.kernel_pml4 pcb_size)) [
      | inl k ↦ let a = alloc_new_pcb-null w k in inl (rw (a, sys_fork) refl, inl a)
      | inr ((p, h), k) ↦ elim (Bool-cases (p == 0)) [
        | inl z ↦
            let a : alloc_new_pcb w ≡ none = rw z at (alloc_new_pcb-given w p h k) in
            inl (rw (a, sys_fork) refl, inl a)
        | inr nz ↦
            let w' = clear_pcb (put_memory w h) p in
            let a : alloc_new_pcb w ≡ some (p, w') = rw nz at (alloc_new_pcb-given w p h k) in
            let v = name_child w' p in
            let ne = fresh p h k in
            let b = name_child-Born w h p ne in
            let apart : p ≢ current v.system = λ q. ne (q ∙ b.spared.runs) in
            let same : sys_fork w entry ≡ copy_memory v p entry = rw (a, sys_fork) refl in
            elim (copy_memory_cases v p entry apart b.unlinked (rw (b.stacks) room)) [
              | inl (r, e, d) ↦ inr (r, p, same ∙ e, after_naming p w v r ne b d)
              | inr (e, f) ↦ inl (same ∙ e, inr (p, w', a, f))
            ]
      ]
    ]
