-- ===== src/Proc/Create/Outcome.antt =====
-- The outcomes of `sys_fork` of kernel/src/proc/proc.c.
use sudo_os.Prelude.{
  Bool, ℕ, ◌+◌, ◌-◌, ◌*◌, ◌^◌, ◌<◌, ◌≡◌, ◌≢◌, ◌⊎◌, ◌∙◌, refl, sym, ap, arith, true, false, Option,
  none, some, Option-cases, [], ◌∷◌, ◌++◌, ◌==◌, Bool-cases, inl, inr,
}
use sudo_os.Prelude.Int.{ℤ, pos, negsuc}
use sudo_os.Mm.Paging.{Machine}
use sudo_os.Mm.Heap.{KernelHeap}
use sudo_os.Mm.Vmm.{MmStruct, mm_alloc, mm_copy, kstack_init, kstack_size}
use sudo_os.Arch.System.{current}
use sudo_os.Proc.Create.{
  World, proc_of, put_memory, put_mm, free_proc, failed, trap_frame_size, after_copy, copy_memory,
  start_child, has_room, fork_bytes,
}
use sudo_os.Proc.Create.Fork.{
  Spared, Later, Later-trans, Later-memory, put_mm-Later, free_proc-Later, start_child-Later,
}
use sudo_os.Mm.Vmm.Stack.{kstack_init-top}
use sudo_os.Proc.Create.Child.{queue, Started, start_child-Started}

-- A step before the child starts: the ready queue, the stacks and `kstack_ptr` are the same too.
record Steady (child : ℕ) (w w' : World) : Type 0 where
  later : Later child w w'
  queued : queue w' ≡ queue w
  linked : w'.in_queue child ≡ w.in_queue child
  words : w'.words ≡ w.words
  stacks : w'.kstack_ptr ≡ w.kstack_ptr

Steady-trans : (c : ℕ) (u v w : World) → Steady c u v → Steady c v w → Steady c u w
Steady-trans c u v w a b = record {
  later = Later-trans c u v w a.later b.later;
  queued = b.queued ∙ a.queued;
  linked = b.linked ∙ a.linked;
  words = b.words ∙ a.words;
  stacks = b.stacks ∙ a.stacks;
}

-- The top of the next kernel stack, and the place of a trap frame below it.
abbrev pub frame_place : World → ℕ
frame_place w = w.kstack_ptr + 0x5000 - trap_frame_size

-- How `sys_fork` ends, from a state where `child` has its PCB: -1, and the ready queue is the same, or the number of the
-- child, which starts.
abbrev pub Ended : ℕ → World → ℤ × World → Type 0
Ended child w r =
    Later child w r.1
    × (((r.0 ≡ negsuc 0) × (queue r.1 ≡ queue w))
        ⊎ ((r.0 ≡ pos (w.system.pid child)) × Started child (frame_place w) w r.1))

pub Started-after :
    (child : ℕ) (w v u : World)
    → child ≢ current w.system
    → Spared child w v
    → queue v ≡ queue w
    → v.words ≡ w.words
    → v.kstack_ptr ≡ w.kstack_ptr
    → Started child (frame_place v) v u
    → Started child (frame_place w) w u
Started-after child w v u ne s queued words stacks st =
    let place : frame_place v ≡ frame_place w = ap (λ k. k + 0x5000 - trap_frame_size) stacks in
    let there : v.system.trap_frame (current v.system) ≡ w.system.trap_frame (current w.system) =
      ap v.system.trap_frame s.runs ∙ s.frame (current w.system) (λ e. ne (sym e)) in
    record {
      queued = st.queued ∙ ap (λ q. q ++ child ∷ []) queued;
      state = st.state;
      frame = st.frame ∙ place;
      rax = rw (← place) st.rax;
      copied = λ i lt other. rw (← place) (
          st.copied i lt other
          ∙ (ap (λ f. f (v.system.trap_frame (current v.system) + 8 * i)) words
              ∙ ap (λ a. w.words (a + 8 * i)) there));
    }

Ended-after :
    (child : ℕ) (w v : World) (r : ℤ × World)
    → child ≢ current w.system
    → Steady child w v
    → Ended child v r
    → Ended child w r
Ended-after child w v r ne s (l, e) = (
  Later-trans child w v r.1 s.later l,
  elim e [
    | inl (minus, freed) ↦ inl (minus, freed ∙ s.queued)
    | inr (number, st) ↦ inr (
      number ∙ ap pos s.later.number,
      Started-after child w v r.1 ne s.later.spared s.queued s.words s.stacks st,
    )
  ],
)

failed_queue :
    (w : World) (child : ℕ) → w.in_queue child ≡ false → queue (free_proc w child) ≡ queue w
unfolding free_proc
failed_queue w child out = rw out refl

failed-Ended : (w : World) (child : ℕ) → w.in_queue child ≡ false → Ended child w (failed w child)
failed-Ended w child out = (free_proc-Later w child, inl (refl, failed_queue w child out))

-- The memory and the place of the next stack alone.
with_memory : (c : ℕ) (w : World) (h : KernelHeap) → Steady c w (put_memory w h)
with_memory c w h = record {
  later = Later-memory c w h;
  queued = refl;
  linked = refl;
  words = refl;
  stacks = refl;
}

-- The state with the pages and the place that `kstack_init` left.
abbrev stacked : World → ℕ × Machine × ℕ → World
stacked w r = record w { memory = record w.memory { machine = r.1 }; kstack_ptr = r.2 }

stacked-Later : (c : ℕ) (w : World) (r : ℕ × Machine × ℕ) → Later c w (stacked w r)
stacked-Later c w r = record {
  spared = record {
    runs = refl;
    files = refl;
    handles = refl;
    procs = λ p ne. refl;
    cwd = λ p ne. refl;
    fds = λ p ne. refl;
    frame = λ p ne. refl;
    names = λ p ne. refl;
  };
  table = refl;
  number = refl;
  home = refl;
  from = refl;
}

-- The child on the new stack `top`.
started-Ended :
    (w : World) (child entry top : ℕ)
    → w.kstack_ptr + 0x5000 < 2 ^ 64
    → top ≡ w.kstack_ptr + 0x5000
    → let v = stacked w (kstack_init w.memory.machine w.kernel_pml4 w.kstack_ptr kstack_size) in
      Ended child w (pos (v.system.pid child), start_child v child top entry)
started-Ended w child entry top room e =
    let r = kstack_init w.memory.machine w.kernel_pml4 w.kstack_ptr kstack_size in
    let v = stacked w r in
    let st = start_child-Started v child (w.kstack_ptr + 0x5000) entry (omega arith) room in
    rw e (
      Later-trans child w v _ (stacked-Later child w r)
          (start_child-Later v child (w.kstack_ptr + 0x5000) entry),
      inr (
        refl,
        record {
          queued = st.queued;
          state = st.state;
          frame = st.frame;
          rax = st.rax;
          copied = st.copied;
        },
      ),
    )

-- The new stack lacks a page where the child's trap frame or context is written.
abbrev pub StackFaults : World → Type 0
StackFaults w =
    let r = kstack_init w.memory.machine w.kernel_pml4 w.kstack_ptr kstack_size in
    (r.0 ≢ 0) × (has_room (stacked w r) r.0 fork_bytes ≡ false)

after_copy_cases :
    (w : World) (child entry : ℕ) (copied : Bool)
    → w.kstack_ptr + 0x5000 < 2 ^ 64
    → w.in_queue child ≡ false
    → ((r : ℤ × World) × (after_copy w child entry copied ≡ some r) × Ended child w r)
      ⊎ ((after_copy w child entry copied ≡ none) × (copied ≡ true) × StackFaults w)
unfolding after_copy
after_copy_cases w child entry false room out = inl (failed w child, refl, failed-Ended w child out)
after_copy_cases w child entry true room out =
    let r = kstack_init w.memory.machine w.kernel_pml4 w.kstack_ptr kstack_size in
    let v = stacked w r in
    elim (Bool-cases (r.0 == 0)) [
      | inl e ↦
          let f = failed-Ended v child out in
          rw e (
            inl (
              failed v child,
              refl,
              (
                Later-trans child w v (failed v child).1 (stacked-Later child w r) f.0,
                inl (refl, failed_queue v child out),
              ),
            ))
      | inr e ↦
          let top : r.0 ≡ w.kstack_ptr + 0x5000 =
            elim (kstack_init-top w.memory.machine w.kernel_pml4 w.kstack_ptr kstack_size) [
              | inl z ↦ absurd (ground (arith, z))
              | inr t ↦ omega (arith, t)
            ] in
          elim (Bool-cases (has_room v r.0 fork_bytes)) [
            | inl ok ↦ rw (e, ok) (inl (_, refl, started-Ended w child entry r.0 room top))
            | inr lacks ↦ rw (e, lacks) (inr (refl, refl, ((λ z. absurd (ground arith)), refl)))
          ]
    ]

put_mm-Steady : (w : World) (c : ℕ) (mm : MmStruct) → Steady c w (put_mm w c mm)
unfolding put_mm
put_mm-Steady w c mm = record {
  later = put_mm-Later w c mm;
  queued = refl;
  linked = refl;
  words = refl;
  stacks = refl;
}

-- The part of `sys_fork` behind the child's name faults: `mm_alloc` does, on the heap; or `mm_copy` does; or the copy
-- succeeds and the kernel stack behind it lacks a page.
abbrev pub CopyFaults : World → ℕ → Type 0
CopyFaults v child =
    (mm_alloc v.memory v.kernel_pml4 ≡ none)
    ⊎ ((mm : MmStruct) × (h : KernelHeap) × (mm_alloc v.memory v.kernel_pml4 ≡ some (some mm, h))
        × (let w' = put_mm (put_memory v h) child mm in
            let c = mm_copy h v.kernel_pml4 mm (w'.mms (proc_of v (current v.system)).mm) in
            (c ≡ none)
            ⊎ ((mm' : MmStruct) × (h' : KernelHeap) × (c ≡ some (true, mm', h'))
                × StackFaults (put_memory (put_mm w' child mm') h'))))

module _ (w : World) (child entry : ℕ) (ne : child ≢ current w.system)
    (out : w.in_queue child ≡ false) (room : w.kstack_ptr + 0x5000 < 2 ^ 64) where
  abbrev Copied : Option (ℤ × World) → Type 0
  Copied o = ((r : ℤ × World) × (o ≡ some r) × Ended child w r) ⊎ ((o ≡ none) × CopyFaults w child)

  failed-after :
      (v : World)
      → Steady child w v
      → (r : ℤ × World) × (some (failed v child) ≡ some r) × Ended child w r
  failed-after v s = (
    failed v child,
    refl,
    Ended-after child w v (failed v child) ne s (failed-Ended v child (s.linked ∙ out)),
  )

  -- What follows the copy, from a state that is steady.
  copied_cases :
      (v : World) (copied : Bool)
      → Steady child w v
      → ((r : ℤ × World) × (after_copy v child entry copied ≡ some r) × Ended child w r)
        ⊎ ((after_copy v child entry copied ≡ none) × (copied ≡ true) × StackFaults v)
  copied_cases v copied s =
      elim (after_copy_cases v child entry copied (rw (s.stacks) room) (s.linked ∙ out)) [
        | inl (r, e, d) ↦ inl (r, e, Ended-after child w v r ne s d)
        | inr f ↦ inr f
      ]

  pub copy_memory_cases : Copied (copy_memory w child entry)
  unfolding copy_memory
  copy_memory_cases = elim (Option-cases (mm_alloc w.memory w.kernel_pml4)) [
    | inl e ↦ inr (rw (e, copy_memory) refl, inl e)
    | inr ((none, h), e) ↦
        rw (e, copy_memory) (inl (failed-after (put_memory w h) (with_memory child w h)))
    | inr ((some mm, h), e) ↦
        let v = put_mm (put_memory w h) child mm in
        let s : Steady child w v =
          Steady-trans child w (put_memory w h) v (with_memory child w h)
            (put_mm-Steady (put_memory w h) child mm) in
        let old = (proc_of w (current w.system)).mm in
        elim (Bool-cases (old == 0)) [
          | inl z ↦ rw (e, copy_memory) (rw z (inl (failed-after v s)))
          | inr nz ↦ elim (Option-cases (mm_copy h w.kernel_pml4 mm (v.mms old))) [
            | inl c ↦ inr (rw (e, nz, c, copy_memory) refl, inr (mm, h, e, inl c))
            | inr ((copied, mm', h'), c) ↦
                let u = put_memory (put_mm v child mm') h' in
                let steady : Steady child w u = Steady-trans child w v u s (
                  Steady-trans child v (put_mm v child mm') u (put_mm-Steady v child mm')
                    (with_memory child (put_mm v child mm') h')) in
                let same : copy_memory w child entry ≡ after_copy u child entry copied =
                  rw (e, nz, c, copy_memory) refl in
                elim (copied_cases u copied steady) [
                  | inl (r, q, d) ↦ inl (r, same ∙ q, d)
                  | inr (q, done, f) ↦
                      let c' = c ∙ ap (λ b. some (b, mm', h')) done in
                      inr (same ∙ q, inr (mm, h, e, inr (mm', h', c', f)))
                ]
          ]
        ]
  ]
