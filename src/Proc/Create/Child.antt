-- ===== src/Proc/Create/Child.antt =====
-- The child that `sys_fork` of kernel/src/proc/proc.c starts.
use sudo_os.Prelude.{
  ℕ, zero, suc, ◌+◌, ◌-◌, ◌*◌, ◌^◌, ◌<◌, ◌≤◌, ◌≡◌, ◌≢◌, refl, arith, List, [], ◌∷◌, ◌++◌,
}
use sudo_os.Prelude.Words.{sub64}
use sudo_os.Proc.Sched.{ready}
use sudo_os.Arch.System.{current}
use sudo_os.Proc.Create.{World, proc_of, copy_words, trap_frame_size, start_child}

abbrev pub queue : World → List ℕ
queue w = w.system.kernel.ready_queue

-- The child as it starts: last in the ready queue, ready, with a copy of the trap frame of the current process
-- at the top of its stack whose `rax` is 0.
pub record Started (child top : ℕ) (w w' : World) : Type 0 where
  pub queued : queue w' ≡ queue w ++ child ∷ []
  pub state : (proc_of w' child).state ≡ ready
  pub frame : w'.system.trap_frame child ≡ top
  pub rax : w'.words (top + 112) ≡ 0
  pub copied :
      (i : ℕ)
      → i < 22
      → i ≢ 14
      → w'.words (top + 8 * i) ≡ w.words (w.system.trap_frame (current w.system) + 8 * i)

copy_words-at :
    (n i : ℕ) (words : ℕ → ℕ) (dst src : ℕ)
    → i < n
    → copy_words words dst src n (dst + 8 * i) ≡ words (src + 8 * i)
unfolding copy_words
copy_words-at zero i words dst src lt = absurd (omega arith)
copy_words-at (suc n) i words dst src lt = ground (arith, copy_words-at n i words dst src)

pub start_child-Started :
    (w : World) (child top entry : ℕ)
    → 240 ≤ top
    → top < 2 ^ 64
    → Started child (top - trap_frame_size) w (start_child w child top entry)
unfolding start_child
start_child-Started w child top entry low high =
    let at : sub64 top trap_frame_size ≡ top - trap_frame_size = omega arith in
    let below : sub64 (top - trap_frame_size) 64 ≡ top - 240 = omega arith in
    record {
      queued = refl;
      state = ground arith;
      frame = rw at (ground arith);
      rax = rw (at, below) (ground arith);
      copied = λ i lt ne.
          let from = w.system.trap_frame (current w.system) in
          let c = copy_words-at 22 i w.words (top - trap_frame_size) from lt in
          rw (at, below) (ground (arith, c));
    }
