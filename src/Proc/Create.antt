-- ===== src/Proc/Create.antt =====
-- The creation of processes in kernel/src/proc/proc.c, on the state of the system calls, the kernel heap with
-- the page tables, and what else a PCB holds. The words on the kernel stacks are a function from addresses.
-- `none` is a fault: `alloc_new_pcb` clears the PCB before any caller tests for NULL, a new stack may lack a
-- page, and so may the heap. The messages are left out.
pub mod Fork
pub mod Child
pub mod Outcome
pub mod Forked
pub mod Files
mod Tests
use sudo_os.Prelude.{
  Bool, true, false, ◌&&◌, ℕ, zero, suc, ◌+◌, ◌-◌, ◌*◌, Option, none, some, List, [], ◌∷◌, ◌++◌,
  ◌==◌, if◌then◌else◌, length, drop, set, replicate,
}
use sudo_os.Prelude.Words.{sub64}
use sudo_os.Prelude.Int.{ℤ, pos, negsuc}
use sudo_os.Klib.{strncpy}
use sudo_os.Klib.Links.Ring.{erase}
use sudo_os.Mm.Paging.{has_page}
use sudo_os.Mm.Heap.{KernelHeap, kfree}
use sudo_os.Mm.Vmm.{
  MmStruct, kmalloc_all, mm_alloc, mm_copy, mm_free, kstack_size, kstack_init, kstack_free,
}
use sudo_os.Proc.Sched.{Pcb, Kernel, ready, running, time_slice_default, update}
use sudo_os.Arch.System.{System, current, update_at}

-- `in_list` and `in_queue` tell whether the links of a process's nodes are not NULL.
pub record World : Type 0 where
  pub system : System
  pub memory : KernelHeap
  pub kernel_pml4 : ℕ
  pub kstack_ptr : ℕ
  pub next_pid : ℕ
  pub mms : ℕ → MmStruct
  pub name : ℕ → List ℕ
  pub rsp : ℕ → ℕ
  pub context : ℕ → ℕ
  pub proc_list : List ℕ
  pub in_list : ℕ → Bool
  pub in_queue : ℕ → Bool
  pub words : ℕ → ℕ

-- sizeof(pcb_t), sizeof(context_t), sizeof(trap_frame_t), PROCNAME_LEN and MAX_FD
abbrev pub pcb_size : ℕ
pcb_size = 272

abbrev pub context_size : ℕ
context_size = 64

abbrev pub trap_frame_size : ℕ
trap_frame_size = 176

abbrev pub procname_len : ℕ
procname_len = 32

abbrev pub max_fd : ℕ
max_fd = 16

-- The PCB of a process, its memory, and its place in the lists.
abbrev pub put_proc : World → ℕ → Pcb → World
put_proc w p c = record w {
  system = record w.system {
    kernel = record w.system.kernel { proc = update w.system.kernel.proc p c };
  };
}

abbrev pub proc_of : World → ℕ → Pcb
proc_of w p = w.system.kernel.proc p

abbrev pub put_memory : World → KernelHeap → World
put_memory w h = record w { memory = h }

abbrev fresh_pcb : Pcb
fresh_pcb = record {
  state = ready;
  time_slice = time_slice_default;
  total_runtime = 0;
  kstack_base = 0;
  mm = 0;
  exit_code = 0;
}

-- What `alloc_new_pcb` writes to the memory at `p`.
unfoldable pub clear_pcb : World → ℕ → World
clear_pcb w p = record w {
  system = record w.system {
    kernel = record w.system.kernel { proc = update w.system.kernel.proc p fresh_pcb };
    cwd_inode = update_at w.system.cwd_inode p 0;
    fd_table = update_at w.system.fd_table p (replicate max_fd none);
    pid = update_at w.system.pid p w.next_pid;
    parent = update_at w.system.parent p 0;
    trap_frame = update_at w.system.trap_frame p 0;
  };
  next_pid = w.next_pid + 1;
  name = update_at w.name p (replicate (procname_len + 1) 0);
  rsp = update_at w.rsp p 0;
  context = update_at w.context p 0;
  in_list = update_at w.in_list p false;
  in_queue = update_at w.in_queue p false;
}

unfoldable pub alloc_new_pcb : World → Option (ℕ × World)
alloc_new_pcb w = elim (kmalloc_all w.memory w.kernel_pml4 pcb_size) [
  | none ↦ none
  | some (p, h) ↦ if p == 0 then none else some (p, clear_pcb (put_memory w h) p)
]

-- The bytes that `strncpy` writes, over those of the buffer, and a 0 at its end.
unfoldable pub name_bytes : List ℕ → List ℕ → List ℕ
name_bytes old name =
    let bytes = strncpy name procname_len in set (bytes ++ drop (length bytes) old) procname_len 0

unfoldable pub set_proc_name : World → ℕ → List ℕ → World
set_proc_name w p name = record w { name = update_at w.name p (name_bytes (w.name p) name) }

-- `free_proc`: a node that no list links is left alone, and so is a stack or an address space that is NULL.
unfoldable pub free_proc : World → ℕ → World
free_proc w p =
    let c = proc_of w p in
    let m =
      if c.kstack_base == 0
      then w.memory.machine
      else kstack_free w.memory.machine w.kernel_pml4 c.kstack_base in
    let h = record w.memory { machine = m } in
    let h' = if c.mm == 0 then h else mm_free h (w.mms c.mm) in
    record w {
      system = record w.system {
        kernel = record w.system.kernel {
          ready_queue =
              if w.in_queue p
              then erase p w.system.kernel.ready_queue
              else w.system.kernel.ready_queue;
        };
      };
      proc_list = if w.in_list p then erase p w.proc_list else w.proc_list;
      memory = kfree h' p;
    }

-- The process gets the stack with the top `top`.
abbrev pub put_stack : World → ℕ → ℕ → World
put_stack w p top =
    record (put_proc w p (record (proc_of w p) { kstack_base = sub64 top kstack_size })) {
      rsp = update_at w.rsp p top;
    }

-- The process becomes the last of the ready queue and the first of the list of all.
abbrev pub enqueue : World → ℕ → World
enqueue w p = record w {
  system = record w.system {
    kernel = record w.system.kernel { ready_queue = w.system.kernel.ready_queue ++ p ∷ [] };
  };
  proc_list = p ∷ w.proc_list;
  in_list = update_at w.in_list p true;
  in_queue = update_at w.in_queue p true;
}

abbrev pub put_word : (ℕ → ℕ) → ℕ → ℕ → ℕ → ℕ
put_word words a v b = if b == a then v else words b

-- `memset` of a context, with `n` words left.
unfoldable pub clear_words : (ℕ → ℕ) → ℕ → ℕ → ℕ → ℕ
clear_words words a zero = words
clear_words words a (suc n) = put_word (clear_words words a n) (a + 8 * n) 0

-- A context below `rsp`, whose words are 0 but for `rip`, `rdi` and `rbx`.
abbrev thread_context : (ℕ → ℕ) → ℕ → ℕ → ℕ → ℕ → ℕ → ℕ
thread_context words context rip rdi rbx =
    put_word
      (put_word (put_word (clear_words words context 8) (context + 56) rip) (context + 48) rdi)
      (context + 32) rbx

-- `kthread_create`: `none` inside for NULL. `entry` is the address of `kernel_thread_entry`.
unfoldable pub start_thread : World → ℕ → ℕ → ℕ → ℕ → ℕ → World
start_thread w p top entry func arg =
    let w' = put_stack w p top in
    let context = sub64 top context_size in
    enqueue
      (record w' {
        rsp = update_at w'.rsp p context;
        context = update_at w'.context p context;
        words = thread_context w'.words context entry arg func;
      })
      p

-- A kernel stack for the process, and `then`, or `otherwise` if memory ran out.
abbrev pub with_stack {ℓ} : {A : Type ℓ} → World → (World → A) → (ℕ → World → A) → A
with_stack w otherwise go =
    let r = kstack_init w.memory.machine w.kernel_pml4 w.kstack_ptr kstack_size in
    let w' = record w { memory = record w.memory { machine = r.1 }; kstack_ptr = r.2 } in
    if r.0 == 0 then otherwise w' else go r.0 w'

-- Whether the `n` bytes below `top`, fewer than a page, can be written.
unfoldable pub has_room : World → ℕ → ℕ → Bool
has_room w top n =
    has_page w.memory.machine w.kernel_pml4 (sub64 top n)
    && has_page w.memory.machine w.kernel_pml4 (sub64 top 1)

unfoldable pub kthread_create : World → ℕ → List ℕ → ℕ → ℕ → ℕ → Option (Option ℕ × World)
kthread_create w parent name func arg entry = elim (alloc_new_pcb w) [
  | none ↦ none
  | some (p, w1) ↦
      let w2 = set_proc_name w1 p name in
      let w3 =
        put_proc w2 p (record (proc_of w2 p) { state = ready; mm = (proc_of w2 parent).mm }) in
      let w4 = record w3 {
        system = record w3.system { parent = update_at w3.system.parent p parent };
      } in
      with_stack w4 (λ w5. some (none, put_memory w5 (kfree w5.memory p)))
        (λ top w5.
          if has_room w5 top context_size
          then some (some p, start_thread w5 p top entry func arg)
          else none)
]

-- The first part of `sys_fork`: the child's PCB up to its address space.
unfoldable pub name_child : World → ℕ → World
name_child w child =
    let parent = current w.system in
    let w' = record w {
      system = record w.system {
        cwd_inode = update_at w.system.cwd_inode child (w.system.cwd_inode parent);
        parent = update_at w.system.parent child parent;
      };
    } in
    set_proc_name w' child (w.name parent)

-- `*child_tf = *parent_tf`, with `n` words left.
unfoldable pub copy_words : (ℕ → ℕ) → ℕ → ℕ → ℕ → ℕ → ℕ
copy_words words dst src zero = words
copy_words words dst src (suc n) =
    put_word (copy_words words dst src n) (dst + 8 * n) (words (src + 8 * n))

-- The last part: the trap frame at the top of the stack, with 0 for `rax`, the context below it, and the lists.
unfoldable pub start_child : World → ℕ → ℕ → ℕ → World
start_child w child top entry =
    let frame = sub64 top trap_frame_size in
    let context = sub64 frame context_size in
    let parent_frame = w.system.trap_frame (current w.system) in
    let words = put_word (copy_words w.words frame parent_frame 22) (frame + 112) 0 in
    let w' = put_stack w child top in
    let w'' = put_proc w' child (record (proc_of w' child) { state = ready }) in
    enqueue
      (record w'' {
        system = record w''.system { trap_frame = update_at w''.system.trap_frame child frame };
        rsp = update_at w''.rsp child context;
        context = update_at w''.context child context;
        words = put_word words (context + 56) entry;
      })
      child

abbrev pub failed : World → ℕ → ℤ × World
failed w child = (negsuc 0, free_proc w child)

-- `proc->mm = mm`, and the fields of it that the scheduler and SYS_BRK read.
unfoldable pub put_mm : World → ℕ → MmStruct → World
put_mm w p mm = record w {
  system = record w.system {
    kernel = record w.system.kernel {
      proc = update w.system.kernel.proc p (record (proc_of w p) { mm = mm.address });
      pml4_pa = update_at w.system.kernel.pml4_pa mm.address mm.pml4_pa;
    };
    heap = update_at w.system.heap mm.address mm.heap;
  };
  mms = update_at w.mms mm.address mm;
}

-- `sys_fork` writes the trap frame and, of the context, `rip`, its last word.
abbrev pub fork_bytes : ℕ
fork_bytes = trap_frame_size + 8

-- What follows the copy of the address space.
unfoldable pub after_copy : World → ℕ → ℕ → Bool → Option (ℤ × World)
after_copy w child entry copied =
    if copied
    then with_stack w (λ w'. some (failed w' child))
        (λ top w'.
          if has_room w' top fork_bytes
          then some (pos (w'.system.pid child), start_child w' child top entry)
          else none)
    else some (failed w child)

-- `sys_fork`; `entry` is the address of `fork_ret_entry`.
unfoldable pub copy_memory : World → ℕ → ℕ → Option (ℤ × World)
copy_memory w child entry =
    let parent_mm = (proc_of w (current w.system)).mm in
    elim (mm_alloc w.memory w.kernel_pml4) [
      | none ↦ none
      | some (none, h) ↦ some (failed (put_memory w h) child)
      | some (some mm, h) ↦
          let w' = put_mm (put_memory w h) child mm in
          if parent_mm == 0
          then some (failed w' child)
          else (elim (mm_copy h w.kernel_pml4 mm (w'.mms parent_mm)) [
            | none ↦ none
            | some (copied, mm', h') ↦
                after_copy (put_memory (put_mm w' child mm') h') child entry copied
          ])
    ]

unfoldable pub sys_fork : World → ℕ → Option (ℤ × World)
sys_fork w entry = elim (alloc_new_pcb w) [
  | none ↦ none
  | some (child, w') ↦ copy_memory (name_child w' child) child entry
]
