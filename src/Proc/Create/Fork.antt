-- ===== src/Proc/Create/Fork.antt =====
-- What `sys_fork` of kernel/src/proc/proc.c leaves of the other processes.
use sudo_os.Prelude.{ℕ, false, ◌≡◌, ◌≢◌, ◌∙◌, refl, arith, none, replicate}
use sudo_os.Mm.Heap.{KernelHeap}
use sudo_os.Mm.Vmm.{MmStruct}
use sudo_os.Arch.System.{current}
use sudo_os.Proc.Create.{
  World, proc_of, put_memory, put_mm, max_fd, clear_pcb, set_proc_name, free_proc, name_child,
  start_child,
}

-- Everything but process `child` and the memory: the current process, the files, and what the PCBs hold.
pub record Spared (child : ℕ) (w w' : World) : Type 0 where
  pub runs : current w'.system ≡ current w.system
  pub files : w'.system.files ≡ w.system.files
  pub handles : w'.system.handles ≡ w.system.handles
  pub procs : (p : ℕ) → p ≢ child → proc_of w' p ≡ proc_of w p
  pub cwd : (p : ℕ) → p ≢ child → w'.system.cwd_inode p ≡ w.system.cwd_inode p
  pub fds : (p : ℕ) → p ≢ child → w'.system.fd_table p ≡ w.system.fd_table p
  pub frame : (p : ℕ) → p ≢ child → w'.system.trap_frame p ≡ w.system.trap_frame p
  pub names : (p : ℕ) → p ≢ child → w'.name p ≡ w.name p

pub Spared-trans : (c : ℕ) (u v w : World) → Spared c u v → Spared c v w → Spared c u w
Spared-trans c u v w a b = record {
  runs = b.runs ∙ a.runs;
  files = b.files ∙ a.files;
  handles = b.handles ∙ a.handles;
  procs = λ p ne. b.procs p ne ∙ a.procs p ne;
  cwd = λ p ne. b.cwd p ne ∙ a.cwd p ne;
  fds = λ p ne. b.fds p ne ∙ a.fds p ne;
  frame = λ p ne. b.frame p ne ∙ a.frame p ne;
  names = λ p ne. b.names p ne ∙ a.names p ne;
}

-- The descriptors, the number, the directory and the parent of the child are the same too.
pub record Later (child : ℕ) (w w' : World) : Type 0 where
  pub spared : Spared child w w'
  pub table : w'.system.fd_table child ≡ w.system.fd_table child
  pub number : w'.system.pid child ≡ w.system.pid child
  pub home : w'.system.cwd_inode child ≡ w.system.cwd_inode child
  pub from : w'.system.parent child ≡ w.system.parent child

pub Later-trans : (c : ℕ) (u v w : World) → Later c u v → Later c v w → Later c u w
Later-trans c u v w a b = record {
  spared = Spared-trans c u v w a.spared b.spared;
  table = b.table ∙ a.table;
  number = b.number ∙ a.number;
  home = b.home ∙ a.home;
  from = b.from ∙ a.from;
}

-- The child with its PCB and its name.
pub record Born (child : ℕ) (w w' : World) : Type 0 where
  pub spared : Spared child w w'
  pub table : w'.system.fd_table child ≡ replicate max_fd none
  pub number : w'.system.pid child ≡ w.next_pid
  pub home : w'.system.cwd_inode child ≡ w.system.cwd_inode (current w.system)
  pub from : w'.system.parent child ≡ current w.system
  pub queued : w'.system.kernel.ready_queue ≡ w.system.kernel.ready_queue
  pub unlinked : w'.in_queue child ≡ false
  pub words : w'.words ≡ w.words
  pub stacks : w'.kstack_ptr ≡ w.kstack_ptr

pub name_child-Born :
    (w : World) (h : KernelHeap) (c : ℕ)
    → c ≢ current w.system
    → Born c w (name_child (clear_pcb (put_memory w h) c) c)
unfolding name_child set_proc_name clear_pcb
name_child-Born w h c apart = record {
  spared = record {
    runs = refl;
    files = refl;
    handles = refl;
    procs = λ p ne. ground (arith, ne);
    cwd = λ p ne. ground (arith, ne);
    fds = λ p ne. ground (arith, ne);
    frame = λ p ne. ground (arith, ne);
    names = λ p ne. ground (arith, ne);
  };
  table = ground arith;
  number = ground arith;
  home = ground (arith, apart);
  from = ground arith;
  queued = refl;
  unlinked = ground arith;
  words = refl;
  stacks = refl;
}

pub Later-memory : (c : ℕ) (w : World) (h : KernelHeap) → Later c w (put_memory w h)
Later-memory c w h = record {
  spared = record {
    runs = refl;
    files = refl;
    handles = refl;
    procs = λ p ne. refl;
    cwd = λ p ne. refl;
    fds = λ p ne. refl;
    frame = λ p ne. refl;
    names = λ p ne. refl;
  };
  table = refl;
  number = refl;
  home = refl;
  from = refl;
}

pub put_mm-Later : (w : World) (c : ℕ) (mm : MmStruct) → Later c w (put_mm w c mm)
unfolding put_mm
put_mm-Later w c mm = record {
  spared = record {
    runs = refl;
    files = refl;
    handles = refl;
    procs = λ p ne. ground (arith, ne);
    cwd = λ p ne. refl;
    fds = λ p ne. refl;
    frame = λ p ne. refl;
    names = λ p ne. refl;
  };
  table = refl;
  number = refl;
  home = refl;
  from = refl;
}

pub free_proc-Later : (w : World) (c : ℕ) → Later c w (free_proc w c)
unfolding free_proc
free_proc-Later w c = record {
  spared = record {
    runs = refl;
    files = refl;
    handles = refl;
    procs = λ p ne. refl;
    cwd = λ p ne. refl;
    fds = λ p ne. refl;
    frame = λ p ne. refl;
    names = λ p ne. refl;
  };
  table = refl;
  number = refl;
  home = refl;
  from = refl;
}

pub start_child-Later : (w : World) (c top entry : ℕ) → Later c w (start_child w c top entry)
unfolding start_child
start_child-Later w c top entry = record {
  spared = record {
    runs = refl;
    files = refl;
    handles = refl;
    procs = λ p ne. ground (arith, ne);
    cwd = λ p ne. refl;
    fds = λ p ne. refl;
    frame = λ p ne. ground (arith, ne);
    names = λ p ne. refl;
  };
  table = refl;
  number = refl;
  home = refl;
  from = refl;
}
