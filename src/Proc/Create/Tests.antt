-- ===== src/Proc/Create/Tests.antt =====
-- A concrete call of `sys_fork` of kernel/src/proc/proc.c.
use sudo_os.Prelude.{
  ◌==◌, ◌∙◌, sym, get_or, ◌⊎◌, ℕ, ◌≡◌, refl, arith, ap, Bool, Option, none, some, true, false, [],
  ◌∷◌, replicate,
}
use sudo_os.Prelude.Int.{ℤ, pos}
use sudo_os.Mm.Paging.{has_page, vmm_map_page, vmm_get_pte, get_next_table, new_table}
use sudo_os.Mm.Paging.Tests.{one_table}
use sudo_os.Prelude.Bits.{byte_test, byte_set}
use sudo_os.Mm.Pmm.{pmm_alloc_page, take_page, bit_set, alloc_from_cursor, first_clear, bit_test}
use sudo_os.Mm.Heap.{KernelHeap, kmalloc, first_fit, take_block, split_block}
use sudo_os.Mm.Vmm.{MmStruct, mm_alloc, mm_copy, map_fresh, copy_vmas, kstack_init, map_stack}
use sudo_os.Proc.Sched.{running}
use sudo_os.Drivers.Console.{console_init}
use sudo_os.Arch.System.{System}
use sudo_os.Proc.Create.{
  World, sys_fork, alloc_new_pcb, name_child, set_proc_name, clear_pcb, copy_memory, after_copy,
  put_mm, has_room,
}
use sudo_os.Arch.Syscall.Fds.{Exclusive}
use sudo_os.Proc.Create.Files.{get_or-replicate, sys_fork-Exclusive}
use sudo_os.Proc.Create.Forked.{Forked, FreshPcb, ForkFaults, sys_fork-Forked}

-- Process 8 runs, in an address space without VMAs, and the kernel heap is one free block.
abbrev parent_mm : MmStruct
parent_mm = record {
  address = 16;
  pml4_pa = 4096;
  vma_list = [];
  map_count = 0;
  start_heap = 0;
  heap = 0;
  start_stack = 0;
}

abbrev one_process : System
one_process = record {
  kernel = record {
    proc = λ p. record {
      state = running;
      time_slice = pos 10;
      total_runtime = 0;
      kstack_base = 0;
      mm = 16;
      exit_code = 0;
    };
    ready_queue = [];
    current_proc = 8;
    idle_proc = 4;
    interrupts = false;
    rsp0 = 0;
    cr3 = 0;
    pml4_pa = λ m. 4096;
    ticks = 0;
  };
  keyboard = record { kbuf = replicate 128 0; r_ptr = 0; w_ptr = 0; shift = false };
  console = console_init 640 480;
  files = [];
  handles = [];
  cwd_inode = λ p. 1;
  fd_table = λ p. replicate 16 none;
  pid = λ p. p;
  parent = λ p. 0;
  trap_frame = λ p. 0x7000;
  heap = λ m. 0;
}

abbrev before_fork : World
before_fork = record {
  system = one_process;
  memory = record {
    machine = one_table;
    blocks = record { address = 0xffff900000000000; size = 4064; is_free = true } ∷ [];
    top = 0xffff900000001000;
  };
  kernel_pml4 = 4096;
  kstack_ptr = 0xffffb00000000000;
  next_pid = 9;
  mms = λ m. parent_mm;
  name = λ p. replicate 33 0;
  rsp = λ p. 0;
  context = λ p. 0;
  proc_list = 8 ∷ [];
  in_list = λ p. p == 8;
  in_queue = λ p. false;
  words = λ a. a;
}

abbrev is_answered : Option (ℤ × World) → Bool
is_answered none = false
is_answered (some r) = true

fork_answered : is_answered (sys_fork before_fork 0x5000) ≡ true
unfolding sys_fork alloc_new_pcb copy_memory name_child set_proc_name clear_pcb after_copy put_mm
    kmalloc first_fit take_block split_block mm_alloc mm_copy copy_vmas kstack_init map_stack
    has_room has_page vmm_map_page vmm_get_pte get_next_table new_table map_fresh take_page bit_set
    byte_set pmm_alloc_page alloc_from_cursor first_clear bit_test byte_test
fork_answered = refl

abbrev place_of : Option (ℕ × KernelHeap) → ℕ
place_of none = 0
place_of (some (p, h)) = p

before_fork-FreshPcb : FreshPcb before_fork
unfolding kmalloc first_fit
before_fork-FreshPcb p h e =
    let there : 0xffff900000000020 ≡ p = ap place_of e in omega (arith, there)

sys_fork-Forked_example :
    ((sys_fork before_fork 0x5000 ≡ none) × ForkFaults before_fork)
    ⊎ ((r : ℤ × World) × (child : ℕ) × (sys_fork before_fork 0x5000 ≡ some r)
        × Forked child before_fork r)
sys_fork-Forked_example = sys_fork-Forked before_fork 0x5000 before_fork-FreshPcb (omega arith)

answer_of : (o : Option (ℤ × World)) → is_answered o ≡ true → (r : ℤ × World) × (o ≡ some r)
answer_of none e = ground arith
answer_of (some r) e = (r, refl)

none_open : (fd i : ℕ) → get_or (replicate 16 none) fd none ≡ some i → ⊥
none_open fd i h = absurd (cc (sym (get_or-replicate 16 fd) ∙ h))

before_fork-Exclusive : Exclusive before_fork.system
before_fork-Exclusive = record {
  in_range = λ p fd i h. absurd (none_open fd i h);
  counted = λ p fd i h. absurd (none_open fd i h);
  alone = λ p q fd gd i h g. absurd (none_open fd i h);
}

forked : (r : ℤ × World) × (sys_fork before_fork 0x5000 ≡ some r)
forked = answer_of (sys_fork before_fork 0x5000) fork_answered

sys_fork-Exclusive_example : Exclusive forked.0.1.system
sys_fork-Exclusive_example =
    sys_fork-Exclusive before_fork 0x5000 forked.0 before_fork-FreshPcb (omega arith)
      before_fork-Exclusive forked.1
