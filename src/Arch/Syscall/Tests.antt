-- ===== src/Arch/Syscall/Tests.antt =====
-- Concrete system calls of kernel/src/arch/interrupts.c.
use sudo_os.Prelude.{
  ℕ, zero, suc, ◌≡◌, ◌≢◌, refl, arith, Option, none, some, [], ◌∷◌, true, false, replicate,
  length-replicate, get_or, set,
}
use sudo_os.Prelude.Int.{pos}
use sudo_os.Proc.Sched.{Kernel, running}
use sudo_os.Drivers.Console.{console_init}
use sudo_os.Drivers.Console.History as Screen
use sudo_os.Fs.Ramfs.{done, dir, cleared_node, cleared_handle}
use sudo_os.Arch.System.{System, Registers, Answer, answered, Calls, no_output, update_at}
use sudo_os.Arch.Syscall.{
  syscall_handler, save_frame, call_of, numbers, call_unknown, perform, sys_getpid,
}
use sudo_os.Arch.Syscall.Keeps.{state}
use sudo_os.Arch.Syscall.Alone.{IsValid, syscall_handler-IsValid}
use sudo_os.Arch.Syscall.Fds.{Exclusive, syscall_handler-Exclusive}

-- Process 8 runs, process 16 is another one, and 4 is the idle process.
abbrev two_processes : Kernel
two_processes = record {
  proc = λ p. record {
    state = running;
    time_slice = pos 10;
    total_runtime = 0;
    kstack_base = 0;
    mm = 0;
    exit_code = 0;
  };
  ready_queue = [];
  current_proc = 8;
  idle_proc = 4;
  interrupts = false;
  rsp0 = 0;
  cr3 = 0;
  pml4_pa = λ m. 0;
  ticks = 0;
}

abbrev quiet : System
quiet = record {
  kernel = two_processes;
  keyboard = record { kbuf = replicate 128 0; r_ptr = 0; w_ptr = 0; shift = false };
  console = console_init 640 480;
  files = [];
  handles = [];
  cwd_inode = λ p. 0;
  fd_table = λ p. replicate 16 none;
  pid = λ p. p;
  parent = λ p. 0;
  trap_frame = λ p. 0;
  heap = λ m. 0;
}

-- A process that writes `ok`.
abbrev writer : Calls
writer = record {
  string_at = λ a. [];
  bytes_at = λ a n. b'o' ∷ b'k' ∷ [];
  memory = true;
  maps = λ a n. (false, false);
}

abbrev registers : ℕ → Registers
registers number = record {
  rax = number;
  rdi = 1;
  rsi = 0x1000;
  rdx = 2;
  r10 = 0;
  int_no = 128;
  err_code = 0;
  rip = 0x400000;
}

quiet-IsValid : IsValid quiet
quiet-IsValid = record {
  queue = record {
    distinct = tt;
    all_ready = λ p m. absurd m;
    current_out = λ m. m;
    idle_out = λ m. m;
    idle_not_ready = λ e. ground arith;
  };
  keys = record {
    size = length-replicate {A = ℕ} 128 0;
    read_in = omega arith;
    write_in = omega arith;
  };
  screen = Screen.console_init-IsValid 640 480 (omega arith);
}

-- SYS_GETPID and SYS_WRITE.
getpid_answer : Answer
getpid_answer = answered 8 no_output (save_frame quiet 0x7000) none

getpid_runs : syscall_handler writer quiet 0x7000 (registers 39) ≡ done getpid_answer
unfolding syscall_handler sudo_os.Arch.Syscall.perform sudo_os.Arch.Syscall.call_of
    sudo_os.Arch.Syscall.sys_getpid getpid_answer
getpid_runs = refl

syscall_handler-IsValid_example : IsValid (state getpid_answer)
syscall_handler-IsValid_example =
    syscall_handler-IsValid writer quiet 0x7000 (registers 39) getpid_answer quiet-IsValid
      getpid_runs

-- SYS_OPEN of the path `/`, with room for two open files: the first descriptor is 3.
abbrev opening : Calls
opening = record writer { string_at = λ a. b'/' ∷ [] }

abbrev with_root : System
with_root = record quiet {
  files =
      record cleared_node { name = b'/' ∷ []; kind = dir; is_used = true; parent_idx = none } ∷ [];
  handles = replicate 2 cleared_handle;
}

abbrev opened_root : System
opened_root = record (save_frame with_root 0x7000) {
  handles = record { node = some 0; offset = 0; ref_count = 1 } ∷ cleared_handle ∷ [];
  cwd_inode = update_at with_root.cwd_inode 8 0;
  fd_table = update_at with_root.fd_table 8 (set (replicate 16 none) 3 (some 0));
}

open_runs :
    syscall_handler opening with_root 0x7000 (registers 2)
    ≡ done (answered 3 no_output opened_root none)
unfolding syscall_handler perform call_of sudo_os.Arch.Syscall.sys_open
    sudo_os.Fs.Ramfs.Ops.ramfs_open sudo_os.Fs.Ramfs.resolve_path sudo_os.Fs.Ramfs.walk
    sudo_os.Klib.strtok_r sudo_os.Klib.skip_delims sudo_os.Fs.Ramfs.Ops.open_node
    sudo_os.Fs.Ramfs.alloc_file_handle sudo_os.Fs.Ramfs.first_closed
    sudo_os.Fs.Ramfs.Ops.first_free_fd
open_runs = refl

no_descriptor : (n fd i : ℕ) → get_or (replicate {A = Option ℕ} n none) fd none ≢ some i
no_descriptor zero fd i e = absurd (cc)
no_descriptor (suc n) zero i e = absurd (cc)
no_descriptor (suc n) (suc fd) i e = no_descriptor n fd i e

with_root-Exclusive : Exclusive with_root
with_root-Exclusive = record {
  in_range = λ p fd i h. absurd (no_descriptor 16 fd i h);
  counted = λ p fd i h. absurd (no_descriptor 16 fd i h);
  alone = λ p q fd gd i h g. absurd (no_descriptor 16 fd i h);
}

syscall_handler-Exclusive_example : Exclusive opened_root
syscall_handler-Exclusive_example =
    syscall_handler-Exclusive opening with_root 0x7000 (registers 2)
      (answered 3 no_output opened_root none) with_root-Exclusive open_runs
