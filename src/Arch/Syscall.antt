-- ===== src/Arch/Syscall.antt =====
-- `syscall_handler` of kernel/src/arch/interrupts.c: one function for each case of its switch, and the
-- handler. `Outcome.fault` stands for what C leaves undefined: NULL that is followed, and what the file system's
-- operations leave undefined.
pub mod Keeps
pub mod Alone
pub mod Owned
pub mod Fds
mod Tests
use sudo_os.Prelude.{
  ℕ, ◌+◌, ◌-◌, ◌/◌, ◌%◌, ◌^◌, ◌++◌, Bool, true, false, ◌||◌, Option, none, some, List, [], ◌∷◌,
  ◌==◌, ltb, if◌then◌else◌,
}
use sudo_os.Prelude.Int.{ℤ, pos, negsuc}
use sudo_os.Prelude.Text.{ascii}
use sudo_os.Proc.Sched.{Kernel, zombie, update, schedule}
use sudo_os.Drivers.Keyboard.{keyboard_get_char}
use sudo_os.Drivers.Console.{kprint}
use sudo_os.Drivers.Console.Format.{Arg, int, kprintf}
use sudo_os.Fs.Ramfs.{Outcome, done, fault}
use sudo_os.Fs.Ramfs.Ops.{
  ramfs_open, ramfs_read, ramfs_write, ramfs_close, ramfs_mkdir, ramfs_chdir, to_u64,
}
use sudo_os.Fs.Ramfs.Dirs.{Stat, ramfs_getdents64, ramfs_stat, ramfs_fstat, chain}
use sudo_os.Fs.Ramfs.Cwd.{ramfs_getcwd}
use sudo_os.Usr.Malloc.{sys_brk}
use sudo_os.Arch.System.{
  System, current, update_at, fs_of, put_fs, Registers, Output, no_output, bytes_out, dirents_out,
  stat_out, Answer, answered, gone, into_fork, into_execve, Calls, to_int, minus_one, index_ret,
}

-- A result with nothing written and no switch.
abbrev pub plain : ℕ → System → Outcome Answer
plain ret s = done (answered ret no_output s none)

-- `kprintf`
abbrev pub say : System → List ℕ → List Arg → Outcome System
say s format args = elim (kprintf s.console format args) [
  | none ↦ fault
  | some c ↦ done (record s { console = c })
]

-- SYS_READ
unfoldable pub sys_read : System → Registers → Outcome Answer
sys_read s regs =
    if regs.rdi == 0
    then (let (c, keyboard) = keyboard_get_char s.keyboard in
        let s' = record s { keyboard = keyboard } in
        if c == 0 then plain 0 s' else done (answered 1 (bytes_out regs.rsi (c ∷ [])) s' none))
    else chain (ramfs_read (fs_of s) (to_int regs.rdi) (to_int regs.rdx))
        λ r. done (answered (to_u64 r.0) (bytes_out regs.rsi r.1) (put_fs s r.2) none)

-- `kprint_char` for the first `len` characters of the buffer.
abbrev pub print_bytes : Calls → System → ℕ → ℤ → System
print_bytes calls s buf (pos len) = record s { console = kprint s.console (calls.bytes_at buf len) }
print_bytes calls s buf (negsuc n) = s

-- The bytes that a write of `len` reads from the buffer.
abbrev pub source_bytes : Calls → ℕ → ℤ → List ℕ
source_bytes calls buf (pos len) = calls.bytes_at buf len
source_bytes calls buf (negsuc n) = []

-- SYS_WRITE
unfoldable pub sys_write : Calls → System → Registers → Outcome Answer
sys_write calls s regs =
    let len = to_int regs.rdx in
    if regs.rdi == 1 || regs.rdi == 2
    then plain (to_u64 len) (print_bytes calls s regs.rsi len)
    else chain (ramfs_write (fs_of s) (to_int regs.rdi) (source_bytes calls regs.rsi len) len)
        λ r. plain (to_u64 r.0) (put_fs s r.1)

-- SYS_OPEN; O_CREAT is 64.
unfoldable pub sys_open : Calls → System → Registers → Outcome Answer
sys_open calls s regs =
    chain (ramfs_open (fs_of s) calls.memory (calls.string_at regs.rdi) (regs.rsi / 64 % 2 == 1))
      λ r. plain (index_ret r.0) (put_fs s r.1)

-- SYS_CLOSE
unfoldable pub sys_close : System → Registers → Outcome Answer
sys_close s regs = chain (ramfs_close (fs_of s) (to_int regs.rdi)) λ fs. plain 0 (put_fs s fs)

-- The result of SYS_STAT and SYS_FSTAT.
abbrev pub stat_answer : System → ℕ → Option Stat → Outcome Answer
stat_answer s buf none = plain minus_one s
stat_answer s buf (some st) = done (answered 0 (stat_out buf (some st)) s none)

unfoldable pub sys_stat : Calls → System → Registers → Outcome Answer
sys_stat calls s regs = stat_answer s regs.rsi (ramfs_stat (fs_of s) (calls.string_at regs.rdi))

unfoldable pub sys_fstat : System → Registers → Outcome Answer
sys_fstat s regs = chain (ramfs_fstat (fs_of s) (to_int regs.rdi)) (stat_answer s regs.rsi)

-- SYS_GETCWD: the text and its 0, and the pointer.
abbrev pub path_answer : System → ℕ → Option (List ℕ) → Outcome Answer
path_answer s buf none = plain 0 s
path_answer s buf (some path) = done (answered buf (bytes_out buf (path ++ 0 ∷ [])) s none)

unfoldable pub sys_getcwd : System → Registers → Outcome Answer
sys_getcwd s regs =
    if regs.rdi == 0 || regs.rsi == 0
    then plain 0 s
    else chain (ramfs_getcwd (fs_of s) regs.rsi) (path_answer s regs.rdi)

-- SYS_CHDIR and SYS_MKDIR
unfoldable pub sys_chdir : Calls → System → Registers → Outcome Answer
sys_chdir calls s regs =
    if regs.rdi == 0
    then plain minus_one s
    else (let r = ramfs_chdir (fs_of s) (calls.string_at regs.rdi) in
        plain (if r.0 then 0 else minus_one) (put_fs s r.1))

unfoldable pub sys_mkdir : Calls → System → Registers → Outcome Answer
sys_mkdir calls s regs =
    if regs.rdi == 0
    then plain minus_one s
    else chain (ramfs_mkdir (fs_of s) (calls.string_at regs.rdi))
        λ r. plain (if r.0 then 0 else minus_one) (put_fs s r.1)

-- SYS_GETDENTS64
unfoldable pub sys_getdents64 : System → Registers → Outcome Answer
sys_getdents64 s regs =
    chain (ramfs_getdents64 (fs_of s) (to_int regs.rdi) (to_int regs.rdx))
      λ r. done (answered (to_u64 r.0) (dirents_out regs.rsi r.1) (put_fs s r.2) none)

-- The address space of the current process, for a call that follows the pointers.
abbrev pub with_mm : System → (ℕ → Outcome Answer) → Outcome Answer
with_mm s go =
    let mm = (s.kernel.proc (current s)).mm in if current s == 0 || mm == 0 then fault else go mm

-- SYS_BRK
unfoldable pub sys_brk_call : Calls → System → Registers → Outcome Answer
sys_brk_call calls s regs = with_mm s λ mm.
    let r = sys_brk calls.maps (s.heap mm) regs.rdi in
    plain r.0 (record s { heap = update_at s.heap mm r.1 })

-- SYS_YIELD
unfoldable pub sys_yield : System → Outcome Answer
sys_yield s =
    let (k, switch) = schedule s.kernel in
    done (answered 0 no_output (record s { kernel = k }) switch)

-- SYS_GETPID and SYS_GETPPID
unfoldable pub sys_getpid : System → Outcome Answer
sys_getpid s = if current s == 0 then fault else plain (s.pid (current s)) s

unfoldable pub sys_getppid : System → Outcome Answer
sys_getppid s =
    let parent = s.parent (current s) in
    if current s == 0 then fault else (if parent == 0 then plain 0 s else plain (s.pid parent) s)

-- The current process as a zombie with its exit code.
abbrev pub made_zombie : Kernel → ℕ → Kernel
made_zombie k code = record k {
  proc =
      update k.proc k.current_proc
        (record (k.proc k.current_proc) { state = zombie; exit_code = code });
}

-- SYS_EXIT: the message, and `schedule`, which takes the processor from the zombie.
abbrev pub exit_answer : System → Registers → System → Outcome Answer
exit_answer s regs s' =
    let r = schedule (made_zombie s.kernel (regs.rdi % 2 ^ 32)) in
    done (gone (record s' { kernel = r.0 }) r.1)

unfoldable pub sys_exit : System → Registers → Outcome Answer
sys_exit s regs =
    if current s == 0
    then fault
    else chain
        (say s (ascii "Process %d exited with code %d\n")
          (int (pos (s.pid (current s))) ∷ int (to_int regs.rdi) ∷ []))
        (exit_answer s regs)

-- The cases of the switch.
pub data Call : Type 0 where
  call_read call_write call_open call_close call_stat call_fstat call_lseek call_getcwd call_chdir
        call_mkdir call_getdents64 call_mmap call_munmap call_brk call_yield call_getpid call_fork
        call_execve call_exit call_wait4 call_getppid call_nanosleep call_gettimeofday
        call_unknown :
      Call

-- The case of a number.
unfoldable pub call_of : List (ℕ × Call) → ℕ → Call
call_of [] n = call_unknown
call_of (entry ∷ table) n = let rest = call_of table n in if entry.0 == n then entry.1 else rest

abbrev pub numbers : List (ℕ × Call)
numbers =
    (0, call_read)
    ∷ (1, call_write)
    ∷ (2, call_open)
    ∷ (3, call_close)
    ∷ (4, call_stat)
    ∷ (5, call_fstat)
    ∷ (8, call_lseek)
    ∷ (79, call_getcwd)
    ∷ (80, call_chdir)
    ∷ (83, call_mkdir)
    ∷ (217, call_getdents64)
    ∷ (9, call_mmap)
    ∷ (11, call_munmap)
    ∷ (12, call_brk)
    ∷ (24, call_yield)
    ∷ (39, call_getpid)
    ∷ (57, call_fork)
    ∷ (59, call_execve)
    ∷ (60, call_exit)
    ∷ (61, call_wait4)
    ∷ (110, call_getppid)
    ∷ (35, call_nanosleep)
    ∷ (96, call_gettimeofday)
    ∷ []

-- The body of a case.
unfoldable pub perform : Calls → System → Registers → Call → Outcome Answer
perform calls s regs call_read = sys_read s regs
perform calls s regs call_write = sys_write calls s regs
perform calls s regs call_open = sys_open calls s regs
perform calls s regs call_close = sys_close s regs
perform calls s regs call_stat = sys_stat calls s regs
perform calls s regs call_fstat = sys_fstat s regs
perform calls s regs call_lseek = plain minus_one s
perform calls s regs call_getcwd = sys_getcwd s regs
perform calls s regs call_chdir = sys_chdir calls s regs
perform calls s regs call_mkdir = sys_mkdir calls s regs
perform calls s regs call_getdents64 = sys_getdents64 s regs
perform calls s regs call_mmap = plain 0 s
perform calls s regs call_munmap = plain 0 s
perform calls s regs call_brk = sys_brk_call calls s regs
perform calls s regs call_yield = sys_yield s
perform calls s regs call_getpid = sys_getpid s
perform calls s regs call_fork = done (into_fork s)
perform calls s regs call_execve = done (into_execve s)
perform calls s regs call_exit = sys_exit s regs
perform calls s regs call_wait4 = plain minus_one s
perform calls s regs call_getppid = sys_getppid s
perform calls s regs call_nanosleep = plain 0 s
perform calls s regs call_gettimeofday = plain 0 s
perform calls s regs call_unknown =
    chain (say s (ascii "Warning: Unknown Syscall %d\n") (int (to_int regs.rax) ∷ []))
      (plain minus_one)

-- `current_proc->trap_frame = regs`, where there is a current process.
abbrev pub save_frame : System → ℕ → System
save_frame s frame =
    if current s == 0 then s else record s { trap_frame = update_at s.trap_frame (current s) frame }

-- `syscall_handler`, for registers saved at the address `frame`: the value for RAX is in the answer.
unfoldable pub syscall_handler : Calls → System → ℕ → Registers → Outcome Answer
syscall_handler calls s frame regs =
    perform calls (save_frame s frame) regs (call_of numbers regs.rax)
