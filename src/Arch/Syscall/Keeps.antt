-- ===== src/Arch/Syscall/Keeps.antt =====
-- What every system call of kernel/src/arch/interrupts.c keeps of the system.
use sudo_os.Prelude.{
  ℕ, ◌≡◌, Bool, ◌||◌, refl, Option, none, some, List, [], ◌∷◌, ◌==◌, if◌then◌else◌, Bool-cases,
  Option-cases, ◌/◌, ◌%◌, ◌^◌, inl, inr, inl, inr,
}
use sudo_os.Prelude.Int.{ℤ, pos, negsuc}
use sudo_os.Proc.Sched.{schedule}
use sudo_os.Drivers.Keyboard.{keyboard_get_char}
use sudo_os.Drivers.Console.{kprint}
use sudo_os.Fs.Ramfs.{Outcome, done, fault, Fs}
use sudo_os.Prelude.Text.{ascii}
use sudo_os.Usr.Malloc.{sys_brk}
use sudo_os.Fs.Ramfs.Dirs.{ramfs_stat, chain}
use sudo_os.Arch.System.{
  System, current, update_at, fs_of, put_fs, Registers, Answer, answered, gone, into_fork,
  into_execve, Calls, bytes_out, to_int, dirents_out, minus_one, index_ret, bytes_out, to_int,
}
use sudo_os.Fs.Ramfs.Ops.{
  to_u64, ramfs_open, ramfs_read, ramfs_write, ramfs_close, ramfs_mkdir, ramfs_chdir,
}
use sudo_os.Fs.Ramfs.Dirs.{Dirent, Stat, ramfs_getdents64, ramfs_fstat}
use sudo_os.Fs.Ramfs.Cwd.{ramfs_getcwd}
use sudo_os.Drivers.Console.Format.{Arg, int, format_text, kprintf, plain as plain_text}
use sudo_os.Arch.Syscall.{
  call_read, call_write, call_open, call_close, call_stat, call_fstat, call_lseek, call_getcwd,
  call_chdir, call_mkdir, call_getdents64, call_mmap, call_munmap, call_brk, call_yield,
  call_getpid, call_fork, call_execve, call_exit, call_wait4, call_getppid, call_nanosleep,
  call_gettimeofday, call_unknown, print_bytes, source_bytes, path_answer, exit_answer, plain, say,
  made_zombie, stat_answer, sys_read, sys_write, sys_open, sys_close, sys_stat, sys_fstat,
  sys_getcwd, sys_chdir, sys_mkdir, sys_getdents64, sys_brk_call, sys_yield, sys_getpid,
  sys_getppid, sys_exit, Call, perform,
}

-- The state that a call leaves, or in which it calls `sys_fork` or `do_execve`.
abbrev pub state : Answer → System
state (answered ret out s switch) = s
state (gone s switch) = s
state (into_fork s) = s
state (into_execve s) = s

-- What holds of the state that a call leaves, if it does not fault.
pub data Holds (P : System → Type 0) : Outcome Answer → Type 0 where
  faults : Holds P fault
  leaves : {a : Answer} → P (state a) → Holds P (done a)

Holds-chain :
    {A : Type 0} {P : System → Type 0} (o : Outcome A) (f : A → Outcome Answer)
    → ((a : A) → o ≡ done a → Holds P (f a))
    → Holds P (chain o f)
Holds-chain fault f h = faults
Holds-chain (done a) f h = h a refl

-- One operation of the file system that changes its state.
pub data FsStep (fs : Fs) (fs' : Fs) : Type 0 where
  opened :
      (memory : Bool) (path : List ℕ) (creat : Bool) (r : Option ℕ)
      → ramfs_open fs memory path creat ≡ done (r, fs')
      → FsStep fs fs'
  was_read :
      (fd count r : ℤ) (bytes : List ℕ)
      → ramfs_read fs fd count ≡ done (r, bytes, fs')
      → FsStep fs fs'
  was_written :
      (fd : ℤ) (buf : List ℕ) (count r : ℤ)
      → ramfs_write fs fd buf count ≡ done (r, fs')
      → FsStep fs fs'
  closed : (fd : ℤ) → ramfs_close fs fd ≡ done fs' → FsStep fs fs'
  made : (path : List ℕ) (r : Bool) → ramfs_mkdir fs path ≡ done (r, fs') → FsStep fs fs'
  moved : (path : List ℕ) → (ramfs_chdir fs path).1 ≡ fs' → FsStep fs fs'
  listed :
      (fd count r : ℤ) (records : List Dirent)
      → ramfs_getdents64 fs fd count ≡ done (r, records, fs')
      → FsStep fs fs'

-- A property of the system that no change which the handler makes breaks.
pub record Lasts (calls : Calls) (s : System) (regs : Registers) (P : System → Type 0)
    : Type 0 where
  pub now : P s
  pub keys : P (record s { keyboard = (keyboard_get_char s.keyboard).1 })
  pub prints : (text : List ℕ) → P (record s { console = kprint s.console text })
  pub on_files : (fs : Fs) → FsStep (fs_of s) fs → P (put_fs s fs)
  pub breaks : (n : ℕ) → P (record s { heap = update_at s.heap (s.kernel.proc (current s)).mm n })
  pub yields : P (record s { kernel = (schedule s.kernel).0 })
  pub exits :
      (code : ℕ) (text : List ℕ)
      → P (record s {
        kernel = (schedule (made_zombie s.kernel code)).0;
        console = kprint s.console text;
      })

module _ {calls : Calls} {s : System} {regs : Registers} {P : System → Type 0}
    (l : Lasts calls s regs P) where
  stays : {ret : ℕ} → Holds P (plain ret s)
  stays = leaves l.now

  Holds-read : Holds P (sys_read s regs)
  unfolding sys_read
  Holds-read = elim (Bool-cases (regs.rdi == 0)) [
    | inl h ↦ rw h (elim (Bool-cases ((keyboard_get_char s.keyboard).0 == 0)) [
      | inl h ↦ rw h (leaves l.keys)
      | inr h ↦ rw h (leaves l.keys)
    ])
    | inr h ↦ rw h (
        Holds-chain (ramfs_read (fs_of s) (to_int regs.rdi) (to_int regs.rdx))
          (λ r. done (answered (to_u64 r.0) (bytes_out regs.rsi r.1) (put_fs s r.2) none))
          λ r e. leaves (l.on_files r.2 (was_read (to_int regs.rdi) (to_int regs.rdx) r.0 r.1 e)))
  ]

  Holds-print : (buf ret : ℕ) (len : ℤ) → Holds P (plain ret (print_bytes calls s buf len))
  Holds-print buf ret (pos len) = leaves (l.prints _)
  Holds-print buf ret (negsuc n) = stays

  Holds-say :
      (format : List ℕ) (args : List Arg) (f : System → Outcome Answer)
      → ((text : List ℕ) → Holds P (f (record s { console = kprint s.console text })))
      → Holds P (chain (say s format args) f)
  unfolding kprintf
  Holds-say format args f h = elim (Option-cases (format_text plain_text format args)) [
    | inl e ↦ rw (e, chain) faults
    | inr (text, e) ↦ rw (e, chain) (h text)
  ]

  Holds-write : Holds P (sys_write calls s regs)
  unfolding sys_write
  Holds-write = elim (Bool-cases (regs.rdi == 1 || regs.rdi == 2)) [
    | inl h ↦ rw h (Holds-print regs.rsi (to_u64 (to_int regs.rdx)) (to_int regs.rdx))
    | inr h ↦ rw h (
        Holds-chain
          (ramfs_write (fs_of s) (to_int regs.rdi) (source_bytes calls regs.rsi (to_int regs.rdx))
            (to_int regs.rdx))
          (λ r. plain (to_u64 r.0) (put_fs s r.1))
          λ r e. leaves (
            l.on_files r.1 (
              was_written (to_int regs.rdi) (source_bytes calls regs.rsi (to_int regs.rdx))
                (to_int regs.rdx) r.0 e)))
  ]

  Holds-open : Holds P (sys_open calls s regs)
  unfolding sys_open
  Holds-open =
      Holds-chain
        (ramfs_open (fs_of s) calls.memory (calls.string_at regs.rdi) (regs.rsi / 64 % 2 == 1))
        (λ r. plain (index_ret r.0) (put_fs s r.1))
        λ r e. leaves (
          l.on_files r.1
            (opened calls.memory (calls.string_at regs.rdi) (regs.rsi / 64 % 2 == 1) r.0 e))

  Holds-close : Holds P (sys_close s regs)
  unfolding sys_close
  Holds-close =
      Holds-chain (ramfs_close (fs_of s) (to_int regs.rdi)) (λ fs. plain 0 (put_fs s fs))
        λ fs e. leaves (l.on_files fs (closed (to_int regs.rdi) e))

  Holds-stat_answer : (buf : ℕ) (st : Option Stat) → Holds P (stat_answer s buf st)
  Holds-stat_answer buf none = stays
  Holds-stat_answer buf (some st) = leaves l.now

  Holds-path : (buf : ℕ) (r : Option (List ℕ)) → Holds P (path_answer s buf r)
  Holds-path buf none = stays
  Holds-path buf (some path) = leaves l.now

  Holds-fstat : Holds P (sys_fstat s regs)
  unfolding sys_fstat
  Holds-fstat =
      Holds-chain (ramfs_fstat (fs_of s) (to_int regs.rdi)) (stat_answer s regs.rsi)
        λ st e. Holds-stat_answer regs.rsi st

  Holds-getcwd : Holds P (sys_getcwd s regs)
  unfolding sys_getcwd
  Holds-getcwd = elim (Bool-cases (regs.rdi == 0 || regs.rsi == 0)) [
    | inl h ↦ rw h (stays)
    | inr h ↦ rw h (
        Holds-chain (ramfs_getcwd (fs_of s) regs.rsi) (path_answer s regs.rdi)
          λ r e. Holds-path regs.rdi r)
  ]

  Holds-chdir : Holds P (sys_chdir calls s regs)
  unfolding sys_chdir
  Holds-chdir = elim (Bool-cases (regs.rdi == 0)) [
    | inl h ↦ rw h (stays)
    | inr h ↦ rw h (
        leaves (
          l.on_files (ramfs_chdir (fs_of s) (calls.string_at regs.rdi)).1
            (moved (calls.string_at regs.rdi) refl)))
  ]

  Holds-mkdir : Holds P (sys_mkdir calls s regs)
  unfolding sys_mkdir
  Holds-mkdir = elim (Bool-cases (regs.rdi == 0)) [
    | inl h ↦ rw h (stays)
    | inr h ↦ rw h (
        Holds-chain (ramfs_mkdir (fs_of s) (calls.string_at regs.rdi))
          (λ r. plain (if r.0 then 0 else minus_one) (put_fs s r.1))
          λ r e. leaves (l.on_files r.1 (made (calls.string_at regs.rdi) r.0 e)))
  ]

  Holds-getdents64 : Holds P (sys_getdents64 s regs)
  unfolding sys_getdents64
  Holds-getdents64 =
      Holds-chain (ramfs_getdents64 (fs_of s) (to_int regs.rdi) (to_int regs.rdx))
        (λ r. done (answered (to_u64 r.0) (dirents_out regs.rsi r.1) (put_fs s r.2) none))
        λ r e. leaves (l.on_files r.2 (listed (to_int regs.rdi) (to_int regs.rdx) r.0 r.1 e))

  Holds-brk : Holds P (sys_brk_call calls s regs)
  unfolding sys_brk_call
  Holds-brk = elim (Bool-cases (current s == 0 || (s.kernel.proc (current s)).mm == 0)) [
    | inl h ↦ rw h (faults)
    | inr h ↦
        rw h (
          leaves (l.breaks (sys_brk calls.maps (s.heap (s.kernel.proc (current s)).mm) regs.rdi).1))
  ]

  Holds-getpid : Holds P (sys_getpid s)
  unfolding sys_getpid
  Holds-getpid = elim (Bool-cases (current s == 0)) [ inl h ↦ rw h (faults) | inr h ↦ rw h (stays) ]

  Holds-getppid : Holds P (sys_getppid s)
  unfolding sys_getppid
  Holds-getppid = elim (Bool-cases (current s == 0)) [
    | inl h ↦ rw h (faults)
    | inr h ↦ rw h (elim (Bool-cases (s.parent (current s) == 0)) [
      | inl h ↦ rw h (stays)
      | inr h ↦ rw h (stays)
    ])
  ]

  Holds-exit : Holds P (sys_exit s regs)
  unfolding sys_exit
  Holds-exit = elim (Bool-cases (current s == 0)) [
    | inl h ↦ rw h (faults)
    | inr h ↦ rw h (
        Holds-say (ascii "Process %d exited with code %d\n")
          (int (pos (s.pid (current s))) ∷ int (to_int regs.rdi) ∷ []) (exit_answer s regs)
          λ text. leaves (l.exits (regs.rdi % 2 ^ 32) text))
  ]

  -- So it holds of the state that the call leaves.
  pub perform-Holds : (call : Call) → Holds P (perform calls s regs call)
  unfolding perform sys_yield sys_stat
  perform-Holds call_read = Holds-read
  perform-Holds call_write = Holds-write
  perform-Holds call_open = Holds-open
  perform-Holds call_close = Holds-close
  perform-Holds call_stat =
      Holds-stat_answer regs.rsi (ramfs_stat (fs_of s) (calls.string_at regs.rdi))
  perform-Holds call_fstat = Holds-fstat
  perform-Holds call_lseek = stays
  perform-Holds call_getcwd = Holds-getcwd
  perform-Holds call_chdir = Holds-chdir
  perform-Holds call_mkdir = Holds-mkdir
  perform-Holds call_getdents64 = Holds-getdents64
  perform-Holds call_mmap = stays
  perform-Holds call_munmap = stays
  perform-Holds call_brk = Holds-brk
  perform-Holds call_yield = leaves l.yields
  perform-Holds call_getpid = Holds-getpid
  perform-Holds call_fork = leaves l.now
  perform-Holds call_execve = leaves l.now
  perform-Holds call_exit = Holds-exit
  perform-Holds call_wait4 = stays
  perform-Holds call_getppid = Holds-getppid
  perform-Holds call_nanosleep = stays
  perform-Holds call_gettimeofday = stays
  perform-Holds call_unknown =
      Holds-say (ascii "Warning: Unknown Syscall %d\n") (int (to_int regs.rax) ∷ [])
        (plain minus_one) λ text. leaves (l.prints text)
