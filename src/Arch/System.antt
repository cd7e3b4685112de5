-- ===== src/Arch/System.antt =====
-- The state that the system calls of kernel/src/arch/interrupts.c work on: the scheduler, the keyboard,
-- the console, the tables of the file system, and what the PCB of each process holds beside its
-- scheduling fields.
pub use sudo_os.Prelude.Words.{to_int}
use sudo_os.Prelude.{ℕ, Bool, not, Option, none, some, List, ◌==◌, if◌then◌else◌}
use sudo_os.Proc.Sched.{Kernel}
use sudo_os.Drivers.Keyboard.{Keyboard}
use sudo_os.Drivers.Console.{Console}
use sudo_os.Fs.Ramfs.{Node, Handle, Fs}
use sudo_os.Fs.Ramfs.Dirs.{Dirent, Stat}

-- A process is named by the address of its PCB, an address space by that of its `mm_struct_t`; `heap` is
-- the field of that name, and `trap_frame` an address.
pub record System : Type 0 where
  pub kernel : Kernel
  pub keyboard : Keyboard
  pub console : Console
  pub files : List Node
  pub handles : List Handle
  pub cwd_inode : ℕ → ℕ
  pub fd_table : ℕ → List (Option ℕ)
  pub pid : ℕ → ℕ
  pub parent : ℕ → ℕ
  pub trap_frame : ℕ → ℕ
  pub heap : ℕ → ℕ

abbrev pub current : System → ℕ
current s = s.kernel.current_proc

-- `f[p] = a`
abbrev pub update_at {ℓ} : {A : Type ℓ} → (ℕ → A) → ℕ → A → ℕ → A
update_at f p a q = if q == p then a else f q

-- The file system as the current process sees it, and the system after an operation on it.
abbrev pub fs_of : System → Fs
fs_of s = record {
  files = s.files;
  handles = s.handles;
  has_proc = not (current s == 0);
  cwd_inode = s.cwd_inode (current s);
  fd_table = s.fd_table (current s);
}

abbrev pub put_fs : System → Fs → System
put_fs s fs = record s {
  files = fs.files;
  handles = fs.handles;
  cwd_inode = update_at s.cwd_inode (current s) fs.cwd_inode;
  fd_table = update_at s.fd_table (current s) fs.fd_table;
}

-- The saved registers that the handlers use.
pub record Registers : Type 0 where
  pub rax : ℕ
  pub rdi : ℕ
  pub rsi : ℕ
  pub rdx : ℕ
  pub r10 : ℕ
  pub int_no : ℕ
  pub err_code : ℕ
  pub rip : ℕ

-- What a call writes to the memory of the process, at an address.
pub data Output : Type 0 where
  no_output : Output
  bytes_out : ℕ → List ℕ → Output
  dirents_out : ℕ → List Dirent → Output
  stat_out : ℕ → Option Stat → Output

-- The end of a system call: `ret`, what is written, the new state, and the arguments of `switch_to` where it
-- is called; an exit, after which nothing returns to the process; or the call of `sys_fork` or `do_execve` in
-- this state, whose result becomes `ret`.
pub data Answer : Type 0 where
  answered : ℕ → Output → System → Option (ℕ × ℕ) → Answer
  gone : System → Option (ℕ × ℕ) → Answer
  into_fork : System → Answer
  into_execve : System → Answer

-- What the handler takes from elsewhere: the strings and bytes in the memory of the process, whether `kmalloc`
-- gives memory, and what `mm_map_range` does with a range, as for SYS_BRK in Usr.Malloc.
pub record Calls : Type 0 where
  pub string_at : ℕ → List ℕ
  pub bytes_at : ℕ → ℕ → List ℕ
  pub memory : Bool
  pub maps : ℕ → ℕ → Bool × Bool

-- -1 as `uint64_t`.
abbrev pub minus_one : ℕ
minus_one = 0xffffffffffffffff

-- An index or -1, and a flag for 0 or -1, as `uint64_t`.
abbrev pub index_ret : Option ℕ → ℕ
index_ret none = minus_one
index_ret (some i) = i
