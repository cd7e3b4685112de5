-- ===== src/Arch/Syscall/Fds.antt =====
-- The descriptors of all processes over the system calls of kernel/src/arch/interrupts.c.
use sudo_os.Prelude.{ℕ, ◌≡◌, subst, ◌==◌, Bool-cases, inl, inr}
use sudo_os.Fs.Ramfs.{done, Fs}
use sudo_os.Fs.Ramfs.Fds.{FdChange}
use sudo_os.Fs.Ramfs.Fds.Calls.{
  Yields-done, ramfs_read-FdChange, ramfs_write-FdChange, ramfs_close-FdChange,
  ramfs_getdents64-FdChange,
}
use sudo_os.Fs.Ramfs.Fds.Nodes.{ramfs_open-FdChange, ramfs_mkdir-FdChange, ramfs_chdir-FdChange}
use sudo_os.Arch.System.{System, current, fs_of, Registers, Answer, Calls}
use sudo_os.Arch.Syscall.{syscall_handler, save_frame, call_of, numbers}
use sudo_os.Arch.Syscall.Keeps.{
  state, FsStep, opened, was_read, was_written, closed, made, moved, listed, Lasts, perform-Holds,
}
use sudo_os.Arch.Syscall.Alone.{Holds-done}
use sudo_os.Arch.Syscall.Owned.{Owned, Owned-Move}

abbrev pub Exclusive : System → Type 0
Exclusive s = Owned s.handles s.fd_table

FsStep-FdChange : (fs fs' : Fs) → FsStep fs fs' → FdChange fs fs'
FsStep-FdChange fs fs' (opened memory path creat r e) =
    Yields-done (λ r. FdChange fs r.1) (ramfs_open-FdChange fs memory path creat) e
FsStep-FdChange fs fs' (was_read fd count r bytes e) =
    Yields-done (λ r. FdChange fs r.2) (ramfs_read-FdChange fs fd count) e
FsStep-FdChange fs fs' (was_written fd buf count r e) =
    Yields-done (λ r. FdChange fs r.1) (ramfs_write-FdChange fs fd buf count) e
FsStep-FdChange fs fs' (closed fd e) =
    Yields-done (λ r. FdChange fs r) (ramfs_close-FdChange fs fd) e
FsStep-FdChange fs fs' (made path r e) =
    Yields-done (λ r. FdChange fs r.1) (ramfs_mkdir-FdChange fs path) e
FsStep-FdChange fs fs' (moved path e) = subst (FdChange fs) e (ramfs_chdir-FdChange fs path)
FsStep-FdChange fs fs' (listed fd count r records e) =
    Yields-done (λ r. FdChange fs r.2) (ramfs_getdents64-FdChange fs fd count) e

Exclusive-Lasts :
    {calls : Calls} (s : System) (regs : Registers) → Exclusive s → Lasts calls s regs Exclusive
Exclusive-Lasts {calls} s regs o = record {
  now = o;
  keys = o;
  prints = λ text. o;
  on_files = λ fs step.
      Owned-Move s.handles fs.handles s.fd_table (current s) o fs.fd_table
        (FsStep-FdChange (fs_of s) fs step);
  breaks = λ n. o;
  yields = o;
  exits = λ code text. o;
}

save_frame-Exclusive : (s : System) (frame : ℕ) → Exclusive s → Exclusive (save_frame s frame)
save_frame-Exclusive s frame o = elim (Bool-cases (current s == 0)) [
  | inl e ↦ rw e o
  | inr e ↦ rw e o
]

-- Every system call that does not fault keeps the following, whatever its number and its arguments, and where
-- it is SYS_FORK or SYS_EXECVE, up to the call of `sys_fork` or `do_execve`: every open file that a
-- descriptor of any process names is in the table of open files and has a count other than 0, and no two
-- descriptors, of one process or of two, name the same open file.
pub syscall_handler-Exclusive :
    (calls : Calls) (s : System) (frame : ℕ) (regs : Registers) (a : Answer)
    → Exclusive s
    → syscall_handler calls s frame regs ≡ done a
    → Exclusive (state a)
unfolding syscall_handler
syscall_handler-Exclusive calls s frame regs a o e =
    Holds-done
      (perform-Holds (Exclusive-Lasts (save_frame s frame) regs (save_frame-Exclusive s frame o))
        (call_of numbers regs.rax))
      e
