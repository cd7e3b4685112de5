-- ===== src/Arch/Syscall/Alone.antt =====
-- System calls of kernel/src/arch/interrupts.c on a valid system: the invariants of the components.
use sudo_os.Prelude.{ℕ, ◌≡◌, ◌==◌, Bool-cases, inl, inr, subst}
use sudo_os.Proc.Sched.{Kernel}
use sudo_os.Proc.Sched.Valid as Queue_of
use sudo_os.Proc.Sched.Valid.{schedule-IsValid}
use sudo_os.Proc.Sched.Steps.{change-IsValid}
use sudo_os.Drivers.Keyboard.Queue as Keys
use sudo_os.Drivers.Keyboard.Queue.{keyboard_get_char-IsValid}
use sudo_os.Drivers.Console.History as Screen
use sudo_os.Drivers.Console.History.{kprint-IsValid}
use sudo_os.Fs.Ramfs.{Outcome, done}
use sudo_os.Arch.System.{System, current, Registers, Answer, Calls}
use sudo_os.Arch.Syscall.{syscall_handler, save_frame, made_zombie, call_of, numbers}
use sudo_os.Arch.Syscall.Keeps.{state, Holds, leaves, Lasts, perform-Holds}

-- The invariants of the scheduler's queue, the keyboard's buffer and the console.
pub record IsValid (s : System) : Type 0 where
  pub queue : Queue_of.IsValid s.kernel
  pub keys : Keys.IsValid s.keyboard
  pub screen : Screen.IsValid s.console

pub Holds-done :
    {P : System → Type 0} {o : Outcome Answer} {a : Answer} → Holds P o → o ≡ done a → P (state a)
Holds-done {P} {o} {a} h e = inverted (subst (Holds P) e h)
  where
    inverted : Holds P (done a) → P (state a)
    inverted (leaves p) = p

made_zombie-IsValid :
    {k : Kernel} (code : ℕ) → Queue_of.IsValid k → Queue_of.IsValid (made_zombie k code)
made_zombie-IsValid {k} code v = change-IsValid k.current_proc _ v v.current_out (λ _ h. cc h)

IsValid-Lasts :
    {calls : Calls} {s : System} (regs : Registers) → IsValid s → Lasts calls s regs IsValid
IsValid-Lasts {calls} {s} regs v = record {
  now = v;
  keys = record { queue = v.queue; keys = keyboard_get_char-IsValid v.keys; screen = v.screen };
  prints = λ text. record { queue = v.queue; keys = v.keys; screen = kprint-IsValid text v.screen };
  on_files = λ fs step. record { queue = v.queue; keys = v.keys; screen = v.screen };
  breaks = λ n. record { queue = v.queue; keys = v.keys; screen = v.screen };
  yields = record { queue = schedule-IsValid v.queue; keys = v.keys; screen = v.screen };
  exits = λ code text. record {
    queue = schedule-IsValid (made_zombie-IsValid code v.queue);
    keys = v.keys;
    screen = kprint-IsValid text v.screen;
  };
}

save_frame-IsValid : {s : System} (frame : ℕ) → IsValid s → IsValid (save_frame s frame)
save_frame-IsValid {s} frame v = elim (Bool-cases (current s == 0)) [
  | inl e ↦ rw e v
  | inr e ↦ rw e (record { queue = v.queue; keys = v.keys; screen = v.screen })
]

-- Every system call that does not fault keeps the invariants of the scheduler's queue, the keyboard's buffer and
-- the console, whatever its number and its arguments; where it is SYS_FORK or SYS_EXECVE, up to the call of
-- `sys_fork` or `do_execve`.
pub syscall_handler-IsValid :
    (calls : Calls) (s : System) (frame : ℕ) (regs : Registers) (a : Answer)
    → IsValid s
    → syscall_handler calls s frame regs ≡ done a
    → IsValid (state a)
unfolding syscall_handler
syscall_handler-IsValid calls s frame regs a v e =
    Holds-done
      (perform-Holds (IsValid-Lasts regs (save_frame-IsValid frame v)) (call_of numbers regs.rax)) e
