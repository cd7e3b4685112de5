-- ===== src/Proc/Sched.antt =====
-- The scheduler: `schedule` of kernel/src/proc/sche.c, `timer_callback` of kernel/src/arch/timer.c, and
-- the parts of kernel/src/proc/proc.c that end a thread or make a process ready.
-- A process is the address of its PCB, and the PCBs are a function from addresses. The ready queue is
-- the list of the PCBs whose `sched_node` it links, from `ready_queue.next` on; the list is
-- faithful as long as no node is linked twice, which `IsValid` says. `switch_to`, which is assembly, is the
-- pair of its arguments, returned beside the state in which it is called.
mod Tests
pub mod Valid
pub mod Steps
pub mod Fair
pub mod Lost
use sudo_os.Prelude.{
  ℕ, ◌+◌, ◌%◌, ◌^◌, Bool, true, false, not, ◌&&◌, Option, none, some, List, [], ◌∷◌, ◌++◌, ◌==◌,
  if◌then◌else◌,
}
use sudo_os.Prelude.Words.{add64}
use sudo_os.Prelude.Int.{ℤ, pos, decrement, le_zero}

pub data ProcState : Type 0 where
  running ready blocked zombie : ProcState

-- The fields of `pcb_t` that scheduling reads or writes; `mm` is an address, 0 for NULL.
pub record Pcb : Type 0 where
  pub state : ProcState
  pub time_slice : ℤ
  pub total_runtime : ℕ
  pub kstack_base : ℕ
  pub mm : ℕ
  pub exit_code : ℕ

-- The globals, the interrupt flag, `tss.rsp0`, CR3, and the field `pml4_pa` of each address space.
pub record Kernel : Type 0 where
  pub proc : ℕ → Pcb
  pub ready_queue : List ℕ
  pub current_proc : ℕ
  pub idle_proc : ℕ
  pub interrupts : Bool
  pub rsp0 : ℕ
  pub cr3 : ℕ
  pub pml4_pa : ℕ → ℕ
  pub ticks : ℕ

abbrev pub time_slice_default : ℤ
time_slice_default = pos 10

abbrev pub kstack_size : ℕ
kstack_size = 0x4000

abbrev pub is_running : ProcState → Bool
is_running running = true
is_running ready = false
is_running blocked = false
is_running zombie = false

abbrev pub update : (ℕ → Pcb) → ℕ → Pcb → ℕ → Pcb
update f p c q = if p == q then c else f q

-- Part 2 of `schedule`; `none` is the early return of a process with time left.
unfoldable pub requeue_prev : Kernel → Option Kernel
requeue_prev k =
    let prev = k.current_proc in
    let c = k.proc prev in
    if is_running c.state && not (prev == k.idle_proc)
    then (if le_zero c.time_slice
        then some (record k {
          proc = update k.proc prev (record c { state = ready; time_slice = time_slice_default });
          ready_queue = k.ready_queue ++ (prev ∷ []);
        })
        else none)
    else some k

-- Part 3: the head of the queue, or the idle process.
unfoldable pub pick_next : Kernel → ℕ × Kernel
pick_next k = elim k.ready_queue [
  | [] ↦ (
    k.idle_proc,
    record k {
      proc =
          update k.proc k.idle_proc
            (record (k.proc k.idle_proc) { state = running; time_slice = time_slice_default });
    },
  )
  | next ∷ rest ↦ (next, record k { ready_queue = rest })
]

-- Part 4, up to the call of `switch_to`.
unfoldable pub dispatch : Kernel → ℕ → ℕ → Kernel
dispatch k prev next =
    let c = k.proc next in
    let old = k.proc prev in
    record k {
      proc = update k.proc next (record c { state = running; time_slice = time_slice_default });
      current_proc = next;
      rsp0 = add64 c.kstack_base kstack_size;
      cr3 =
          if not (c.mm == 0)
          then (if old.mm == 0
              then k.pml4_pa c.mm
              else (if old.mm == c.mm then k.cr3 else k.pml4_pa c.mm))
          else k.cr3;
    }

-- What follows part 2, for the interrupt flag found on entry.
unfoldable pub switch_over : Bool → Kernel → Kernel × Option (ℕ × ℕ)
switch_over enabled k =
    let prev = k.current_proc in
    let (next, k') = pick_next k in
    if prev == next
    then (record k' { interrupts = enabled }, none)
    else (dispatch k' prev next, some (prev, next))

-- The state at the call of `switch_to` with its arguments (interrupts are off there), or the state on
-- return where the process goes on.
unfoldable pub schedule : Kernel → Kernel × Option (ℕ × ℕ)
schedule k = elim (requeue_prev (record k { interrupts = false })) [
  | none ↦ (record k { interrupts = k.interrupts }, none)
  | some k' ↦ switch_over k.interrupts k'
]

-- The bookkeeping of a tick.
unfoldable pub count_tick : Kernel → Kernel
count_tick k =
    let c = k.proc k.current_proc in
    record k {
      proc = update k.proc k.current_proc (record c {
        total_runtime = add64 c.total_runtime 1;
        time_slice = decrement c.time_slice;
      });
    }

-- `timer_callback`
unfoldable pub timer_callback : Kernel → Kernel × Option (ℕ × ℕ)
timer_callback k =
    let k1 = record k { ticks = add64 k.ticks 1 } in
    if not (k.current_proc == 0) && is_running (k.proc k.current_proc).state
    then (let k2 = count_tick k1 in
        if le_zero (k2.proc k2.current_proc).time_slice then schedule k2 else (k2, none))
    else (k1, none)

-- `kthread_exit`, and the system call SYS_EXIT: the current process becomes a zombie.
unfoldable pub kthread_exit : Kernel → ℕ → Kernel × Option (ℕ × ℕ)
kthread_exit k code =
    let c = k.proc k.current_proc in
    schedule (record k {
      interrupts = false;
      proc = update k.proc k.current_proc (record c { state = zombie; exit_code = code });
    })

-- The end of `kthread_create`, `create_user_process` and `sys_fork`: a new PCB joins the queue's end.
unfoldable pub make_ready : Kernel → ℕ → Pcb → Kernel
make_ready k p c = record k {
  proc = update k.proc p (record c { state = ready });
  ready_queue = k.ready_queue ++ (p ∷ []);
}
