-- ===== src/Proc/Sched/Steps.antt =====
-- Sequences of ticks, calls of `schedule`, exits and new processes in kernel/src/proc/sche.c, and the
-- invariant of the ready queue along them.
use sudo_os.Prelude.{ℕ, ◌≡◌, ◌≢◌, inl, inr, false, not, ◌&&◌, sym, ap, ◌∙◌, arith, ◌==◌, Bool-cases}
use native.Mathlib.Decide.{ℕ_discrete}
use sudo_os.Prelude.Words.{add64}
use sudo_os.Prelude.Int.{le_zero}
use sudo_os.Proc.Sched.{
  ready, Pcb, Kernel, is_running, update, schedule, count_tick, timer_callback, kthread_exit,
  make_ready,
}
use sudo_os.Proc.Sched.Valid.{
  IsValid, InQueue, InQueue-append, Distinct-append, update_miss, flag-IsValid, ticks-IsValid,
  schedule-IsValid,
}

-- A change of one PCB that is not in the queue, and does not make the idle process READY.
pub change-IsValid :
    {k : Kernel} (p : ℕ) (c : Pcb)
    → IsValid k
    → ¬ InQueue p k.ready_queue
    → (p ≡ k.idle_proc → c.state ≢ ready)
    → IsValid (record k { proc = update k.proc p c })
change-IsValid {k} p c v out idle = record {
  distinct = v.distinct;
  all_ready = λ r m. elim (ℕ_discrete p r) [
    | yes e ↦ absurd (out (rw e m))
    | no ne ↦ ap Pcb.state (update_miss k.proc p r c ne) ∙ v.all_ready r m
  ];
  current_out = v.current_out;
  idle_out = v.idle_out;
  idle_not_ready = λ h. elim (ℕ_discrete p k.idle_proc) [
    | yes e ↦ idle e (ground arith)
    | no ne ↦ v.idle_not_ready (sym (ap Pcb.state (update_miss k.proc p k.idle_proc c ne)) ∙ h)
  ];
}

count_tick-IsValid : {k : Kernel} → IsValid k → IsValid (count_tick k)
unfolding count_tick
count_tick-IsValid {k} v =
    change-IsValid k.current_proc _ v v.current_out (λ e h. v.idle_not_ready (ground arith))

pub timer_callback-IsValid : {k : Kernel} → IsValid k → IsValid (timer_callback k).0
unfolding timer_callback
timer_callback-IsValid {k} v =
    let v1 = ticks-IsValid (add64 k.ticks 1) v in
    elim (Bool-cases (not (k.current_proc == 0) && is_running (k.proc k.current_proc).state)) [
      | inr idle ↦ rw idle v1
      | inl counts ↦
          let k2 = count_tick (record k { ticks = add64 k.ticks 1 }) in
          let v2 : IsValid k2 = count_tick-IsValid v1 in
          elim (Bool-cases (le_zero (k2.proc k2.current_proc).time_slice)) [
            | inl used ↦ rw (counts, used) (schedule-IsValid v2)
            | inr left ↦ rw (counts, left) v2
          ]
    ]

pub kthread_exit-IsValid : {k : Kernel} (code : ℕ) → IsValid k → IsValid (kthread_exit k code).0
unfolding kthread_exit
kthread_exit-IsValid {k} code v =
    schedule-IsValid
      (change-IsValid k.current_proc _ (flag-IsValid false v) v.current_out (λ _ h. cc h))

-- A new process: its PCB is neither current, nor idle, nor queued.
pub record IsNew (k : Kernel) (p : ℕ) : Type 0 where
  pub not_current : p ≢ k.current_proc
  pub not_idle : p ≢ k.idle_proc
  pub not_queued : ¬ InQueue p k.ready_queue

pub make_ready-IsValid :
    {k : Kernel} {p : ℕ} (c : Pcb) → IsNew k p → IsValid k → IsValid (make_ready k p c)
unfolding make_ready
make_ready-IsValid {k} {p} c new v = record {
  distinct = Distinct-append p k.ready_queue v.distinct new.not_queued;
  all_ready = λ r m. elim (ℕ_discrete p r) [
    | yes e ↦ ground arith
    | no ne ↦ elim (InQueue-append r p k.ready_queue m) [
      | inl l ↦ ap Pcb.state (update_miss k.proc p r _ ne) ∙ v.all_ready r l
      | inr e ↦ absurd (ne (sym e))
    ]
  ];
  current_out = λ m. elim (InQueue-append k.current_proc p k.ready_queue m) [
    | inl l ↦ v.current_out l
    | inr e ↦ new.not_current (sym e)
  ];
  idle_out = λ m. elim (InQueue-append k.idle_proc p k.ready_queue m) [
    | inl l ↦ v.idle_out l
    | inr e ↦ new.not_idle (sym e)
  ];
  idle_not_ready = λ h.
      v.idle_not_ready (sym (ap Pcb.state (update_miss k.proc p k.idle_proc _ new.not_idle)) ∙ h);
}

-- What happens to the scheduler: a tick, a call of `schedule`, an exit, a new process.
pub data Step (k : Kernel) : Kernel → Type 0 where
  tick : Step k (timer_callback k).0
  yield : Step k (schedule k).0
  exit : (code : ℕ) → Step k (kthread_exit k code).0
  spawn : (p : ℕ) (c : Pcb) → IsNew k p → Step k (make_ready k p c)

pub data Reach (k : Kernel) : Kernel → Type 0 where
  here : Reach k k
  next : {l m : Kernel} → Reach k l → Step l m → Reach k m

Step-IsValid : {k l : Kernel} → Step k l → IsValid k → IsValid l
Step-IsValid tick v = timer_callback-IsValid v
Step-IsValid yield v = schedule-IsValid v
Step-IsValid (exit code) v = kthread_exit-IsValid code v
Step-IsValid (spawn p c new) v = make_ready-IsValid c new v

-- Along any sequence of ticks, calls of `schedule`, exits and new processes the ready queue holds only
-- processes in the state READY, none of them twice, and never the current or the idle process: no
-- `sched_node` is linked into the queue twice.
pub Reach-IsValid : {k l : Kernel} → Reach k l → IsValid k → IsValid l
Reach-IsValid here v = v
Reach-IsValid (next r st) v = Step-IsValid st (Reach-IsValid r v)
