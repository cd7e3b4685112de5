-- ===== src/Proc/Sched/Tests.antt =====
-- Concrete runs of kernel/src/proc/sche.c.
use sudo_os.Prelude.{
  ℕ, ◌+◌, ◌*◌, ◌≡◌, ◌≢◌, inl, inr, true, refl, arith, none, List, [], ◌∷◌, ◌==◌, if◌then◌else◌,
}
use sudo_os.Prelude.Words.{add64}
use sudo_os.Prelude.Int.{ℤ, pos}
use sudo_os.Proc.Sched.{
  ProcState, running, ready, Pcb, Kernel, schedule, timer_callback, make_ready,
}
use sudo_os.Proc.Sched.Valid.{IsValid, InQueue, schedule-IsValid}
use sudo_os.Proc.Sched.Steps.{here, next, tick, yield, Reach-IsValid}
use sudo_os.Proc.Sched.Fair.{Runs, after_ticks, after_ticks-turn}
use sudo_os.Proc.Sched.Lost.{
  stranded, IsLost, schedule-alone, timer_callback-stranded, IsLost-when_alone,
}
use sudo_os.Proc.Sched.Lost

abbrev pcb : ProcState → ℤ → Pcb
pcb s slice = record {
  state = s;
  time_slice = slice;
  total_runtime = 0;
  kstack_base = 0;
  mm = 0;
  exit_code = 0;
}

-- Process 1 is idle, 2 is current with the given slice, the others are ready.
abbrev pcbs : ℤ → ℕ → Pcb
pcbs slice p =
    if p == 1
    then pcb running (pos 10)
    else (if p == 2 then pcb running slice else pcb ready (pos 10))

abbrev kernel : List ℕ → ℤ → Kernel
kernel queue slice = record {
  proc = pcbs slice;
  ready_queue = queue;
  current_proc = 2;
  idle_proc = 1;
  interrupts = true;
  rsp0 = 0;
  cr3 = 0;
  pml4_pa = λ a. a;
  ticks = 0;
}

abbrev queue_3_4 : List ℕ
queue_3_4 = 3 ∷ 4 ∷ []

queued : (p : ℕ) → InQueue p queue_3_4 → (pcbs (pos 10) p).state ≡ ready
queued p (inl e) = rw e
queued p (inr (inl e)) = rw e
queued p (inr (inr m)) = absurd m

apart : (p : ℕ) → p ≢ 3 → p ≢ 4 → ¬ InQueue p queue_3_4
apart p n3 n4 (inl e) = n3 e
apart p n3 n4 (inr (inl e)) = n4 e
apart p n3 n4 (inr (inr m)) = m

fresh_slice-IsValid : IsValid (kernel queue_3_4 (pos 10))
fresh_slice-IsValid = record {
  distinct = ((λ m. elim m [ inl e ↦ absurd (omega arith) | inr l ↦ l ]), ((λ m. m), tt));
  all_ready = queued;
  current_out = apart 2 (λ e. absurd (omega arith)) (λ e. absurd (omega arith));
  idle_out = apart 1 (λ e. absurd (omega arith)) (λ e. absurd (omega arith));
  idle_not_ready = λ e. cc e;
}

fresh_slice-Runs : Runs 10 (kernel queue_3_4 (pos 10))
fresh_slice-Runs = record {
  valid = fresh_slice-IsValid;
  nonnull = λ e. absurd (omega arith);
  queue_nonnull = apart 0 (λ e. absurd (omega arith)) (λ e. absurd (omega arith));
  not_idle = λ e. absurd (omega arith);
  is_on = refl;
  slice = refl;
}

schedule-IsValid_example : IsValid (schedule (kernel queue_3_4 (pos 10))).0
schedule-IsValid_example = schedule-IsValid fresh_slice-IsValid

-- A tick, then the exit of the current process, then a call of `schedule`.
abbrev ticked : Kernel
ticked = (timer_callback (kernel queue_3_4 (pos 10))).0

Reach-IsValid_example : IsValid (schedule ticked).0
Reach-IsValid_example = Reach-IsValid (next (next here tick) yield) fresh_slice-IsValid

after_ticks-turn_example :
    let k = after_ticks (10 * (1 + 1)) (kernel queue_3_4 (pos 10)) in
    Runs 10 k × (k.current_proc ≡ 4)
after_ticks-turn_example = after_ticks-turn 1 (kernel queue_3_4 (pos 10)) fresh_slice-Runs refl

schedule-alone_example :
    (schedule (kernel [] (pos 0)) ≡ (stranded (kernel [] (pos 0)), none))
    × (((stranded (kernel [] (pos 0))).proc (stranded (kernel [] (pos 0))).current_proc).state
        ≡ ready)
    × ((stranded (kernel [] (pos 0))).current_proc ≡ 2)
schedule-alone_example =
    schedule-alone (kernel [] (pos 0)) (λ e. absurd (omega arith)) refl refl refl

timer_callback-stranded_example :
    timer_callback (stranded (kernel [] (pos 0)))
    ≡ (record (stranded (kernel [] (pos 0))) { ticks = add64 0 1 }, none)
timer_callback-stranded_example = timer_callback-stranded (stranded (kernel [] (pos 0))) refl

IsLost-when_alone_example :
    IsLost 2 (schedule (make_ready (schedule (kernel [] (pos 0))).0 3 (pcb ready (pos 10)))).0
IsLost-when_alone_example =
    IsLost-when_alone (kernel [] (pos 0)) 3 (pcb ready (pos 10)) (λ e. absurd (omega arith)) refl
      refl refl (λ e. absurd (omega arith)) Lost.here
