-- ===== src/Proc/Sched/Lost.antt =====
-- What kernel/src/proc/sche.c does to a process that is preempted while the ready queue is empty.
use sudo_os.Prelude.{
  ℕ, ◌≡◌, ◌≢◌, inl, inr, Bool, true, false, not, ◌&&◌, refl, sym, ap, subst, ◌∙◌, arith, Option,
  none, some, List, [], ◌∷◌, ◌++◌, ◌==◌, Bool-cases,
}
use sudo_os.Prelude.Words.{add64}
use sudo_os.Prelude.Int.{le_zero}
use sudo_os.Proc.Sched.{
  running, ready, zombie, Pcb, Kernel, is_running, update, requeue_prev, pick_next, dispatch,
  switch_over, schedule, count_tick, timer_callback, kthread_exit, make_ready,
}
use sudo_os.Proc.Sched.Valid.{
  InQueue, InQueue-append, update_hit, update_miss, preempted, current-pick_next,
  requeue_prev_cases,
}
use sudo_os.Proc.Sched.Steps.{Step, tick, yield, exit, spawn}
use sudo_os.Proc.Sched.Fair.{requeue_prev-used, pick_next-cons, switch_over-cons}

-- The kernel that `schedule` leaves then: nothing is queued, and the current process is READY.
abbrev pub stranded : Kernel → Kernel
stranded k = record (preempted (record k { interrupts = false })) {
  ready_queue = [];
  interrupts = k.interrupts;
}

-- An ordinary process whose slice is used up while nothing else is ready stays the current process, but
-- `schedule` leaves it in the state READY and out of the ready queue, and switches to nobody.
pub schedule-alone :
    (k : Kernel)
    → k.current_proc ≢ k.idle_proc
    → (k.proc k.current_proc).state ≡ running
    → le_zero (k.proc k.current_proc).time_slice ≡ true
    → k.ready_queue ≡ []
    → (schedule k ≡ (stranded k, none))
      × (((stranded k).proc (stranded k).current_proc).state ≡ ready)
      × ((stranded k).current_proc ≡ k.current_proc)
unfolding schedule switch_over
schedule-alone k not_idle on used e =
    let k0 = record k { interrupts = false } in
    let self : (k.current_proc == k.current_proc) ≡ true = ground arith in
    (
      rw (requeue_prev-used k0 not_idle on used, schedule)
          (rw
            (pick_next-cons (preempted k0) k.current_proc []
              (ap (λ l. l ++ (k.current_proc ∷ [])) e))
            (rw self)),
      ap Pcb.state (update_hit k.proc k.current_proc _),
      refl,
    )

-- Ticks pass such a process by: they count no time for it and never preempt it.
pub timer_callback-stranded :
    (k : Kernel)
    → (k.proc k.current_proc).state ≡ ready
    → timer_callback k ≡ (record k { ticks = add64 k.ticks 1 }, none)
unfolding timer_callback
timer_callback-stranded k e =
    let off : is_running (k.proc k.current_proc).state ≡ false = ap is_running e in
    let both : (not (k.current_proc == 0) && is_running (k.proc k.current_proc).state) ≡ false =
      ground arith in
    rw both

-- `p` is neither current, nor idle, nor queued.
pub record IsLost (p : ℕ) (k : Kernel) : Type 0 where
  pub not_current : p ≢ k.current_proc
  pub not_idle : p ≢ k.idle_proc
  pub not_queued : ¬ InQueue p k.ready_queue

record Outside (p : ℕ) (k : Kernel) : Type 0 where
  not_idle : p ≢ k.idle_proc
  not_queued : ¬ InQueue p k.ready_queue

record PickedOther (p next : ℕ) (k : Kernel) : Type 0 where
  not_next : p ≢ next
  outside : Outside p k

pick_next-PickedOther :
    (p : ℕ) {k : Kernel} → Outside p k → PickedOther p (pick_next k).0 (pick_next k).1
unfolding pick_next
pick_next-PickedOther p {k} o = go k.ready_queue refl
  where
    go : (l : List ℕ) → k.ready_queue ≡ l → PickedOther p (pick_next k).0 (pick_next k).1
    go [] e =
        rw (e, pick_next)
          (record {
            not_next = o.not_idle;
            outside = record { not_idle = o.not_idle; not_queued = o.not_queued };
          })
    go (n ∷ rest) e =
        rw (e, pick_next)
          (record {
            not_next = λ q. o.not_queued (rw e (inl q));
            outside = record {
              not_idle = o.not_idle;
              not_queued = λ m. o.not_queued (rw e (inr m));
            };
          })

switch_over-IsLost :
    (p : ℕ) (b : Bool) {k : Kernel}
    → p ≢ k.current_proc
    → Outside p k
    → IsLost p (switch_over b k).0
unfolding switch_over dispatch
switch_over-IsLost p b {k} ne o =
    let r = pick_next-PickedOther p o in
    elim (Bool-cases (k.current_proc == (pick_next k).0)) [
      | inl hit ↦ rw hit (record {
        not_current = λ q. ne (q ∙ current-pick_next k);
        not_idle = r.outside.not_idle;
        not_queued = r.outside.not_queued;
      })
      | inr miss ↦ rw miss (record {
        not_current = r.not_next;
        not_idle = r.outside.not_idle;
        not_queued = r.outside.not_queued;
      })
    ]

schedule-IsLost : (p : ℕ) {k : Kernel} → IsLost p k → IsLost p (schedule k).0
unfolding schedule
schedule-IsLost p {k} l = elim (requeue_prev_cases (record k { interrupts = false })) [
  | inl e ↦ rw (e, schedule) (same-IsLost l)
  | inr r ↦ elim r [
    | inl e ↦
        rw (e, schedule)
          (switch_over-IsLost p k.interrupts l.not_current
            (record { not_idle = l.not_idle; not_queued = l.not_queued }))
    | inr (ne, e) ↦
        rw (e, schedule)
          (switch_over-IsLost p k.interrupts l.not_current (record {
            not_idle = l.not_idle;
            not_queued = λ m. elim (InQueue-append p k.current_proc k.ready_queue m) [
              | inl h ↦ l.not_queued h
              | inr q ↦ l.not_current q
            ];
          }))
  ]
]
  where
    same-IsLost : IsLost p k → IsLost p (record k { interrupts = k.interrupts })
    same-IsLost h = h

-- A change of PCBs, flags and ticks alone loses nobody and finds nobody.
moved-IsLost :
    {p : ℕ} {k : Kernel} (l : Kernel)
    → l.current_proc ≡ k.current_proc
    → l.idle_proc ≡ k.idle_proc
    → l.ready_queue ≡ k.ready_queue
    → IsLost p k
    → IsLost p l
moved-IsLost {p} l c i q h = record {
  not_current = λ e. h.not_current (e ∙ c);
  not_idle = λ e. h.not_idle (e ∙ i);
  not_queued = λ m. h.not_queued (subst (λ r. InQueue p r) q m);
}

timer_callback-IsLost : (p : ℕ) {k : Kernel} → IsLost p k → IsLost p (timer_callback k).0
unfolding timer_callback count_tick
timer_callback-IsLost p {k} l =
    elim (Bool-cases (not (k.current_proc == 0) && is_running (k.proc k.current_proc).state)) [
      | inr idle ↦ rw idle (moved-IsLost (record k { ticks = add64 k.ticks 1 }) refl refl refl l)
      | inl counts ↦
          let k2 = count_tick (record k { ticks = add64 k.ticks 1 }) in
          let l2 : IsLost p k2 = moved-IsLost k2 refl refl refl l in
          elim (Bool-cases (le_zero (k2.proc k2.current_proc).time_slice)) [
            | inl used ↦ rw (counts, used) (schedule-IsLost p l2)
            | inr left ↦ rw (counts, left) l2
          ]
    ]

-- A step that does not set `p` up as a new process.
abbrev pub Spares : (p : ℕ) {k l : Kernel} → Step k l → Type 0
Spares p tick = Unit {0}
Spares p yield = Unit
Spares p (exit code) = Unit
Spares p (spawn q c new) = p ≢ q

pub data ReachSparing (p : ℕ) (k : Kernel) : Kernel → Type 0 where
  here : ReachSparing p k k
  next : {l m : Kernel} → ReachSparing p k l → (st : Step l m) → Spares p st → ReachSparing p k m

Step-IsLost : (p : ℕ) {k l : Kernel} (st : Step k l) → Spares p st → IsLost p k → IsLost p l
unfolding kthread_exit make_ready
Step-IsLost p tick sp h = timer_callback-IsLost p h
Step-IsLost p yield sp h = schedule-IsLost p h
Step-IsLost p {k} (exit code) sp h = schedule-IsLost p (
    moved-IsLost
      (record k {
        interrupts = false;
        proc =
            update k.proc k.current_proc
              (record (k.proc k.current_proc) { state = zombie; exit_code = code });
      })
      refl refl refl h)
Step-IsLost p {k} (spawn q c new) sp h = record {
  not_current = h.not_current;
  not_idle = h.not_idle;
  not_queued =
      λ m. elim (InQueue-append p q k.ready_queue m) [ inl l ↦ h.not_queued l | inr e ↦ sp e ];
}

ReachSparing-IsLost : (p : ℕ) {k l : Kernel} → ReachSparing p k l → IsLost p k → IsLost p l
ReachSparing-IsLost p here h = h
ReachSparing-IsLost p (next r st sp) h = Step-IsLost p st sp (ReachSparing-IsLost p r h)

-- A READY process that is current and not queued is dropped by the next `schedule` that finds another
-- process `n` in the queue.
schedule-drops :
    (k : Kernel) (n : ℕ) (rest : List ℕ)
    → k.current_proc ≢ k.idle_proc
    → (k.proc k.current_proc).state ≡ ready
    → ¬ InQueue k.current_proc k.ready_queue
    → k.ready_queue ≡ n ∷ rest
    → IsLost k.current_proc (schedule k).0
unfolding schedule requeue_prev dispatch
schedule-drops k n rest not_idle on out e =
    let k0 = record k { interrupts = false } in
    let off : is_running (k.proc k.current_proc).state ≡ false = ap is_running on in
    let skip : requeue_prev k0 ≡ some k0 = rw off in
    let ne : k.current_proc ≢ n = λ q. out (rw e (inl q)) in
    rw (skip, schedule)
      (rw (switch_over-cons k.interrupts k0 n rest e ne)
        (record { not_current = ne; not_idle = not_idle; not_queued = λ m. out (rw e (inr m)) }))

-- A process that is preempted while it is alone is lost: once another process `n` has become ready and
-- `schedule` is called, then whatever ticks, calls of `schedule`, exits and new processes follow, it never
-- has the processor again and is never in the ready queue, unless its PCB is set up anew.
pub IsLost-when_alone :
    (k : Kernel) (n : ℕ) (c : Pcb) {m : Kernel}
    → k.current_proc ≢ k.idle_proc
    → (k.proc k.current_proc).state ≡ running
    → le_zero (k.proc k.current_proc).time_slice ≡ true
    → k.ready_queue ≡ []
    → n ≢ k.current_proc
    → ReachSparing k.current_proc (schedule (make_ready (schedule k).0 n c)).0 m
    → IsLost k.current_proc m
unfolding make_ready
IsLost-when_alone k n c {m} not_idle on used e ne r =
    let s = schedule-alone k not_idle on used e in
    let k1 = make_ready (stranded k) n c in
    let start =
      schedule-drops k1 n [] not_idle
        (ap Pcb.state (update_miss (stranded k).proc n k.current_proc _ ne) ∙ s.1)
        (λ l. elim l [ inl q ↦ ne (sym q) | inr q ↦ q ]) refl in
    ReachSparing-IsLost k.current_proc
      (subst (λ (t : Kernel). ReachSparing k.current_proc (schedule (make_ready t n c)).0 m)
        (ap (λ (t : Kernel × Option (ℕ × ℕ)). t.0) s.0) r)
      start
