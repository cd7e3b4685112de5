-- ===== src/Proc/Sched/Valid.antt =====
-- The invariant of the ready queue of kernel/src/proc/sche.c, for a call of `schedule`.
use sudo_os.Prelude.{
  ℕ, ◌≡◌, ◌≢◌, ◌⊎◌, inl, inr, Bool, true, false, refl, sym, ap, subst, ◌∙◌, arith, none, some, List,
  [], ◌∷◌, ◌++◌, ◌==◌, Bool-cases,
}
use native.Mathlib.Decide.{ℕ_discrete}
use sudo_os.Prelude.Int.{le_zero}
use sudo_os.Proc.Sched.{
  running, ready, Pcb, Kernel, is_running, update, requeue_prev, pick_next, dispatch, switch_over,
  schedule, time_slice_default,
}

abbrev pub InQueue : ℕ → List ℕ → Type 0
InQueue p [] = ⊥
InQueue p (q ∷ qs) = (p ≡ q) ⊎ InQueue p qs

abbrev pub Distinct : List ℕ → Type 0
Distinct [] = Unit
Distinct (q ∷ qs) = (¬ InQueue q qs) × Distinct qs

-- The queue holds processes in the state READY, each once, and neither the current nor the idle one.
pub record IsValid (k : Kernel) : Type 0 where
  pub distinct : Distinct k.ready_queue
  pub all_ready : (p : ℕ) → InQueue p k.ready_queue → (k.proc p).state ≡ ready
  pub current_out : ¬ InQueue k.current_proc k.ready_queue
  pub idle_out : ¬ InQueue k.idle_proc k.ready_queue
  pub idle_not_ready : (k.proc k.idle_proc).state ≢ ready

pub InQueue-append : (p r : ℕ) (qs : List ℕ) → InQueue p (qs ++ (r ∷ [])) → InQueue p qs ⊎ (p ≡ r)
InQueue-append p r [] (inl e) = inr e
InQueue-append p r [] (inr m) = absurd m
InQueue-append p r (q ∷ qs) (inl e) = inl (inl e)
InQueue-append p r (q ∷ qs) (inr m) = elim (InQueue-append p r qs m) [
  | inl l ↦ inl (inr l)
  | inr e ↦ inr e
]

pub Distinct-append :
    (r : ℕ) (qs : List ℕ) → Distinct qs → ¬ InQueue r qs → Distinct (qs ++ (r ∷ []))
Distinct-append r [] d out = (λ m. m, tt)
Distinct-append r (q ∷ qs) d out = (
  λ m. elim (InQueue-append q r qs m) [ inl l ↦ d.0 l | inr e ↦ out (inl (sym e)) ],
  Distinct-append r qs d.1 (λ m. out (inr m)),
)

-- The same but for the current process, which may be in the queue between the parts of `schedule`.
record Queued (k : Kernel) : Type 0 where
  distinct : Distinct k.ready_queue
  all_ready : (p : ℕ) → InQueue p k.ready_queue → (k.proc p).state ≡ ready
  idle_out : ¬ InQueue k.idle_proc k.ready_queue
  idle_not_ready : (k.proc k.idle_proc).state ≢ ready

-- The kernel after part 2 of `schedule`, where the current process has used its slice up.
abbrev pub preempted : Kernel → Kernel
preempted k = record k {
  proc =
      update k.proc k.current_proc
        (record (k.proc k.current_proc) { state = ready; time_slice = time_slice_default });
  ready_queue = k.ready_queue ++ (k.current_proc ∷ []);
}

-- The three outcomes of part 2.
pub requeue_prev_cases :
    (k : Kernel)
    → (requeue_prev k ≡ none)
      ⊎ (requeue_prev k ≡ some k)
      ⊎ ((k.current_proc ≢ k.idle_proc) × (requeue_prev k ≡ some (preempted k)))
unfolding requeue_prev
requeue_prev_cases k = elim (ℕ_discrete k.current_proc k.idle_proc) [
  | yes e ↦
      let hit : (k.current_proc == k.idle_proc) ≡ true = ground arith in
      elim (Bool-cases (is_running (k.proc k.current_proc).state)) [
        | inl r ↦ inr (inl (rw (r, hit)))
        | inr r ↦ inr (inl (rw r))
      ]
  | no ne ↦
      let miss : (k.current_proc == k.idle_proc) ≡ false = ground arith in
      elim (Bool-cases (is_running (k.proc k.current_proc).state)) [
        | inr r ↦ inr (inl (rw r))
        | inl r ↦ elim (Bool-cases (le_zero (k.proc k.current_proc).time_slice)) [
          | inl used ↦ inr (inr (ne, rw (r, miss, used)))
          | inr left ↦ inl (rw (r, miss, left))
        ]
      ]
]

pub update_hit : (f : ℕ → Pcb) (p : ℕ) (c : Pcb) → update f p c p ≡ c
update_hit f p c = ground arith

pub update_miss : (f : ℕ → Pcb) (p q : ℕ) (c : Pcb) → p ≢ q → update f p c q ≡ f q
update_miss f p q c ne = ground arith

module _ {k : Kernel} (v : IsValid k) where
  IsValid-Queued : Queued k
  IsValid-Queued = record {
    distinct = v.distinct;
    all_ready = v.all_ready;
    idle_out = v.idle_out;
    idle_not_ready = v.idle_not_ready;
  }

  preempted-Queued : k.current_proc ≢ k.idle_proc → Queued (preempted k)
  preempted-Queued ne = record {
    distinct = Distinct-append k.current_proc k.ready_queue v.distinct v.current_out;
    all_ready = λ p m. elim (ℕ_discrete k.current_proc p) [
      | yes e ↦ ground arith
      | no other ↦ elim (InQueue-append p k.current_proc k.ready_queue m) [
        | inl l ↦ ap Pcb.state (update_miss k.proc k.current_proc p _ other) ∙ v.all_ready p l
        | inr e ↦ absurd (other (sym e))
      ]
    ];
    idle_out = λ m. elim (InQueue-append k.idle_proc k.current_proc k.ready_queue m) [
      | inl l ↦ v.idle_out l
      | inr e ↦ ne (sym e)
    ];
    idle_not_ready = λ e.
        v.idle_not_ready
          (sym (ap Pcb.state (update_miss k.proc k.current_proc k.idle_proc _ ne)) ∙ e);
  }

-- What part 3 picks: a process that is no longer queued.
record Picked (next : ℕ) (k : Kernel) : Type 0 where
  queued : Queued k
  next_out : ¬ InQueue next k.ready_queue

running≢ready : running ≢ ready
running≢ready e = cc e

pick_next-Picked : {k : Kernel} → Queued k → Picked (pick_next k).0 (pick_next k).1
unfolding pick_next
pick_next-Picked {k} q = go k.ready_queue refl
  where
    go : (l : List ℕ) → k.ready_queue ≡ l → Picked (pick_next k).0 (pick_next k).1
    go [] e =
        let nobody : (p : ℕ) → ¬ InQueue p k.ready_queue = λ p m. rw e at m in
        rw (e, pick_next)
          (record {
            queued = record {
              distinct = q.distinct;
              all_ready = λ p m. absurd (nobody p m);
              idle_out = nobody k.idle_proc;
              idle_not_ready =
                  λ h. running≢ready (sym (ap Pcb.state (update_hit k.proc k.idle_proc _)) ∙ h);
            };
            next_out = nobody k.idle_proc;
          })
    go (n ∷ rest) e =
        let d : Distinct (n ∷ rest) = rw e at q.distinct in
        rw (e, pick_next)
          (record {
            queued = record {
              distinct = d.1;
              all_ready = λ p m. q.all_ready p (rw e (inr m));
              idle_out = λ m. q.idle_out (rw e (inr m));
              idle_not_ready = q.idle_not_ready;
            };
            next_out = d.0;
          })

-- A queued kernel whose current process is not in the queue is valid, whatever its other fields.
Queued-IsValid : {k : Kernel} → Queued k → ¬ InQueue k.current_proc k.ready_queue → IsValid k
Queued-IsValid q out = record {
  distinct = q.distinct;
  all_ready = q.all_ready;
  current_out = out;
  idle_out = q.idle_out;
  idle_not_ready = q.idle_not_ready;
}

pub flag-IsValid : {k : Kernel} (b : Bool) → IsValid k → IsValid (record k { interrupts = b })
flag-IsValid b v = record {
  distinct = v.distinct;
  all_ready = v.all_ready;
  current_out = v.current_out;
  idle_out = v.idle_out;
  idle_not_ready = v.idle_not_ready;
}

pub ticks-IsValid : {k : Kernel} (n : ℕ) → IsValid k → IsValid (record k { ticks = n })
ticks-IsValid n v = record {
  distinct = v.distinct;
  all_ready = v.all_ready;
  current_out = v.current_out;
  idle_out = v.idle_out;
  idle_not_ready = v.idle_not_ready;
}

dispatch-IsValid : {k : Kernel} (prev next : ℕ) → Picked next k → IsValid (dispatch k prev next)
unfolding dispatch
dispatch-IsValid {k} prev next p = record {
  distinct = p.queued.distinct;
  all_ready = λ r m. elim (ℕ_discrete next r) [
    | yes e ↦ absurd (p.next_out (rw e m))
    | no ne ↦ ap Pcb.state (update_miss k.proc next r _ ne) ∙ p.queued.all_ready r m
  ];
  current_out = p.next_out;
  idle_out = p.queued.idle_out;
  idle_not_ready = λ h. elim (ℕ_discrete next k.idle_proc) [
    | yes e ↦ ground arith
    | no ne ↦
        p.queued.idle_not_ready (sym (ap Pcb.state (update_miss k.proc next k.idle_proc _ ne)) ∙ h)
  ];
}

pub current-pick_next : (k : Kernel) → (pick_next k).1.current_proc ≡ k.current_proc
unfolding pick_next
current-pick_next k = ground arith

switch_over-IsValid : {k : Kernel} (b : Bool) → Queued k → IsValid (switch_over b k).0
unfolding switch_over
switch_over-IsValid {k} b q =
    let p = pick_next-Picked q in
    elim (ℕ_discrete k.current_proc (pick_next k).0) [
      | yes e ↦
          let hit : (k.current_proc == (pick_next k).0) ≡ true = ground arith in
          rw hit (
            flag-IsValid b (
              Queued-IsValid p.queued λ m.
                p.next_out
                  (subst (λ c. InQueue c (pick_next k).1.ready_queue) (current-pick_next k ∙ e) m)))
      | no ne ↦
          let miss : (k.current_proc == (pick_next k).0) ≡ false = ground arith in
          rw miss (dispatch-IsValid k.current_proc (pick_next k).0 p)
    ]

-- `schedule` keeps the queue's invariant, whatever the state of the current process.
pub schedule-IsValid : {k : Kernel} → IsValid k → IsValid (schedule k).0
unfolding schedule
schedule-IsValid {k} v =
    let v' = flag-IsValid false v in
    elim (requeue_prev_cases (record k { interrupts = false })) [
      | inl e ↦ rw (e, schedule) (flag-IsValid k.interrupts v)
      | inr r ↦ elim r [
        | inl e ↦ rw (e, schedule) (switch_over-IsValid k.interrupts (IsValid-Queued v'))
        | inr (ne, e) ↦ rw (e, schedule) (switch_over-IsValid k.interrupts (preempted-Queued v' ne))
      ]
    ]
