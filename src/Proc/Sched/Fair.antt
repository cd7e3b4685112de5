-- ===== src/Proc/Sched/Fair.antt =====
-- Round robin in kernel/src/proc/sche.c, with nothing but ticks.
use sudo_os.Prelude.{
  ℕ, zero, suc, ◌+◌, ◌*◌, ◌≡◌, ◌≢◌, inl, inr, Bool, true, false, refl, sym, ap, ◌∙◌, arith, none,
  some, List, [], ◌∷◌, ◌++◌, ◌==◌, if◌then◌else◌, get_elem?,
}
use sudo_os.Prelude.Words.{add64}
use sudo_os.Prelude.Int.{pos, le_zero, decrement}
use sudo_os.Proc.Sched.{
  running, Pcb, Kernel, is_running, requeue_prev, pick_next, dispatch, switch_over, schedule,
  count_tick, timer_callback,
}
use sudo_os.Proc.Sched.Valid.{IsValid, InQueue, InQueue-append, update_hit, preempted}
use sudo_os.Proc.Sched.Steps.{timer_callback-IsValid}

-- An ordinary process runs with `m` ticks left, and no queued PCB is NULL.
pub record Runs (m : ℕ) (k : Kernel) : Type 0 where
  pub valid : IsValid k
  pub nonnull : k.current_proc ≢ 0
  pub queue_nonnull : ¬ InQueue 0 k.ready_queue
  pub not_idle : k.current_proc ≢ k.idle_proc
  pub is_on : (k.proc k.current_proc).state ≡ running
  pub slice : (k.proc k.current_proc).time_slice ≡ pos m

abbrev ticked : Kernel → Kernel
ticked k = count_tick (record k { ticks = add64 k.ticks 1 })

-- The slice after the tick, and the fields that a tick leaves alone.
ticked-fields :
    (k : Kernel)
    → ((ticked k).ready_queue ≡ k.ready_queue)
      × ((ticked k).current_proc ≡ k.current_proc)
      × ((ticked k).idle_proc ≡ k.idle_proc)
      × (((ticked k).proc k.current_proc).state ≡ (k.proc k.current_proc).state)
      × (((ticked k).proc k.current_proc).time_slice ≡ decrement (k.proc k.current_proc).time_slice)
unfolding count_tick
ticked-fields k = (
  refl,
  refl,
  refl,
  ap Pcb.state (update_hit k.proc k.current_proc _),
  ap Pcb.time_slice (update_hit k.proc k.current_proc _),
)

-- The slice after a tick with `m + 1` left.
ticked-slice :
    {m : ℕ} {k : Kernel}
    → Runs (suc m) k
    → ((ticked k).proc (ticked k).current_proc).time_slice ≡ pos m
unfolding count_tick
ticked-slice {m} {k} r =
    ap Pcb.time_slice (update_hit k.proc k.current_proc _) ∙ ap decrement r.slice

ticked-is_on :
    {m : ℕ} {k : Kernel} → Runs m k → ((ticked k).proc (ticked k).current_proc).state ≡ running
unfolding count_tick
ticked-is_on {m} {k} r = ap Pcb.state (update_hit k.proc k.current_proc _) ∙ r.is_on

timer_callback-Runs :
    {m : ℕ} {k : Kernel}
    → Runs (suc m) k
    → timer_callback k ≡ (if le_zero (pos m) then schedule (ticked k) else (ticked k, none))
unfolding timer_callback
timer_callback-Runs {m} {k} r =
    let nn : (k.current_proc == 0) ≡ false = ground (arith, r.nonnull) in
    let on : is_running (k.proc k.current_proc).state ≡ true = ap is_running r.is_on in
    rw (nn, on)
      (ap (λ t. if le_zero t then schedule (ticked k) else (ticked k, none)) (ticked-slice r))

-- With more than one tick left the process goes on, with the same queue.
wait :
    {m : ℕ} {k : Kernel}
    → Runs (suc (suc m)) k
    → let k' = (timer_callback k).0 in
      Runs (suc m) k' × (k'.ready_queue ≡ k.ready_queue) × (k'.current_proc ≡ k.current_proc)
unfolding count_tick
wait {m} {k} r = rw (timer_callback-Runs r) (
  record {
    valid = rw (timer_callback-Runs r) at (timer_callback-IsValid r.valid);
    nonnull = r.nonnull;
    queue_nonnull = r.queue_nonnull;
    not_idle = r.not_idle;
    is_on = ticked-is_on r;
    slice = ticked-slice r;
  },
  refl,
  refl,
)

pub requeue_prev-used :
    (k : Kernel)
    → k.current_proc ≢ k.idle_proc
    → (k.proc k.current_proc).state ≡ running
    → le_zero (k.proc k.current_proc).time_slice ≡ true
    → requeue_prev k ≡ some (preempted k)
unfolding requeue_prev
requeue_prev-used k not_idle on used =
    let on' : is_running (k.proc k.current_proc).state ≡ true = ap is_running on in
    let miss : (k.current_proc == k.idle_proc) ≡ false = ground arith in rw (on', miss, used)

pub pick_next-cons :
    (k : Kernel) (next : ℕ) (rest : List ℕ)
    → k.ready_queue ≡ next ∷ rest
    → pick_next k ≡ (next, record k { ready_queue = rest })
unfolding pick_next
pick_next-cons k next rest e = rw (e, pick_next)

pub switch_over-cons :
    (b : Bool) (k : Kernel) (next : ℕ) (rest : List ℕ)
    → k.ready_queue ≡ next ∷ rest
    → k.current_proc ≢ next
    → switch_over b k ≡ (
      dispatch (record k { ready_queue = rest }) k.current_proc next,
      some (k.current_proc, next),
    )
unfolding switch_over
switch_over-cons b k next rest e apart =
    let miss : (k.current_proc == next) ≡ false = ground arith in
    rw (pick_next-cons k next rest e) (rw miss)

-- The kernel once the current process has been preempted and `next` dispatched.
abbrev pub handed_over : Kernel → ℕ → List ℕ → Kernel
handed_over k next rest =
    dispatch
      (record (preempted (record k { interrupts = false })) {
        ready_queue = rest ++ (k.current_proc ∷ []);
      })
      k.current_proc next

-- A process whose slice is used up goes to the end of the queue, and the head of the queue gets the
-- processor: `switch_to` is called for the two.
schedule-preempt :
    (k : Kernel) (next : ℕ) (rest : List ℕ)
    → k.current_proc ≢ k.idle_proc
    → (k.proc k.current_proc).state ≡ running
    → le_zero (k.proc k.current_proc).time_slice ≡ true
    → k.current_proc ≢ next
    → k.ready_queue ≡ next ∷ rest
    → schedule k ≡ (handed_over k next rest, some (k.current_proc, next))
unfolding schedule
schedule-preempt k next rest not_idle on used apart e =
    rw (requeue_prev-used (record k { interrupts = false }) not_idle on used, schedule)
      (switch_over-cons k.interrupts (preempted (record k { interrupts = false })) next
        (rest ++ (k.current_proc ∷ [])) (ap (λ l. l ++ (k.current_proc ∷ [])) e) apart)

handed_over-fields :
    (k : Kernel) (next : ℕ) (rest : List ℕ)
    → let k' = handed_over k next rest in
      (k'.current_proc ≡ next)
      × (k'.ready_queue ≡ rest ++ (k.current_proc ∷ []))
      × (k'.idle_proc ≡ k.idle_proc)
      × ((k'.proc k'.current_proc).state ≡ running)
      × ((k'.proc k'.current_proc).time_slice ≡ pos 10)
unfolding dispatch
handed_over-fields k next rest = (
  refl,
  refl,
  refl,
  ap Pcb.state (update_hit (preempted (record k { interrupts = false })).proc next _),
  ap Pcb.time_slice (update_hit (preempted (record k { interrupts = false })).proc next _),
)

expire_switch :
    {k : Kernel} (next : ℕ) (rest : List ℕ)
    → Runs 1 k
    → k.ready_queue ≡ next ∷ rest
    → k.current_proc ≢ next
    → timer_callback k ≡ (handed_over (ticked k) next rest, some (k.current_proc, next))
unfolding count_tick
expire_switch {k} next rest r e apart =
    timer_callback-Runs r
    ∙ schedule-preempt (ticked k) next rest r.not_idle (ticked-is_on r)
        (ap le_zero (ticked-slice r)) apart e

-- The tick that ends a slice.
expire :
    {k : Kernel} (next : ℕ) (rest : List ℕ)
    → Runs 1 k
    → k.ready_queue ≡ next ∷ rest
    → let k' = (timer_callback k).0 in
      Runs 10 k' × (k'.current_proc ≡ next) × (k'.ready_queue ≡ rest ++ (k.current_proc ∷ []))
unfolding dispatch count_tick
expire {k} next rest r e =
    let head : InQueue next k.ready_queue = rw e (inl refl) in
    let v = r.valid in
    let gone = expire_switch next rest r e (λ q. v.current_out (rw q head)) in
    let f = handed_over-fields (ticked k) next rest in
    rw gone (
      record {
        valid = rw gone at (timer_callback-IsValid r.valid);
        nonnull = λ q. r.queue_nonnull (rw (← q) head);
        queue_nonnull = λ m. elim (InQueue-append 0 k.current_proc rest m) [
          | inl l ↦ r.queue_nonnull (rw e (inr l))
          | inr q ↦ r.nonnull (sym q)
        ];
        not_idle = λ q. v.idle_out (rw (← q) head);
        is_on = f.3;
        slice = f.4;
      },
      refl,
      refl,
    )

unfoldable pub after_ticks : ℕ → Kernel → Kernel
after_ticks zero k = k
after_ticks (suc n) k = after_ticks n (timer_callback k).0

-- A whole slice: the next process runs, with a full slice, and the last one is at the queue's end.
turn :
    (m : ℕ) {k : Kernel} (next : ℕ) (rest : List ℕ)
    → Runs (suc m) k
    → k.ready_queue ≡ next ∷ rest
    → let k' = after_ticks (suc m) k in
      Runs 10 k' × (k'.current_proc ≡ next) × (k'.ready_queue ≡ rest ++ (k.current_proc ∷ []))
unfolding after_ticks
turn zero next rest r e = expire next rest r e
turn (suc m) {k} next rest r e =
    let w = wait r in
    let t = turn m next rest w.0 (w.1 ∙ e) in (t.0, t.1, t.2 ∙ ap (λ c. rest ++ (c ∷ [])) w.2)

after_ticks-add : (m n : ℕ) (k : Kernel) → after_ticks (m + n) k ≡ after_ticks n (after_ticks m k)
unfolding after_ticks
after_ticks-add zero n k = let e : zero + n ≡ n = omega arith in ap (λ j. after_ticks j k) e
after_ticks-add (suc m) n k =
    let e : suc m + n ≡ suc (m + n) = omega arith in
    ap (λ j. after_ticks j k) e ∙ after_ticks-add m n (timer_callback k).0

get_elem?-append :
    (qs : List ℕ) (r i : ℕ) {p : ℕ}
    → get_elem? qs i ≡ some p
    → get_elem? (qs ++ (r ∷ [])) i ≡ some p
get_elem?-append [] r i e = ground arith
get_elem?-append (q ∷ qs) r zero e = e
get_elem?-append (q ∷ qs) r (suc i) e = get_elem?-append qs r i e

turn_at :
    (i : ℕ) (l : List ℕ) (k : Kernel) (p : ℕ)
    → Runs 10 k
    → k.ready_queue ≡ l
    → get_elem? l i ≡ some p
    → let k' = after_ticks (10 * (i + 1)) k in Runs 10 k' × (k'.current_proc ≡ p)
turn_at i [] k p r q e = absurd (ground arith)
turn_at zero (next ∷ rest) k p r q e = let t = turn 9 next rest r q in (t.0, t.1 ∙ ground arith)
turn_at (suc i) (next ∷ rest) k p r q e =
    let t = turn 9 next rest r q in
    let split : 10 * (suc i + 1) ≡ 10 + 10 * (i + 1) = omega arith in
    rw (split, after_ticks-add 10 (10 * (i + 1)) k)
      (turn_at i (rest ++ (k.current_proc ∷ [])) (after_ticks 10 k) p t.0 t.2
        (get_elem?-append rest k.current_proc i e))

-- While an ordinary process runs with a full slice and only ticks happen, the process at position `i`
-- of the ready queue has the processor, with a full slice, after exactly `10 * (i + 1)` ticks.
pub after_ticks-turn :
    (i : ℕ) (k : Kernel) {p : ℕ}
    → Runs 10 k
    → get_elem? k.ready_queue i ≡ some p
    → let k' = after_ticks (10 * (i + 1)) k in Runs 10 k' × (k'.current_proc ≡ p)
after_ticks-turn i k {p} r e = turn_at i k.ready_queue k p r refl e
