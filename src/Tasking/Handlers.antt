-- ===== src/Tasking/Handlers.antt =====
-- What each handler of a core runs next.
use mathlib.Core.Path.{subst}
use ricerca.Common.{
  ℕ, ◌+◌, ◌≡◌, ◌≤◌, ◌<◌, refl, Bool, true, false, Option, none, some, arith, sym, ◌∙◌, ap,
}
use ricerca.Containers.PairingHeap.{Hook, nil}
use ricerca.Containers.PairingHeap.Order.{Above, tally}
use ricerca.Containers.Intmap.Tally.{once}
use ricerca.Tasking.Defs.{
  cmp_unfairness, Localsched, with_task, enqueue_nolock, update_unfairness, run_task, set_timer,
  or_else, switch_from, timer_int_handler, dequeue, idle_round, wait_on_bootstrap,
  preemption_handler, termination_handler,
}
use ricerca.Tasking.Queue.{
  IsOrdered, queued, IsOrdered-Agree, Agree-put_task, nothing, least, try_dequeue_nolock-Dequeued,
  enqueue_nolock-IsOrdered,
}
use ricerca.Tasking.Places.{places, IsSound, IsServed, IsFair, Leads, run_task-Leads}

-- The queue where no task runs.
abbrev pub IsQueue : Localsched → Type 0
IsQueue s =
    IsOrdered s.tasks s.heap
    × ((t : ℕ) → queued s.heap t ≤ 1)
    × ((t : ℕ) → 0 < queued s.heap t → 0 < s.tasks_count)

IsFair-idle : (s : Localsched) → s.current_task ≡ none → s.heap ≡ nil → IsFair s
IsFair-idle s idle h = subst (λ c. IsServed c s.tasks s.heap) (sym idle) h

module _ (s : Localsched) (halted : s.current_task ≡ none) (queue : IsQueue s) where
  -- The core halts.
  halts-Leads :
      (b : Bool) (x : Option ℕ)
      → s.heap ≡ nil
      → Leads (queued s.heap) (record s { idle = b; timer = x })
  halts-Leads b x h = record {
    sound = record {
      ordered = queue.0;
      single = λ t. ground (arith, halted, queue.1 t);
      counted = λ t h. queue.2 t (ground (arith, halted, h));
    };
    fair = IsFair-idle s halted h;
    same = λ t. ground (arith, halted);
  }

  -- The core goes on with the task that it takes, its timer being set or not.
  takes-Leads :
      (later task : ℕ) (rest : Hook ℕ) (x : Option ℕ)
      → Above (cmp_unfairness s.tasks) task rest
      → IsOrdered s.tasks rest
      → ((t : ℕ) → queued s.heap t ≡ once t task + queued rest t)
      → Leads (queued s.heap) (run_task later task (record s { heap = rest; timer = x }))
  takes-Leads later task rest x above ok same =
      let l =
        run_task-Leads later task (record s { heap = rest; timer = x }) ok above
          (λ t. omega (arith, queue.1 t, same t)) (λ t h. queue.2 t (omega (arith, h, same t))) in
      record { sound = l.sound; fair = l.fair; same = λ t. omega (arith, l.same t, same t) }

  dequeue-Leads : (later : ℕ) → Leads (queued s.heap) (dequeue later s)
  unfolding dequeue
  dequeue-Leads later = elim (try_dequeue_nolock-Dequeued s (queue.0)) [
    | nothing h e ↦ rw (dequeue, e, e) (halts-Leads true none h)
    | least task rest e above ok same ↦
        rw (dequeue, e, e) (takes-Leads later task rest s.timer above ok same)
  ]

  -- A core that is woken takes the least unfair task, if there is one, and runs it.
  pub idle_round-Leads : (later freq : ℕ) → Leads (queued s.heap) (idle_round later freq s)
  unfolding idle_round
  idle_round-Leads later freq = elim (try_dequeue_nolock-Dequeued s (queue.0)) [
    | nothing h e ↦ rw (idle_round, e, e) (halts-Leads s.idle s.timer h)
    | least task rest e above ok same ↦
        rw (idle_round, e, e) (takes-Leads later task rest _ above ok same)
  ]

  pub wait_on_bootstrap-Leads :
      (later freq : ℕ) → Leads (queued s.heap) (wait_on_bootstrap later freq s)
  unfolding wait_on_bootstrap
  wait_on_bootstrap-Leads later freq = elim (try_dequeue_nolock-Dequeued s (queue.0)) [
    | nothing h e ↦ rw (wait_on_bootstrap, e, e) (halts-Leads true none h)
    | least task rest e above ok same ↦
        rw (wait_on_bootstrap, e, e) (takes-Leads later task rest _ above ok same)
  ]

module _ (now old : ℕ) (s : Localsched) (at : s.current_task ≡ some old) (ok : IsSound s) where
  out : queued s.heap old ≡ 0
  out = ground (arith, at, ok.single old)

  update_unfairness-IsOrdered : IsOrdered (update_unfairness now old s).tasks s.heap
  unfolding update_unfairness
  update_unfairness-IsOrdered =
      IsOrdered-Agree s.tasks (update_unfairness now old s).tasks s.heap
        (Agree-put_task s.tasks old _ s.heap out) ok.ordered

  -- The queue after the running task has been put back.
  put_back-IsQueue :
      IsQueue (enqueue_nolock (update_unfairness now old s) old)
      × ((t : ℕ) → queued (enqueue_nolock (update_unfairness now old s) old).heap t ≡ places s t)
  unfolding update_unfairness enqueue_nolock
  put_back-IsQueue =
      let (ordered, added) =
        enqueue_nolock-IsOrdered (update_unfairness now old s) old update_unfairness-IsOrdered in
      let same : (t : ℕ)
          → queued (enqueue_nolock (update_unfairness now old s) old).heap t ≡ places s t =
        λ t. ground (arith, added t, at) in
      (
        (
          ordered,
          (λ t. omega (arith, same t, ok.single t)),
          λ t h. ok.counted t (omega (arith, h, same t)),
        ),
        same,
      )

  -- At a timer interrupt no task is lost or doubled, and the task that then runs has been served
  -- least of all that could.
  pub timer_int_handler-Leads :
      (later freq : ℕ) → Leads (places s) (timer_int_handler now later freq s)
  unfolding timer_int_handler switch_from tally
  timer_int_handler-Leads later freq =
      let s' = enqueue_nolock (update_unfairness now old s) old in
      let ((ordered, one, pos), same) = put_back-IsQueue in
      elim (try_dequeue_nolock-Dequeued s' ordered) [
        | nothing h e ↦ absurd (ground (arith, ap (λ h. queued h old) h, same old, at))
        | least task rest e above ok' total ↦
            let s'' : Localsched = record s' { heap = rest } in
            let l =
              run_task-Leads later task (set_timer freq task s'') ok' above
                (λ t. omega (arith, one t, total t)) (λ t h. pos t (omega (arith, h, total t))) in
            let runs : timer_int_handler now later freq s
                ≡ run_task later task (set_timer freq task s'') =
              ap
                (λ (c : Option ℕ). elim c [
                  | none ↦ s
                  | some old ↦ switch_from now later freq old s
                ])
                at
              ∙ ap
                  (λ (r : Option ℕ × Localsched).
                    run_task later (or_else r.0 old) (set_timer freq (or_else r.0 old) r.1))
                  e in
            rw runs (record {
              sound = l.sound;
              fair = l.fair;
              same = λ t. omega (arith, l.same t, total t, same t);
            })
      ]

  -- The same where the task yields.
  pub yield-Leads : (later : ℕ) → Leads (places s) (preemption_handler false now later old s)
  unfolding preemption_handler
  yield-Leads later =
      let ((ordered, one, pos), same) = put_back-IsQueue in
      let s' : Localsched = record (enqueue_nolock (update_unfairness now old s) old) {
        current_task = none;
      } in
      let l = dequeue-Leads s' refl (ordered, one, pos) later in
      record { sound = l.sound; fair = l.fair; same = λ t. omega (arith, l.same t, same t) }

  -- Where it suspends itself, and where it ends, the other tasks keep their places.
  pub suspend-Leads : (later : ℕ) → Leads (queued s.heap) (preemption_handler true now later old s)
  unfolding preemption_handler update_unfairness
  suspend-Leads later =
      let u = update_unfairness now old s in
      let s' : Localsched =
        record (with_task u old
          (record (u.tasks old) { acc_unfairness_idle = u.idle_unfairness })) {
            current_task = none;
          } in
      dequeue-Leads s' refl
        (
          IsOrdered-Agree u.tasks s'.tasks s.heap (Agree-put_task u.tasks old _ s.heap out)
              update_unfairness-IsOrdered,
          (λ t. omega (arith, ok.single t)),
          λ t h. ok.counted t (omega (arith, h)),
        )
        later

  pub termination_handler-Leads :
      (later : ℕ) → Leads (queued s.heap) (termination_handler now later old s)
  unfolding termination_handler update_unfairness
  termination_handler-Leads later =
      let s' : Localsched = record (update_unfairness now old s) { current_task = none } in
      dequeue-Leads s' refl
        (
          update_unfairness-IsOrdered,
          (λ t. omega (arith, ok.single t)),
          λ t h. ok.counted t (omega (arith, h)),
        )
        later
