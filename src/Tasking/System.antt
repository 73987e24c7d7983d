-- ===== src/Tasking/System.antt =====
-- One core, with its handlers and the wake-ups of its tasks in any order.
use ricerca.Common.{
  ℕ, ◌+◌, ◌%◌, ◌≡◌, ◌≤◌, ◌<◌, ap, true, false, Option, none, some, arith, size_mod, inl, inr,
  Bool-cases, Option-cases,
}
use ricerca.Containers.PairingHeap.Order.{tally}
use ricerca.Tasking.Defs.{
  wait_on_bootstrap, localsched_init, Task, Localsched, with_task, enqueue_nolock,
  timer_int_handler, switch_from, idle_round, preemption_handler, termination_handler,
  enqueue_signal_nolock, wake_up, associate, ipi_dummy,
}
use ricerca.Tasking.Queue.{IsOrdered-Agree, Agree-put_task, enqueue_nolock-IsOrdered}
use ricerca.Tasking.Places.{places, IsSound}
use ricerca.Tasking.Handlers.{
  timer_int_handler-Leads, yield-Leads, suspend-Leads, termination_handler-Leads, idle_round-Leads,
  wait_on_bootstrap-Leads, IsQueue,
}

module _ (s : Localsched) (ok : IsSound s) (task : ℕ) (absent : places s task ≡ 0) where
  changes-IsSound : (v : Task) → IsSound (with_task s task v)
  changes-IsSound v = record {
    ordered =
        IsOrdered-Agree s.tasks (with_task s task v).tasks s.heap
          (Agree-put_task s.tasks task v s.heap (omega (arith, absent))) ok.ordered;
    single = ok.single;
    counted = ok.counted;
  }

  -- A task that is not there may change and be enqueued.
  arrives-IsSound :
      (v : Task)
      → s.tasks_count + 1 < size_mod
      → IsSound (
          enqueue_signal_nolock
            (record (with_task s task v) { tasks_count = (s.tasks_count + 1) % size_mod })
            task)
  unfolding enqueue_signal_nolock enqueue_nolock
  arrives-IsSound v room =
      let s' : Localsched = record (with_task s task v) {
        tasks_count = (s.tasks_count + 1) % size_mod;
      } in
      let (ordered, added) = enqueue_nolock-IsOrdered s' task ((changes-IsSound v).ordered) in
      let single : (t : ℕ) → places (enqueue_nolock s' task) t ≤ 1 =
        λ t. ground (arith, added t, ok.single t, absent) in
      let pos : 0 < (s.tasks_count + 1) % size_mod = ground (arith, room) in
      elim (Bool-cases s.idle) [
        | inl e ↦ rw e (record { ordered = ordered; single = single; counted = λ t h. pos })
        | inr e ↦ rw e (record { ordered = ordered; single = single; counted = λ t h. pos })
      ]

  wake_up-IsSound : s.tasks_count + 1 < size_mod → IsSound (wake_up task s)
  unfolding wake_up
  wake_up-IsSound room = arrives-IsSound _ room

module _ (s u : Localsched) where
  pub data Step : Type 0 where
    ticks : (now later freq : ℕ) → u ≡ timer_int_handler now later freq s → Step
    yields :
        (now later old : ℕ)
        → s.current_task ≡ some old
        → u ≡ preemption_handler false now later old s
        → Step
    suspends :
        (now later old : ℕ)
        → s.current_task ≡ some old
        → u ≡ preemption_handler true now later old s
        → Step
    terminates :
        (now later old : ℕ)
        → s.current_task ≡ some old
        → u ≡ termination_handler now later old s
        → Step
    boots : (later freq : ℕ) → s.current_task ≡ none → u ≡ wait_on_bootstrap later freq s → Step
    resumes : (later freq : ℕ) → s.current_task ≡ none → u ≡ idle_round later freq s → Step
    wakes :
        (task : ℕ) → places s task ≡ 0 → s.tasks_count + 1 < size_mod → u ≡ wake_up task s → Step
    associates :
        (logical_id task : ℕ)
        → places s task ≡ 0
        → s.tasks_count + 1 < size_mod
        → u ≡ associate logical_id task s
        → Step
    interrupts : u ≡ ipi_dummy s → Step

pub data Reach (s : Localsched) : Localsched → Type 0 where
  start : Reach s s
  later_on : {t u : Localsched} → Reach s t → Step t u → Reach s u

of_IsSound : (s : Localsched) → IsSound s → IsQueue s
of_IsSound s ok =
    (ok.ordered, (λ t. omega (arith, ok.single t)), λ t h. ok.counted t (omega (arith, h)))

timer_int_handler-idle :
    (now later freq : ℕ) (s : Localsched)
    → s.current_task ≡ none
    → timer_int_handler now later freq s ≡ s
unfolding timer_int_handler
timer_int_handler-idle now later freq s idle =
    ap (λ (c : Option ℕ). elim c [ none ↦ s | some old ↦ switch_from now later freq old s ]) idle

Step-IsSound : {s u : Localsched} → IsSound s → Step s u → IsSound u
unfolding associate ipi_dummy
Step-IsSound {s = s} ok (ticks now later freq e) = elim (Option-cases s.current_task) [
  | inl idle ↦ rw (e, timer_int_handler-idle now later freq s idle) ok
  | inr (old, at) ↦ rw e ((timer_int_handler-Leads now old s at ok later freq).sound)
]
Step-IsSound {s = s} ok (yields now later old at e) =
    rw e ((yield-Leads now old s at ok later).sound)
Step-IsSound {s = s} ok (suspends now later old at e) =
    rw e ((suspend-Leads now old s at ok later).sound)
Step-IsSound {s = s} ok (terminates now later old at e) =
    rw e ((termination_handler-Leads now old s at ok later).sound)
Step-IsSound {s = s} ok (boots later freq idle e) =
    rw e ((wait_on_bootstrap-Leads s idle (of_IsSound s ok) later freq).sound)
Step-IsSound {s = s} ok (resumes later freq idle e) =
    rw e ((idle_round-Leads s idle (of_IsSound s ok) later freq).sound)
Step-IsSound {s = s} ok (wakes task absent room e) = rw e (wake_up-IsSound s ok task absent room)
Step-IsSound {s = s} ok (associates logical_id task absent room e) =
    rw e
      (wake_up-IsSound (with_task s task _) (changes-IsSound s ok task absent _) task absent room)
Step-IsSound {s = s} ok (interrupts e) =
    rw e (record { ordered = ok.ordered; single = ok.single; counted = ok.counted })

Reach-keeps : {s u : Localsched} → IsSound s → Reach s u → IsSound u
Reach-keeps ok start = ok
Reach-keeps ok (later_on r step) = Step-IsSound (Reach-keeps ok r) step

-- However the handlers of a core and the wake-ups of its tasks follow each other from its set-up on,
-- the queue is in the order of unfairness, no task is in it twice or both in it and running, and no
-- time is divided by 0.
pub Reach-IsSound_core : (s : Localsched) {u : Localsched} → Reach (localsched_init s) u → IsSound u
unfolding localsched_init tally
Reach-IsSound_core s r =
    Reach-keeps
      (record {
        ordered = record { heap = tt; root = tt };
        single = λ t. omega arith;
        counted = λ t h. omega (arith, h);
      })
      r
