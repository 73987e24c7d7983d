-- ===== src/Tasking/Defs.antt =====
-- src/kernel/thread/tasking/localsched.c: the queue of one core and the tasks that belong to it.
use ricerca.Common.{
  ℕ, ◌+◌, ◌-◌, ◌%◌, ◌/◌, Bool, true, false, Option, none, some, ◌==◌, ltb, if◌then◌else◌, size_mod,
}
use ricerca.Containers.PairingHeap.{Hook, nil, insert, get_min, remove_min}

-- struct thread_task, but for its frame, its stack and its page tables
pub record Task : Type 0 where
  pub unfairness : ℕ
  pub acc_unfairness_idle : ℕ
  pub timestamp : ℕ
  pub core_id : ℕ

-- struct thread_localsched_data of a core; the heap has the addresses of tasks. Further the tasks by
-- address, whether an IPI to the core is pending, and what its timer is set to.
pub record Localsched : Type 0 where
  pub heap : Hook ℕ
  pub idle : Bool
  pub tasks_count : ℕ
  pub idle_unfairness : ℕ
  pub current_task : Option ℕ
  pub tasks : ℕ → Task
  pub ipi : Bool
  pub timer : Option ℕ

-- THREAD_LOCAL_TIMESLICE_MIN and THREAD_LOCAL_TIMESLICE_DEFAULT
abbrev pub timeslice_min : ℕ
timeslice_min = 10000

abbrev pub timeslice_default : ℕ
timeslice_default = 20000

abbrev pub put_task : (ℕ → Task) → ℕ → Task → ℕ → Task
put_task f t v u = if t == u then v else f u

abbrev pub with_task : Localsched → ℕ → Task → Localsched
with_task s t v = record s { tasks = put_task s.tasks t v }

-- Subtraction of 64-bit numbers.
abbrev pub minus : ℕ → ℕ → ℕ
minus a b = (a + (size_mod - b)) % size_mod

-- thread_localsched_cmp_unfairness
abbrev pub cmp_unfairness : (ℕ → Task) → ℕ → ℕ → Bool
cmp_unfairness tasks left right = ltb (tasks left).unfairness (tasks right).unfairness

-- thread_localsched_enqueue_nolock
unfoldable pub enqueue_nolock : Localsched → (task : ℕ) → Localsched
enqueue_nolock s task = record s { heap = insert (cmp_unfairness s.tasks) s.heap task }

-- thread_localsched_enqueue_signal_nolock
unfoldable pub enqueue_signal_nolock : Localsched → (task : ℕ) → Localsched
enqueue_signal_nolock s task =
    let s' = enqueue_nolock s task in if s.idle then record s' { ipi = true } else s'

-- thread_localsched_try_get_nolock
unfoldable pub try_get_nolock : Localsched → Option ℕ
try_get_nolock s = get_min s.heap

-- thread_localsched_try_dequeue_nolock
unfoldable pub try_dequeue_nolock : Localsched → Option ℕ × Localsched
try_dequeue_nolock s =
    let (task, heap) = remove_min (cmp_unfairness s.tasks) s.heap in
    (task, record s { heap = heap })

-- thread_localsched_pick_timeslice_len; `freq` is the core's tsc_freq.
unfoldable pub pick_timeslice_len : (freq current_unfairness : ℕ) → Localsched → ℕ
pick_timeslice_len freq current_unfairness s = elim (try_get_nolock s) [
  | none ↦ timeslice_default
  | some alternative ↦
      let us = minus (s.tasks alternative).unfairness current_unfairness / freq in
      if ltb timeslice_min us then us else timeslice_min
]

-- thread_localsched_update_unfairness at the time `now`. The count that it divides by is not 0: see
-- the invariant.
unfoldable pub update_unfairness : (now task : ℕ) → Localsched → Localsched
update_unfairness now task s =
    let t = s.tasks task in
    let diff = minus now t.timestamp in
    record (with_task s task (record t { unfairness = (t.unfairness + diff) % size_mod })) {
      idle_unfairness = (s.idle_unfairness + diff / s.tasks_count) % size_mod;
    }

-- The end of each handler: the core goes on with the task, from the time `now`.
unfoldable pub run_task : (now task : ℕ) → Localsched → Localsched
run_task now task s = record (with_task s task (record (s.tasks task) { timestamp = now })) {
  current_task = some task;
}

abbrev pub set_timer : (freq task : ℕ) → Localsched → Localsched
set_timer freq task s = record s {
  timer = some (pick_timeslice_len freq (s.tasks task).unfairness s);
}

-- What thread_localsched_timer_int_handler runs next.
abbrev pub or_else : Option ℕ → ℕ → ℕ
or_else none old = old
or_else (some new) old = new

-- thread_localsched_timer_int_handler while the task `old` runs
unfoldable pub switch_from : (now later freq old : ℕ) → Localsched → Localsched
switch_from now later freq old s =
    let (found, s') = try_dequeue_nolock (enqueue_nolock (update_unfairness now old s) old) in
    let new = or_else found old in run_task later new (set_timer freq new s')

-- thread_localsched_timer_int_handler; the time is read at `now` and again at `later`.
unfoldable pub timer_int_handler : (now later freq : ℕ) → Localsched → Localsched
timer_int_handler now later freq s = elim s.current_task [
  | none ↦ s
  | some old ↦ switch_from now later freq old s
]

-- The end of the two handlers below: dequeue without waiting, and go on with the task; or enter idle,
-- where the timer is cancelled and the core halts.
unfoldable pub dequeue : (later : ℕ) → Localsched → Localsched
dequeue later s =
    let (found, s') = try_dequeue_nolock s in
    elim found [ none ↦ record s' { idle = true; timer = none } | some new ↦ run_task later new s' ]

-- A round of the loop of thread_localsched_dequeue on a core that is woken: it takes a task and ends
-- the handler that has been waiting, or halts again.
unfoldable pub idle_round : (later freq : ℕ) → Localsched → Localsched
idle_round later freq s =
    let (found, s') = try_dequeue_nolock s in
    elim found [ none ↦ s' | some new ↦ run_task later new (set_timer freq new s') ]

-- thread_localsched_preemption_handler, for thread_localsched_yield and
-- thread_localsched_suspend_current, up to where the core may halt. The callback of the latter gives a
-- spinlock back.
unfoldable pub preemption_handler : (suspend : Bool) (now later old : ℕ) → Localsched → Localsched
preemption_handler suspend now later old s =
    let s' = update_unfairness now old s in
    let s'' =
      if suspend
      then with_task s' old (record (s'.tasks old) { acc_unfairness_idle = s'.idle_unfairness })
      else enqueue_nolock s' old in
    dequeue later (record s'' { current_task = none })

-- thread_localsched_termination_handler
unfoldable pub termination_handler : (now later old : ℕ) → Localsched → Localsched
termination_handler now later old s =
    dequeue later (record (update_unfairness now old s) { current_task = none })

-- thread_localsched_wake_up of a task of this core
unfoldable pub wake_up : (task : ℕ) → Localsched → Localsched
wake_up task s =
    let t = s.tasks task in
    let s' = with_task s task (record t {
      unfairness = (t.unfairness + minus s.idle_unfairness t.acc_unfairness_idle) % size_mod;
    }) in
    enqueue_signal_nolock (record s' { tasks_count = (s.tasks_count + 1) % size_mod }) task

-- thread_localsched_associate with this core, whose number is `logical_id`
unfoldable pub associate : (logical_id task : ℕ) → Localsched → Localsched
associate logical_id task s = wake_up task (
    with_task s task
      (record (s.tasks task) { unfairness = 0; acc_unfairness_idle = 0; core_id = logical_id }))

-- thread_localsched_ipi_dummy
unfoldable pub ipi_dummy : Localsched → Localsched
ipi_dummy s = record s { idle = false; ipi = false }

-- thread_localsched_init on a core
unfoldable pub localsched_init : Localsched → Localsched
localsched_init s = record s {
  heap = nil;
  current_task = none;
  tasks_count = 0;
  idle_unfairness = 0;
}

-- thread_localsched_wait_on_boostrap, up to where the core may halt: other than the handlers above it
-- sets the timer for a task that it finds at once.
unfoldable pub wait_on_bootstrap : (later freq : ℕ) → Localsched → Localsched
wait_on_bootstrap later freq s =
    let (found, s') = try_dequeue_nolock s in
    elim found [
      | none ↦ record s' { idle = true; timer = none }
      | some new ↦ run_task later new (set_timer freq new s')
    ]

-- thread_localsched_get_current_task
unfoldable pub get_current_task : Localsched → Option ℕ
get_current_task s = s.current_task
