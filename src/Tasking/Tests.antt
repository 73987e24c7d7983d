-- ===== src/Tasking/Tests.antt =====
-- Runs of one core with two tasks, and the theorems at them.
use ricerca.Common.{ℕ, ◌≡◌, refl, true, false, none, some, ◌==◌, arith, if◌then◌else◌}
use ricerca.Containers.PairingHeap.{nil, node, insert, meld, treeify, remove_min}
use ricerca.Containers.PairingHeap.Order.{tally}
use ricerca.Tasking.Defs.{
  Task, Localsched, enqueue_nolock, enqueue_signal_nolock, try_get_nolock, try_dequeue_nolock,
  update_unfairness, run_task, timer_int_handler, switch_from, idle_round, wake_up, ipi_dummy,
  localsched_init, wait_on_bootstrap,
}
use ricerca.Tasking.Places.{places, IsSound, Leads}
use ricerca.Tasking.Handlers.{timer_int_handler-Leads}
use ricerca.Tasking.System.{Reach, start, later_on, wakes, boots, Reach-IsSound_core}
use ricerca.Tasking.Wakeup.{wake_up_unsignalled}

-- Task 1 has been served for 50, task 2 for 30, the others not.
abbrev served : ℕ → Task
served t = record {
  unfairness = if t == 1 then 50 else if t == 2 then 30 else 0;
  acc_unfairness_idle = 0;
  timestamp = 100;
  core_id = 0;
}

-- Task 1 runs and task 2 waits.
abbrev busy : Localsched
busy = record {
  heap = node 2 nil nil;
  idle = false;
  tasks_count = 2;
  idle_unfairness = 0;
  current_task = some 1;
  tasks = served;
  ipi = false;
  timer = none;
}

busy-IsSound : IsSound busy
unfolding tally
busy-IsSound = record {
  ordered = record { heap = (tt, tt, tt); root = tt };
  single = λ t. ground arith;
  counted = λ t h. omega arith;
}

switches : (timer_int_handler 120 121 1 busy).current_task ≡ some 2
unfolding timer_int_handler switch_from update_unfairness enqueue_nolock try_dequeue_nolock run_task
    insert meld remove_min treeify
switches = refl

timer_int_handler-Leads_example : Leads (places busy) (timer_int_handler 120 121 1 busy)
timer_int_handler-Leads_example = timer_int_handler-Leads 120 1 busy refl busy-IsSound 121 1

abbrev fresh : Localsched
fresh = record busy { heap = nil; current_task = none; idle = true }

-- After its set-up, task 1 arrives and the core starts.
abbrev arrived : Localsched
arrived = wake_up 1 (localsched_init fresh)

first_task : Reach (localsched_init fresh) (wait_on_bootstrap 10 1 arrived)
unfolding localsched_init wake_up enqueue_signal_nolock enqueue_nolock tally
first_task = later_on (later_on start (wakes 1 refl (omega arith) refl)) (boots 10 1 refl refl)

Reach-IsSound_core_example : IsSound (wait_on_bootstrap 10 1 arrived)
Reach-IsSound_core_example = Reach-IsSound_core fresh first_task

wake_up_unsignalled_example :
    ((wake_up 1 fresh).ipi ≡ true)
    × ((wake_up 1 (idle_round 10 1 (ipi_dummy fresh))).ipi ≡ false)
    × ((wake_up 1 (idle_round 10 1 (ipi_dummy fresh))).current_task ≡ none)
    × (try_get_nolock (wake_up 1 (idle_round 10 1 (ipi_dummy fresh))) ≡ some 1)
wake_up_unsignalled_example = wake_up_unsignalled 1 10 1 fresh refl refl

-- Task 2 runs and task 1 waits.
abbrev swapped : Localsched
swapped = record busy { heap = node 1 nil nil; current_task = some 2 }
