-- ===== src/Tasking/Places.antt =====
-- Where a task is: in the queue of its core, running on it, or neither.
use ricerca.Common.{ℕ, ◌+◌, ◌≡◌, ◌≤◌, ◌<◌, Option, none, some, arith}
use ricerca.Containers.PairingHeap.{Hook, nil}
use ricerca.Containers.PairingHeap.Order.{Above}
use ricerca.Containers.Intmap.Tally.{once}
use ricerca.Tasking.Defs.{Task, Localsched, put_task, cmp_unfairness, run_task}
use ricerca.Tasking.Queue.{IsOrdered, queued, Above-Agree, IsOrdered-Agree}

abbrev pub running : Option ℕ → ℕ → ℕ
running none t = 0
running (some u) t = once t u

abbrev pub places : Localsched → ℕ → ℕ
places s t = queued s.heap t + running s.current_task t

-- The queue is in order, no task is in two places, and the count that times are divided by is not 0
-- where there is a task.
pub record IsSound (s : Localsched) : Type 0 where
  pub ordered : IsOrdered s.tasks s.heap
  pub single : (t : ℕ) → places s t ≤ 1
  pub counted : (t : ℕ) → 0 < places s t → 0 < s.tasks_count

-- No waiting task has been served less than the running one; a core that runs none has none waiting.
abbrev pub IsServed : Option ℕ → (ℕ → Task) → Hook ℕ → Type 0
IsServed none tasks h = h ≡ nil
IsServed (some t) tasks h = Above (cmp_unfairness tasks) t h

abbrev pub IsFair : Localsched → Type 0
IsFair s = IsServed s.current_task s.tasks s.heap

-- A call leads to a sound state that runs what it should, with the tasks `kept` in a place.
pub record Leads (kept : ℕ → ℕ) (s : Localsched) : Type 0 where
  pub sound : IsSound s
  pub fair : IsFair s
  pub same : (t : ℕ) → places s t ≡ kept t

pub run_task-Leads :
    (later task : ℕ) (s : Localsched)
    → IsOrdered s.tasks s.heap
    → Above (cmp_unfairness s.tasks) task s.heap
    → ((t : ℕ) → once t task + queued s.heap t ≤ 1)
    → ((t : ℕ) → 0 < once t task + queued s.heap t → 0 < s.tasks_count)
    → Leads (λ t. once t task + queued s.heap t) (run_task later task s)
unfolding run_task
run_task-Leads later task s ok above one pos =
    let g = put_task s.tasks task (record (s.tasks task) { timestamp = later }) in
    let same : (t : ℕ) → (s.tasks t).unfairness ≡ (g t).unfairness = λ t. ground arith in
    record {
      sound = record {
        ordered = IsOrdered-Agree s.tasks g s.heap (λ t h. same t) ok;
        single = λ t. omega (arith, one t);
        counted = λ t h. pos t (omega (arith, h));
      };
      fair = Above-Agree s.tasks g task s.heap (same task) (λ t h. same t) above;
      same = λ t. omega arith;
    }
