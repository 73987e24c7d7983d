-- ===== src/Locking/Mutex/Defs.antt =====
-- thread_mutex_lock and thread_mutex_unlock on the mutex's own state.
use ricerca.Common.{ℕ, Bool, true, false, Option, none, some, List, [], ◌∷◌, ◌++◌, if◌then◌else◌}

abbrev pub Task : Type 0
Task = ℕ

pub record Mutex : Type 0 where
  pub sleep_queue : List Task
  pub taken : Bool

-- THREAD_MUTEX_INIT
abbrev pub init : Mutex
init = record { sleep_queue = []; taken = false }

-- The flag says whether the caller goes on at once; if not, it sleeps in the queue.
unfoldable pub lock : Task → Mutex → Mutex × Bool
lock current m =
    if m.taken
    then (record m { sleep_queue = m.sleep_queue ++ current ∷ [] }, false)
    else (record m { taken = true }, true)

-- The dequeued node decides: none leaves the mutex free, a task is woken and owns the mutex.
unfoldable pub hand_over : List Task → Mutex → Mutex × Option Task
hand_over [] m = (record m { taken = false }, none)
hand_over (t ∷ rest) m = (record m { sleep_queue = rest }, some t)

unfoldable pub unlock : Mutex → Mutex × Option Task
unfolding hand_over
unlock m = hand_over m.sleep_queue m
