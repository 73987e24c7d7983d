-- ===== src/Locking/Tests.antt =====
-- Runs of the two locks, and the theorems at them.
use ricerca.Common.{◌≡◌, refl, false, List, [], ◌∷◌, ◌++◌}
use ricerca.Locking.Mutex.Defs.{init}
use ricerca.Locking.Mutex.System.{
  System, locks, unlocks, start, later, after_lock, after_unlock, IsSound, Reach-IsSound,
}
use ricerca.Locking.Mutex.Fifo
use ricerca.Locking.Mutex.Fifo.{run, apply, requests, run_fifo}
use ricerca.Locking.RwLock.Defs.{RwLock, reader, writer, taken_write}
use ricerca.Locking.RwLock.Defs.{unlock as rw_unlock, wake, gather}

-- Task 1 gets the mutex, task 2 sleeps on it, and task 1 gives it back.
abbrev opened : System
opened = record { mutex = init; holds = λ _. false }

Reach-IsSound_example : IsSound (after_unlock 1 (after_lock 2 (after_lock 1 opened)))
unfolding after_lock
Reach-IsSound_example =
    Reach-IsSound
      (later (later (later start (locks 1 refl refl)) (locks 2 refl refl)) (unlocks 1 refl))

abbrev history : List Fifo.Event
history = Fifo.locks 1 ∷ Fifo.locks 2 ∷ Fifo.locks 3 ∷ Fifo.unlocks ∷ Fifo.unlocks ∷ []

run-history : (run history init).1 ≡ 1 ∷ 2 ∷ 3 ∷ []
unfolding run apply
run-history = refl

run_fifo_example : (run history init).1 ++ (run history init).0.sleep_queue ≡ [] ++ requests history
run_fifo_example = run_fifo history init (λ _. refl)

-- A writer holds the lock; readers 1 and 2 sleep on it.
abbrev crowded : RwLock
crowded = record { state = taken_write; readers = 0; sleep_queue = reader 1 ∷ reader 2 ∷ [] }

abbrev mixed : RwLock
mixed = record crowded { sleep_queue = reader 1 ∷ writer 2 ∷ reader 3 ∷ [] }

writer_gone : (rw_unlock mixed).0.sleep_queue ≡ reader 3 ∷ []
unfolding rw_unlock wake gather
writer_gone = refl
