-- ===== src/Locking/RwLock/Unlock.antt =====
-- What unlocking does to those who sleep on the lock.
use mathlib.Core.List.{map}
use ricerca.Common.{◌≡◌, ◌%◌, refl, ◌⊎◌, true, List, [], ◌∷◌, ◌++◌, arith, size_mod, size_max}
use ricerca.Locking.Mutex.Defs.{Task}
use ricerca.Locking.RwLock.Defs.{
  RwLock, Waiter, reader, writer, free, taken_read, taken_write, read, write, gather, unlock,
  length_tasks,
}

-- The unlock is one that frees the lock: by the writer, or by the last reader that is counted.
abbrev pub IsLast : RwLock → Type 0
IsLast l = (l.state ≡ taken_write) ⊎ ((l.state ≡ taken_read) × (l.readers ≡ 1))

-- A writer that unlocks hands the lock to a writer at the head of the queue, and to nobody else.
pub unlock_to_writer :
    (t : Task) (q : List Waiter) (l : RwLock)
    → l.state ≡ taken_write
    → l.sleep_queue ≡ writer t ∷ q
    → unlock l ≡ (record l { sleep_queue = q; state = taken_write }, t ∷ [])
unfolding unlock
unlock_to_writer t q l e p = ground arith

gather_readers : (ts : List Task) → gather (map reader ts) ≡ (ts, [])
unfolding gather
gather_readers [] = refl
gather_readers (t ∷ ts) = rw (gather_readers ts)

-- A writer that unlocks with only readers asleep wakes them all, in order, and counts them.
pub unlock_to_readers :
    (t : Task) (ts : List Task) (l : RwLock)
    → l.state ≡ taken_write
    → l.sleep_queue ≡ map reader (t ∷ ts)
    → unlock l ≡ (
      record { sleep_queue = []; state = taken_read; readers = length_tasks (t ∷ ts) % size_mod },
      t ∷ ts,
    )
unfolding unlock
unlock_to_readers t ts l e p = ground (arith, gather_readers ts)

gather-lost :
    (ts : List Task) (w : Task) (q : List Waiter) → gather (map reader ts ++ writer w ∷ q) ≡ (ts, q)
unfolding gather
gather-lost [] w q = refl
gather-lost (t ∷ ts) w q = rw (gather-lost ts w q)

-- When the unlock that frees the lock finds readers asleep in front of a writer, that writer is dequeued with them and is
-- not woken: it stands neither among the woken tasks nor in the queue that is left.
unlock_loses_writer :
    (t : Task) (ts : List Task) (w : Task) (q : List Waiter) (l : RwLock)
    → IsLast l
    → l.sleep_queue ≡ map reader (t ∷ ts) ++ writer w ∷ q
    → ((unlock l).1 ≡ t ∷ ts) × ((unlock l).0.sleep_queue ≡ q)
unfolding unlock
unlock_loses_writer t ts w q l e p =
    (ground (arith, gather-lost ts w q), ground (arith, gather-lost ts w q))

-- A reader that takes a lock with no reader counted leaves the count at 0, so its unlock wraps the count round and
-- returns with the lock still taken for reading and nobody woken.
pub read_then_unlock_stuck :
    (t : Task) (l : RwLock)
    → l.state ≡ free
    → l.readers ≡ 0
    → ((unlock (read t l).0).0.state ≡ taken_read)
      × ((unlock (read t l).0).0.readers ≡ size_max)
      × ((unlock (read t l).0).1 ≡ [])
unfolding unlock read
read_then_unlock_stuck t l e z = (ground arith, ground arith, ground arith)

-- Two readers that take a free lock with no reader counted count as one: when one of them unlocks,
-- the lock is free and the next writer gets it at once, beside the other reader.
two_readers_one_unlock :
    (t u w : Task) (l : RwLock)
    → l.state ≡ free
    → l.readers ≡ 0
    → l.sleep_queue ≡ []
    → ((read t l).1 ≡ true)
      × ((read u (read t l).0).1 ≡ true)
      × ((write w (unlock (read u (read t l).0).0).0).1 ≡ true)
unfolding unlock read write
two_readers_one_unlock t u w l e z q = (ground arith, ground arith, ground arith)
