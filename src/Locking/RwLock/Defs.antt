-- ===== src/Locking/RwLock/Defs.antt =====
-- The read-write lock's own state, and its three operations, a spinlock section each.
use ricerca.Common.{
  ℕ, ◌+◌, ◌-◌, ◌%◌, Bool, true, false, not, ◌&&◌, List, [], ◌∷◌, ◌++◌, ◌==◌, if◌then◌else◌,
  size_mod,
}
use ricerca.Locking.Mutex.Defs.{Task}

pub record Waiter : Type 0 where
  pub task : Task
  pub writing : Bool

abbrev pub reader : Task → Waiter
reader t = record { task = t; writing = false }

abbrev pub writer : Task → Waiter
writer t = record { task = t; writing = true }

pub data LockState : Type 0 where
  free taken_read taken_write : LockState

pub record RwLock : Type 0 where
  pub sleep_queue : List Waiter
  pub state : LockState
  pub readers : ℕ

-- THREAD_RWLOCK_INIT
abbrev pub init : RwLock
init = record { sleep_queue = []; state = free; readers = 0 }

abbrev is_read : LockState → Bool
is_read taken_read = true
is_read _ = false

abbrev is_free : LockState → Bool
is_free free = true
is_free _ = false

abbrev is_empty : List Waiter → Bool
is_empty [] = true
is_empty (_ ∷ _) = false

-- `rwlock->readers++` and `rwlock->readers--` on a size_t.
abbrev inc : ℕ → ℕ
inc n = (n + 1) % size_mod

abbrev dec : ℕ → ℕ
dec n = (n + size_mod - 1) % size_mod

-- The flag says whether the caller goes on at once; if not, it sleeps in the queue.
unfoldable pub read : Task → RwLock → RwLock × Bool
read current l =
    if is_free l.state
    then (record l { state = taken_read }, true)
    else if is_read l.state && is_empty l.sleep_queue
    then (record l { readers = inc l.readers }, true)
    else (record l { sleep_queue = l.sleep_queue ++ reader current ∷ [] }, false)

unfoldable pub write : Task → RwLock → RwLock × Bool
write current l =
    if is_free l.state
    then (record l { state = taken_write }, true)
    else (record l { sleep_queue = l.sleep_queue ++ writer current ∷ [] }, false)

-- The do-while loop behind the first reader: the readers it takes, and the queue it leaves. The
-- node that ends the loop has been dequeued too.
unfoldable pub gather : List Waiter → List Task × List Waiter
gather [] = ([], [])
gather (w ∷ q) = if w.writing then ([], q) else let (ts, rest) = gather q in (w.task ∷ ts, rest)

abbrev pub length_tasks : List Task → ℕ
length_tasks [] = 0
length_tasks (_ ∷ ts) = 1 + length_tasks ts

-- The dequeue and what follows it: the new lock, and the tasks that are woken, in order.
unfoldable pub wake : List Waiter → RwLock → RwLock × List Task
unfolding gather
wake [] l = (record l { state = free }, [])
wake (w ∷ q) l =
    if w.writing
    then (record l { sleep_queue = q; state = taken_write }, w.task ∷ [])
    else let (ts, rest) = gather q in
      (
        record {
          sleep_queue = rest;
          state = taken_read;
          readers = length_tasks (w.task ∷ ts) % size_mod;
        },
        w.task ∷ ts,
      )

unfoldable pub unlock : RwLock → RwLock × List Task
unfolding wake
unlock l =
    let l' = if is_read l.state then record l { readers = dec l.readers } else l in
    if is_read l.state && not (l'.readers == 0) then (l', []) else wake l'.sleep_queue l'
